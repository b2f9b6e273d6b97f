-- ===== src/Examples/Disk.antt =====
-- A file system in memory, on which the theorems about the file server are run.
use my_project_imserver.Base.{
  ℕ, suc, ◌+◌, ◌≤◌, ◌≡◌, ◌≢◌, refl, Bool, true, false, [], ◌∷◌, Option, none, some, arith, leb,
  ◌==◌, ==_refl, if◌then◌else◌, length, take, drop, Bytes, bytes_eq, bytes_eq→eq, Bool-cases, inl,
  inr, bytes_eq_refl,
}
use my_project_imserver.Files.Api.{FileApi, OpenMode, for_writing, for_update, for_reading}
use my_project_imserver.Files.Storage.{Stream, overwrite, IsStored}

-- The files, the open streams and the number of the next stream.
pub record Memory : Type 0 where
  pub disk : Bytes → Option Bytes
  pub streams : ℕ → Option Stream
  pub next : ℕ

abbrev pub stored : Bytes → Bytes → (Bytes → Option Bytes) → Bytes → Option Bytes
stored name bytes disk other = if bytes_eq other name then some bytes else disk other

abbrev set_stream : ℕ → Option Stream → (ℕ → Option Stream) → ℕ → Option Stream
set_stream fp s streams other = if other == fp then s else streams other

abbrev opened : Bytes → Option Bytes → Memory → Option ℕ × Memory
opened name none m = (none, m)
opened name (some bytes) m = (
  some m.next,
  record m {
    streams =
        set_stream m.next (some (record { name = name; position = 0; bytes = bytes })) m.streams;
    next = suc m.next;
  },
)

abbrev fopen_memory : Bytes → OpenMode → Memory → Option ℕ × Memory
fopen_memory name for_writing m = opened name (some []) (record m { disk = stored name [] m.disk })
fopen_memory name for_update m = opened name (m.disk name) m
fopen_memory name for_reading m = opened name (m.disk name) m

abbrev moved : (Stream → ℕ) → Option Stream → Option Stream
moved f none = none
moved f (some s) = some (record s { position = f s })

abbrev tell : Option Stream → ℕ
tell none = 0
tell (some s) = s.position

abbrev written : Bytes → ℕ → Option Stream → Memory → Bool × Memory
written part fp none m = (false, m)
written [] fp (some s) m = (false, m)
written (b ∷ bs) fp (some s) m = (
  true,
  record m {
    streams =
        set_stream fp
          (some (record s {
            position = s.position + length (b ∷ bs);
            bytes = overwrite s.position (b ∷ bs) s.bytes;
          }))
          m.streams;
  },
)

abbrev fetched : ℕ → ℕ → Option Stream → Memory → (Bytes × Bool) × Memory
fetched n fp none m = (([], false), m)
fetched n fp (some s) m = (
  (take n (drop s.position s.bytes), leb (s.position + n) (length s.bytes)),
  record m { streams = set_stream fp (some (record s { position = s.position + n })) m.streams },
)

abbrev closed : ℕ → Option Stream → Memory → Memory
closed fp none m = m
closed fp (some s) m = record m {
  disk = stored s.name s.bytes m.disk;
  streams = set_stream fp none m.streams;
}

abbrev pub memory_files : FileApi
memory_files = record {
  Fs = Memory;
  File = ℕ;
  fopen = fopen_memory;
  fseek_set =
      λ fp k m. record m { streams = set_stream fp (moved (λ s. k) (m.streams fp)) m.streams };
  fseek_end = λ fp m. record m {
    streams = set_stream fp (moved (λ s. length s.bytes) (m.streams fp)) m.streams;
  };
  ftell = λ fp m. tell (m.streams fp);
  fwrite = λ part fp m. written part fp (m.streams fp) m;
  fread = λ n fp m. fetched n fp (m.streams fp) m;
  fclose = λ fp m. closed fp (m.streams fp) m;
  opendir = λ name m. none;
  mkdir = λ name m. (true, m);
}

pub stored-other :
    (name bytes other : Bytes) (disk : Bytes → Option Bytes)
    → other ≢ name
    → stored name bytes disk other ≡ disk other
stored-other name bytes other disk ne = elim (Bool-cases (bytes_eq other name)) [
  | inl same ↦ absurd (ne (bytes_eq→eq other name same))
  | inr differs ↦ rw differs refl
]

pub stored-same :
    (name bytes : Bytes) (disk : Bytes → Option Bytes) → stored name bytes disk name ≡ some bytes
stored-same name bytes disk = rw (bytes_eq_refl name) refl

pub set_stream-same :
    (fp : ℕ) (s : Option Stream) (streams : ℕ → Option Stream) → set_stream fp s streams fp ≡ s
set_stream-same fp s streams = rw (==_refl fp) refl

pub written_lem :
    (name part : Bytes) (fp k : ℕ) (bytes : Bytes) (m : Memory)
    → 1 ≤ length part
    → (m' : Memory) × (written part fp
          (some (record { name = name; position = k; bytes = bytes }))
          m
        ≡ (true, m'))
      × (m'.streams fp
          ≡ some
              (record { name = name; position = k + length part; bytes = overwrite k part bytes }))
      × ((other : Bytes) → other ≢ name → m'.disk other ≡ m.disk other)
written_lem name [] fp k bytes m h = absurd (omega arith)
written_lem name (b ∷ bs) fp k bytes m h =
    (_, refl, set_stream-same fp _ m.streams, λ other ne. refl)

pub leb-true : (m n : ℕ) → m ≤ n → leb m n ≡ true
leb-true m n h = ground arith

-- It takes every file.
unfoldable pub memory_files-IsStored : (name : Bytes) → IsStored memory_files name
memory_files-IsStored name = record {
  content = λ other m. m.disk other;
  stream = λ fp m. m.streams fp;
  fopen-absent = λ other m h. rw h refl;
  fopen-write = λ m. (
    m.next,
    _,
    refl,
    set_stream-same m.next _ m.streams,
    λ other ne. stored-other name [] other m.disk ne,
  );
  fopen-update = λ m bytes h. rw h (m.next, _, refl, set_stream-same m.next _ m.streams);
  stream-fseek_set = λ fp k l bytes m h small. (rw (==_refl fp, h) refl, λ other ne. refl);
  stream-fseek_end = λ fp l bytes m h. rw (==_refl fp, h) refl;
  ftell-position = λ fp s m h small. rw h refl;
  fwrite-true =
      λ part fp k bytes m h some_bytes inside. rw h (written_lem name part fp k bytes m some_bytes);
  fread-true = λ n fp k bytes m h some_bytes inside.
      rw (h, leb-true (k + n) (length bytes) inside) (_, refl, set_stream-same fp _ m.streams);
  content-fclose = λ fp k bytes m h. (
    rw h (stored-same name bytes m.disk),
    λ other ne. rw h (stored-other name bytes other m.disk ne),
  );
}
