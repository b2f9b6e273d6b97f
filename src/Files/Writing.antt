-- ===== src/Files/Writing.antt =====
-- The part of a file that FileSession::OnUploadFileResponse of EdoyumIMServer/FileServer/FileSession.cpp
-- awaits, and what writing it does to the stream.
use my_project_imserver.Base.{
  ℕ, ◌+◌, ◌≤◌, ◌<◌, ◌≡◌, ◌≢◌, refl, sym, subst, ap, ◌∙◌, ◌⊎◌, inl, inr, false, [], ◌∷◌, ◌++◌,
  append-nil, Option, none, some, arith, length, take-eq_of_le, drop-eq_of_le, Bytes, c_text,
}
use my_project_imserver.Files.Api.{FileApi}
use my_project_imserver.Files.Manager.{listed, is_file_exsit}
use my_project_imserver.Files.Transfer.{
  State, file_name, upload_stored, upload_write, upload_opened, upload_new,
}
use my_project_imserver.Files.Storage.{overwrite, IsStored}

overwrite-end : (part bytes : Bytes) → overwrite (length bytes) part bytes ≡ bytes ++ part
overwrite-end part bytes = rw (
  take-eq_of_le (length bytes) bytes (omega arith),
  drop-eq_of_le (length bytes + length part) bytes (omega arith),
  append-nil,
)

length-file_name : (md5 : Bytes) → c_text md5 ≡ md5 → length (file_name md5) ≡ 10 + length md5
unfolding file_name
length-file_name md5 e = rw e (omega arith)

pub ne-file_name : (md5 : Bytes) → c_text md5 ≡ md5 → md5 ≢ file_name md5
ne-file_name md5 e h = absurd (omega (arith, ap length h, length-file_name md5 e))

module _ (api : FileApi) (c : ℕ) (cs : Bytes) (disk : IsStored api (file_name (c ∷ cs)))
    (named : c_text (c ∷ cs) ≡ c ∷ cs) where
  open api use {Fs, File}
  open disk use {content, stream}

  abbrev md5 : Bytes
  md5 = c ∷ cs

  -- The first bytes of the file are there, in a stream of the session unless there are none, and the
  -- name is new.
  pub record Awaits (d : State api) (bytes : Bytes) : Type 0 where
    pub unlisted : listed md5 d.files ≡ false
    pub absent : content md5 d.fs ≡ none
    pub opened :
        (bytes ≡ [])
        ⊎ ((fp : File) × (k : ℕ) × (d.session.fp ≡ some fp)
            × (stream fp d.fs
                ≡ some (record { name = file_name md5; position = k; bytes = bytes })))

  pub unknown :
      (d : State api) (bytes : Bytes)
      → Awaits d bytes
      → is_file_exsit api md5 d.files d.fs ≡ (false, d.files, d.fs)
  unfolding is_file_exsit
  unknown d bytes h = rw (named, h.unlisted, disk.fopen-absent md5 d.fs h.absent) refl

  -- A part that is written to a stream with the parts before it.
  abbrev pub Written : State api → Bytes → Bytes → ℕ → Option (State api) → Type 0
  Written d bytes part total result =
      (fp : File) × (fs : Fs) × (k : ℕ) × (result
        ≡ some (
            upload_stored api md5 (length bytes) total part
              (record d { session = record d.session { fp = some fp }; fs = fs })))
      × (stream fp fs ≡ some (record { name = file_name md5; position = k; bytes = bytes ++ part }))
      × (content md5 fs ≡ none)

  write-Written :
      (d : State api) (bytes part : Bytes) (total k : ℕ) (fp : File) (fs : Fs)
      → stream fp fs ≡ some (record { name = file_name md5; position = k; bytes = bytes })
      → content md5 fs ≡ none
      → length bytes < 0x8000_0000
      → 1 ≤ length part
      → Written d bytes part total (
          upload_write api
            (some fp)
            md5
            (length bytes)
            total
            part
            (record d { session = record d.session { fp = some fp }; fs = fs }))
  unfolding upload_write
  write-Written d bytes part total k fp fs at absent small some_bytes =
      let (sought, kept) = disk.stream-fseek_set fp (length bytes) k bytes fs at small in
      let (fs', wrote, after, kept') =
        disk.fwrite-true part fp (length bytes) bytes (api.fseek_set fp (length bytes) fs) sought
          some_bytes (omega arith) in
      (
        fp,
        fs',
        length bytes + length part,
        rw wrote refl,
        rw after (rw overwrite-end refl),
        kept' md5 (ne-file_name md5 named) ∙ kept md5 (ne-file_name md5 named) ∙ absent,
      )

  upload_new-later :
      (d : State api) (offset total : ℕ) (part : Bytes) (fp : File)
      → 1 ≤ offset
      → d.session.fp ≡ some fp
      → upload_new api md5 offset total part d
        ≡ upload_write api
            (some fp)
            md5
            offset
            total
            part
            (record d { session = record d.session { fp = some fp }; fs = d.fs })
  unfolding upload_new
  upload_new-later d offset total part fp later open_fp = ground (
    arith,
    ap
        (λ (o : Option File).
          upload_write api o md5 offset total part
            (record d { session = record d.session { fp = o } }))
        open_fp,
  )

  pub upload_new-Written :
      (d : State api) (bytes part : Bytes) (total : ℕ)
      → Awaits d bytes
      → length bytes < 0x8000_0000
      → 1 ≤ length part
      → Written d bytes part total (upload_new api md5 (length bytes) total part d)
  unfolding upload_new upload_opened
  upload_new-Written d [] part total h small some_bytes =
      let (fp, fs, opens, at, kept) = disk.fopen-write d.fs in
      rw opens (
        write-Written d [] part total 0 fp fs at (kept md5 (ne-file_name md5 named) ∙ h.absent)
          (omega arith) some_bytes)
  upload_new-Written d (b ∷ bs) part total h small some_bytes = elim h.opened [
    | inl none_yet ↦ absurd (cc)
    | inr (fp, k, open_fp, at) ↦
        subst (Written d (b ∷ bs) part total)
          (sym (upload_new-later d (length (b ∷ bs)) total part fp (omega arith) open_fp))
          (write-Written d (b ∷ bs) part total k fp d.fs at h.absent small some_bytes)
  ]
