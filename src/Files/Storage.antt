-- ===== src/Files/Storage.antt =====
-- What the C library documents of the operations on one file, as far as the file server relies on it
-- in EdoyumIMServer/FileServer/FileSession.cpp. The record is for a file that the disk takes: its
-- operations succeed.
use my_project_imserver.Base.{
  ℕ, ◌+◌, ◌≤◌, ◌<◌, ◌≡◌, ◌≢◌, true, [], ◌++◌, Option, none, some, length, take, drop, Bytes,
}
use my_project_imserver.Files.Api.{FileApi, for_writing, for_update, for_reading}

-- An open stream: its file, the position, and the bytes of the file as the stream has them.
pub record Stream : Type 0 where
  pub name : Bytes
  pub position : ℕ
  pub bytes : Bytes

-- `part` over the bytes from a position.
abbrev pub overwrite : ℕ → Bytes → Bytes → Bytes
overwrite k part bytes = take k bytes ++ (part ++ drop (k + length part) bytes)

pub record IsStored (api : FileApi) (name : Bytes) : Type 0 where
  -- The bytes of a file on the disk, and what a stream shows.
  pub content : Bytes → api.Fs → Option Bytes
  pub stream : api.File → api.Fs → Option Stream
  -- A file that is not there is not opened for reading, and the attempt changes nothing.
  pub fopen-absent :
      (other : Bytes) (fs : api.Fs)
      → content other fs ≡ none
      → api.fopen other for_reading fs ≡ (none, fs)
  -- "w" makes the file empty, "r+" shows what is in it; both stand at its beginning.
  pub fopen-write :
      (fs : api.Fs)
      → (fp : api.File) × (fs' : api.Fs) × (api.fopen name for_writing fs ≡ (some fp, fs'))
        × (stream fp fs' ≡ some (record { name = name; position = 0; bytes = [] }))
        × ((other : Bytes) → other ≢ name → content other fs' ≡ content other fs)
  pub fopen-update :
      (fs : api.Fs) (bytes : Bytes)
      → content name fs ≡ some bytes
      → (fp : api.File) × (fs' : api.Fs) × (api.fopen name for_update fs ≡ (some fp, fs'))
        × (stream fp fs' ≡ some (record { name = name; position = 0; bytes = bytes }))
  pub stream-fseek_set :
      (fp : api.File) (k l : ℕ) (bytes : Bytes) (fs : api.Fs)
      → stream fp fs ≡ some (record { name = name; position = l; bytes = bytes })
      → k < 0x8000_0000
      → (stream fp (api.fseek_set fp k fs)
          ≡ some (record { name = name; position = k; bytes = bytes }))
        × ((other : Bytes)
            → other ≢ name
            → content other (api.fseek_set fp k fs) ≡ content other fs)
  pub stream-fseek_end :
      (fp : api.File) (l : ℕ) (bytes : Bytes) (fs : api.Fs)
      → stream fp fs ≡ some (record { name = name; position = l; bytes = bytes })
      → stream fp (api.fseek_end fp fs)
        ≡ some (record { name = name; position = length bytes; bytes = bytes })
  pub ftell-position :
      (fp : api.File) (s : Stream) (fs : api.Fs)
      → stream fp fs ≡ some s
      → s.position < 0x8000_0000
      → api.ftell fp fs ≡ s.position
  -- An element of at least one byte is written at a position inside the file or at its end.
  pub fwrite-true :
      (part : Bytes) (fp : api.File) (k : ℕ) (bytes : Bytes) (fs : api.Fs)
      → stream fp fs ≡ some (record { name = name; position = k; bytes = bytes })
      → 1 ≤ length part
      → k ≤ length bytes
      → (fs' : api.Fs) × (api.fwrite part fp fs ≡ (true, fs'))
        × (stream fp fs'
            ≡ some (record {
              name = name;
              position = k + length part;
              bytes = overwrite k part bytes;
            }))
        × ((other : Bytes) → other ≢ name → content other fs' ≡ content other fs)
  -- An element that is in the file is read.
  pub fread-true :
      (n : ℕ) (fp : api.File) (k : ℕ) (bytes : Bytes) (fs : api.Fs)
      → stream fp fs ≡ some (record { name = name; position = k; bytes = bytes })
      → 1 ≤ n
      → k + n ≤ length bytes
      → (fs' : api.Fs) × (api.fread n fp fs ≡ ((take n (drop k bytes), true), fs'))
        × (stream fp fs' ≡ some (record { name = name; position = k + n; bytes = bytes }))
  pub content-fclose :
      (fp : api.File) (k : ℕ) (bytes : Bytes) (fs : api.Fs)
      → stream fp fs ≡ some (record { name = name; position = k; bytes = bytes })
      → (content name (api.fclose fp fs) ≡ some bytes)
        × ((other : Bytes) → other ≢ name → content other (api.fclose fp fs) ≡ content other fs)
