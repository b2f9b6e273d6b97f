-- ===== src/Files/Api.antt =====
-- What the file server calls of the C library: stdio, opendir and mkdir.
use my_project_imserver.Base.{ℕ, Bool, List, Option, Bytes}

-- The modes "w", "r+" and "r" of fopen.
pub data OpenMode : Type 0 where
  for_writing for_update for_reading : OpenMode

-- A `FILE *` that is not NULL is a `File`, and the state of the file system and of the streams is an
-- `Fs`. `fseek_set` takes the offset as the pattern of an int32_t. `fwrite` writes one element, and
-- tells whether it did. `fread` reads one element of the given size, and tells the bytes that it
-- stored at the beginning of the buffer and whether the element was read whole. `opendir` answers
-- the names that readdir then delivers.
pub record FileApi : Type 1 where
  pub Fs : Type 0
  pub File : Type 0
  pub fopen : Bytes → OpenMode → Fs → Option File × Fs
  pub fseek_set : File → ℕ → Fs → Fs
  pub fseek_end : File → Fs → Fs
  pub ftell : File → Fs → ℕ
  pub fwrite : Bytes → File → Fs → Bool × Fs
  pub fread : ℕ → File → Fs → (Bytes × Bool) × Fs
  pub fclose : File → Fs → Fs
  pub opendir : Bytes → Fs → Option (List Bytes)
  pub mkdir : Bytes → Fs → Bool × Fs
