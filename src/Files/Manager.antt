-- ===== src/Files/Manager.antt =====
-- EdoyumIMServer/FileServer/FileManager.cpp: the list of the names of the files. It is passed in and
-- out, as is the state of the file system.
use my_project_imserver.Base.{
  Bool, true, false, List, [], ◌∷◌, ◌++◌, Option, none, some, if◌then◌else◌, ◌||◌, Bytes, bytes_eq,
  codes, c_text,
}
use my_project_imserver.Files.Api.{FileApi, for_reading}

-- The loop over the directory, without "." and "..".
unfoldable pub list_names : List Bytes → List Bytes
list_names [] = []
list_names (name ∷ names) =
    let rest = list_names names in
    if bytes_eq name (codes ".") || bytes_eq name (codes "..") then rest else name ∷ rest

-- The loop over the list.
unfoldable pub listed : Bytes → List Bytes → Bool
listed name [] = false
listed name (file ∷ files) =
    let rest = listed name files in if bytes_eq file name then true else rest

unfoldable pub add_file : Bytes → List Bytes → List Bytes
add_file filename files = files ++ c_text filename ∷ []

module _ (api : FileApi) where
  open api use {Fs, File, fopen, fclose, opendir, mkdir}

  -- What Init makes of the directory that it opened, or did not.
  unfoldable pub load_dir : Bytes → Option (List Bytes) → List Bytes → Fs → Bool × List Bytes × Fs
  load_dir basepath none files fs = let (ok, fs') = mkdir basepath fs in (ok, files, fs')
  load_dir basepath (some names) files fs = (true, files ++ list_names names, fs)

  unfoldable pub init_files : Bytes → List Bytes → Fs → Bool × List Bytes × Fs
  unfolding load_dir
  init_files basepath files fs = load_dir basepath (opendir basepath fs) files fs

  -- The look into the file system.
  unfoldable pub probed : Bytes → List Bytes → Option File × Fs → Bool × List Bytes × Fs
  probed filename files (none, fs) = (false, files, fs)
  probed filename files (some fp, fs) = (true, files ++ filename ∷ [], fclose fp fs)

  unfoldable pub is_file_exsit : Bytes → List Bytes → Fs → Bool × List Bytes × Fs
  unfolding probed
  is_file_exsit filename files fs =
      let name = c_text filename in
      if listed name files then (true, files, fs) else probed name files (fopen name for_reading fs)
