-- ===== src/Files/Names.antt =====
-- The names that FileManager of EdoyumIMServer/FileServer/FileManager.cpp has, under the requests to
-- EdoyumIMServer/FileServer/FileSession.cpp.
use my_project_imserver.Base.{
  ℕ, ◌≡◌, refl, sym, subst, Bool, true, false, List, [], ◌∷◌, ◌++◌, if◌then◌else◌, Option-cases,
  c_text, Option, none, some, arith, Bytes, inl, inr, ltb, ◌==◌, slt, ◌+◌, length, ◌%◌,
}
use my_project_imserver.Wire.Compress.{is_empty}
use my_project_imserver.Wire.Reader.{
  Reader, ReadResult, refused, fault, got, read_data, read_string, new_reader,
}
use my_project_imserver.Files.Api.{FileApi, for_reading}
use my_project_imserver.Files.Manager.{listed, add_file, probed, is_file_exsit}
use my_project_imserver.Files.Transfer.{
  State, send_file, reset_file, upload_stored, upload_write, upload_opened, upload_new,
  on_upload_file_response, finish_download, current_send_size, piece_size, msg_type_upload_req,
  msg_type_download_req, download_piece, download_sized, download_opened, download_from,
  on_download_file_response,
}
use my_project_imserver.Files.Process.{
  counted, file_dispatch, reading, file_process_rest, file_process,
}

-- A list that has the names of another.
abbrev pub Has : List Bytes → List Bytes → Type 0
Has files files' = (name : Bytes) → listed name files ≡ true → listed name files' ≡ true

listed-append :
    (name : Bytes) (files more : List Bytes)
    → listed name files ≡ true
    → listed name (files ++ more) ≡ true
unfolding listed
listed-append name [] more h = cc
listed-append name (file ∷ files) more h = ground (arith, listed-append name files more)

pub Has-refl : (files : List Bytes) → Has files files
Has-refl files name h = h

Has-append : (files more : List Bytes) → Has files (files ++ more)
Has-append files more name h = listed-append name files more h

-- What both branches have, the choice has.
by_test : {A : Type 0} (P : A → Type 0) (b : Bool) (x y : A) → P x → P y → P (if b then x else y)
by_test P true x y p q = p
by_test P false x y p q = q

module _ (api : FileApi) where
  open api use {Fs, File}

  probed-Has :
      (name : Bytes) (files : List Bytes) (found : Option File × Fs)
      → Has files (probed api name files found).1
  unfolding probed
  probed-Has name files (none, fs) = Has-refl files
  probed-Has name files (some fp, fs) = Has-append files (name ∷ [])

  is_file_exsit-Has :
      (filename : Bytes) (files : List Bytes) (fs : Fs)
      → Has files (is_file_exsit api filename files fs).1
  unfolding is_file_exsit
  is_file_exsit-Has filename files fs =
      let name = c_text filename in
      by_test (λ (r : Bool × List Bytes × Fs). Has files r.1) (listed name files) (true, files, fs)
        (probed api name files (api.fopen name for_reading fs)) (Has-refl files)
        (probed-Has name files (api.fopen name for_reading fs))

  reset_file-files : (d : State api) → (reset_file api d).files ≡ d.files
  unfolding reset_file
  reset_file-files d = elim (Option-cases d.session.fp) [
    | inl closed ↦ rw closed refl
    | inr (fp, open_fp) ↦ rw open_fp refl
  ]

  -- A handler that ends without an exception keeps the names.
  abbrev Keeps : List Bytes → Option (State api) → Type 0
  Keeps files none = Unit {0}
  Keeps files (some d) = Has files d.files

  abbrev StateHas : List Bytes → State api → Type 0
  StateHas files d = Has files d.files

  Keeps-trans :
      (files files' : List Bytes) (o : Option (State api))
      → Has files files'
      → Keeps files' o
      → Keeps files o
  Keeps-trans files files' none h k = tt
  Keeps-trans files files' (some d) h k = λ name is. k name (h name is)

  upload_stored-Has :
      (filemd5 : Bytes) (offset filesize : ℕ) (filedata : Bytes) (d : State api)
      → StateHas d.files (upload_stored api filemd5 offset filesize filedata d)
  unfolding upload_stored send_file add_file
  upload_stored-Has filemd5 offset filesize filedata d =
      let d' : State api = record d { files = d.files ++ c_text filemd5 ∷ [] } in
      by_test (StateHas d.files) ((offset + length filedata) % 0x1_0000_0000 == filesize) _ _
        (subst (Has d.files) (sym (reset_file-files d')) (Has-append d.files (c_text filemd5 ∷ [])))
        (Has-refl d.files)

  upload_write-Keeps :
      (fp : Option File) (filemd5 : Bytes) (offset filesize : ℕ) (filedata : Bytes) (d : State api)
      → Keeps d.files (upload_write api fp filemd5 offset filesize filedata d)
  unfolding upload_write
  upload_write-Keeps none filemd5 offset filesize filedata d = tt
  upload_write-Keeps (some fp) filemd5 offset filesize filedata d =
      by_test (StateHas d.files) (api.fwrite filedata fp (api.fseek_set fp offset d.fs)).0 _ _
        (upload_stored-Has filemd5 offset filesize filedata _) (Has-refl d.files)

  upload_opened-Keeps :
      (filemd5 : Bytes) (filesize : ℕ) (filedata : Bytes) (r : Option File × Fs) (d : State api)
      → Keeps d.files (upload_opened api filemd5 filesize filedata r d)
  unfolding upload_opened
  upload_opened-Keeps filemd5 filesize filedata (none, fs) d = Has-refl d.files
  upload_opened-Keeps filemd5 filesize filedata (some fp, fs) d =
      upload_write-Keeps (some fp) filemd5 0 filesize filedata _

  upload_new-Keeps :
      (filemd5 : Bytes) (offset filesize : ℕ) (filedata : Bytes) (d : State api)
      → Keeps d.files (upload_new api filemd5 offset filesize filedata d)
  unfolding upload_new
  upload_new-Keeps filemd5 offset filesize filedata d =
      by_test (Keeps d.files) (offset == 0) _ _ (upload_opened-Keeps filemd5 filesize filedata _ d)
        (upload_write-Keeps d.session.fp filemd5 offset filesize filedata d)

  on_upload-Keeps :
      (filemd5 : Bytes) (offset filesize : ℕ) (filedata : Bytes) (d : State api)
      → Keeps d.files (on_upload_file_response api filemd5 offset filesize filedata d)
  unfolding on_upload_file_response send_file
  on_upload-Keeps [] offset filesize filedata d = Has-refl d.files
  on_upload-Keeps (c ∷ cs) offset filesize filedata d =
      Keeps-trans d.files (is_file_exsit api (c ∷ cs) d.files d.fs).1 _
        (is_file_exsit-Has (c ∷ cs) d.files d.fs)
        (by_test (Keeps (is_file_exsit api (c ∷ cs) d.files d.fs).1)
          (is_file_exsit api (c ∷ cs) d.files d.fs).0 _ _
          (Has-refl (is_file_exsit api (c ∷ cs) d.files d.fs).1)
          (upload_new-Keeps (c ∷ cs) offset filesize filedata _))

  finish_download-Has : (d : State api) → StateHas d.files (finish_download api d)
  unfolding finish_download
  finish_download-Has d =
      by_test (StateHas d.files) (d.session.offset == d.session.filesize) (reset_file api d) d
        (subst (Has d.files) (sym (reset_file-files d)) (Has-refl d.files)) (Has-refl d.files)

  download_piece-Keeps :
      (filemd5 : Bytes) (fp : File) (d : State api)
      → Keeps d.files (download_piece api filemd5 fp d)
  unfolding download_piece send_file
  download_piece-Keeps filemd5 fp d =
      by_test (Keeps d.files)
        (ltb piece_size (current_send_size d.session.filesize d.session.offset)) none _ tt
        (finish_download-Has _)

  download_sized-Keeps :
      (filemd5 : Bytes) (fp : File) (d : State api)
      → Keeps d.files (download_sized api filemd5 fp d)
  unfolding download_sized
  download_sized-Keeps filemd5 fp d =
      by_test (Keeps d.files) (slt 0 (api.ftell fp (api.fseek_end fp d.fs) % 0x1_0000_0000)) _ _
        (download_piece-Keeps filemd5 fp _) (Has-refl d.files)

  download_opened-Keeps :
      (filemd5 : Bytes) (r : Option File × Fs) (d : State api)
      → Keeps d.files (download_opened api filemd5 r d)
  unfolding download_opened
  download_opened-Keeps filemd5 (none, fs) d = Has-refl d.files
  download_opened-Keeps filemd5 (some fp, fs) d =
      download_sized-Keeps filemd5 fp (record d { fs = fs })

  download_from-Keeps :
      (fp : Option File) (filemd5 : Bytes) (d : State api)
      → Keeps d.files (download_from api fp filemd5 d)
  unfolding download_from
  download_from-Keeps none filemd5 d = download_opened-Keeps filemd5 _ d
  download_from-Keeps (some fp) filemd5 d = download_piece-Keeps filemd5 fp d

  on_download-Keeps :
      (filemd5 : Bytes) (d : State api) → Keeps d.files (on_download_file_response api filemd5 d)
  unfolding on_download_file_response
  on_download-Keeps [] d = Has-refl d.files
  on_download-Keeps (c ∷ cs) d =
      Keeps-trans d.files (is_file_exsit api (c ∷ cs) d.files d.fs).1 _
        (is_file_exsit-Has (c ∷ cs) d.files d.fs)
        (by_test (Keeps (is_file_exsit api (c ∷ cs) d.files d.fs).1)
          (is_file_exsit api (c ∷ cs) d.files d.fs).0 _ _
          (download_from-Keeps d.session.fp (c ∷ cs) _)
          (Has-refl (is_file_exsit api (c ∷ cs) d.files d.fs).1))

  -- The same of what Process returns.
  abbrev pub Returns : List Bytes → Option (Bool × State api) → Type 0
  Returns files none = Unit {0}
  Returns files (some (ok, d)) = Has files d.files

  counted-Returns :
      (files : List Bytes) (o : Option (State api)) → Keeps files o → Returns files (counted api o)
  unfolding counted
  counted-Returns files none k = tt
  counted-Returns files (some d) k = k

  file_dispatch-Returns :
      (cmd : ℕ) (filemd5 : Bytes) (offset filesize : ℕ) (filedata : Bytes) (d : State api)
      → Returns d.files (file_dispatch api cmd filemd5 offset filesize filedata d)
  unfolding file_dispatch
  file_dispatch-Returns cmd filemd5 offset filesize filedata d =
      by_test (Returns d.files) (cmd == msg_type_upload_req) _ _
        (counted-Returns d.files _ (on_upload-Keeps filemd5 offset filesize filedata d))
        (by_test (Returns d.files) (cmd == msg_type_download_req) _ _
          (by_test (Returns d.files) (is_empty filedata) _ _
            (counted-Returns d.files _ (on_download-Keeps filemd5 d)) (Has-refl d.files))
          (Has-refl d.files))

  reading-Returns :
      {A : Type 0} (r : ReadResult A) (k : A → Reader → State api → Option (Bool × State api))
      (d : State api)
      → ((a : A) (rest : Reader) → Returns d.files (k a rest d))
      → Returns d.files (reading api r k d)
  reading-Returns refused k d h = Has-refl d.files
  reading-Returns fault k d h = tt
  reading-Returns (got a rest) k d h = h a rest

  file_process_rest-Returns :
      (cmd : ℕ) (filemd5 : Bytes) (r : Reader) (d : State api)
      → Returns d.files (file_process_rest api cmd filemd5 r d)
  unfolding file_process_rest
  file_process_rest-Returns cmd filemd5 r d = reading-Returns (read_data 4 r) _ d (λ offset r1.
      reading-Returns (read_data 4 r1) _ d (λ filesize r2.
        reading-Returns (read_string r2) _ d
          (λ filedata r3. file_dispatch-Returns cmd filemd5 offset filesize filedata d)))

  pub file_process-Returns :
      (msg : Bytes) (d : State api) → Returns d.files (file_process api msg d)
  unfolding file_process
  file_process-Returns msg d = reading-Returns (read_data 4 (new_reader msg)) _ d (λ cmd r1.
      reading-Returns (read_data 4 r1) _ d (λ seq r2.
        reading-Returns (read_string r2) _ (record d { session = record d.session { seq = seq } })
          (λ filemd5 r3.
            by_test (Returns d.files) (is_empty filemd5) _ _ (Has-refl d.files)
              (file_process_rest-Returns cmd filemd5 r3 _))))
