-- ===== src/Files/Mishaps.antt =====
-- What FileSession::OnUploadFileResponse of EdoyumIMServer/FileServer/FileSession.cpp does with a part
-- of a file whose beginning has not arrived.
use my_project_imserver.Base.{ℕ, ◌≤◌, ◌≡◌, refl, false, List, ◌∷◌, none, arith, Bytes, IsWord, ap}
use my_project_imserver.Files.Api.{FileApi}
use my_project_imserver.Files.Manager.{is_file_exsit}
use my_project_imserver.Files.Transfer.{
  State, msg_type_upload_req, upload_write, upload_new, on_upload_file_response,
}
use my_project_imserver.Files.Process.{counted, file_dispatch, file_process}
use my_project_imserver.Files.Replies.{Fits, file_body, asked, file_process-file_body}

module _ (api : FileApi) where
  open api use {Fs, File}

  no_stream :
      (c : ℕ) (cs : Bytes) (offset filesize : ℕ) (filedata : Bytes) (d : State api)
      → 1 ≤ offset
      → d.session.fp ≡ none
      → upload_new api (c ∷ cs) offset filesize filedata d ≡ none
  unfolding upload_new upload_write
  no_stream c cs offset filesize filedata d later closed =
      ground (arith, ap (λ o. upload_write api o (c ∷ cs) offset filesize filedata d) closed)

  -- A part of an upload at an offset other than 0, on a session that has no file open, under a
  -- name that the server does not find, is a NULL pointer to fseek and fwrite: the server goes
  -- down.
  pub file_process_crash :
      (seq : ℕ) (c : ℕ) (cs : Bytes) (offset filesize : ℕ) (filedata : Bytes) (d : State api)
      (files : List Bytes) (fs : Fs)
      → IsWord seq
      → 1 ≤ offset
      → IsWord offset
      → IsWord filesize
      → Fits (c ∷ cs) filedata
      → d.session.fp ≡ none
      → is_file_exsit api (c ∷ cs) d.files d.fs ≡ (false, files, fs)
      → file_process api (file_body msg_type_upload_req seq (c ∷ cs) offset filesize filedata) d
        ≡ none
  unfolding file_dispatch on_upload_file_response counted
  file_process_crash seq c cs offset filesize filedata d files fs hs later ho hf fits closed
        unknown =
      rw
        (
          file_process-file_body api msg_type_upload_req seq c cs offset filesize filedata d
              (omega arith) hs ho hf fits,
          unknown,
          no_stream c cs offset filesize filedata
              (record (asked api seq d) { files = files; fs = fs }) later closed,
        )
        refl
