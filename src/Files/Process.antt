-- ===== src/Files/Process.antt =====
-- FileSession::Process of EdoyumIMServer/FileServer/FileSession.cpp.
use my_project_imserver.Base.{
  ℕ, ◌+◌, ◌%◌, Bool, true, false, Option, none, some, ◌==◌, if◌then◌else◌, Bytes,
}
use my_project_imserver.Wire.Compress.{is_empty}
use my_project_imserver.Wire.Reader.{
  Reader, ReadResult, refused, fault, got, new_reader, read_data, read_string,
}
use my_project_imserver.Files.Api.{FileApi}
use my_project_imserver.Files.Transfer.{
  State, msg_type_upload_req, msg_type_download_req, on_upload_file_response,
  on_download_file_response,
}

module _ (api : FileApi) where
  -- `++m_seq` behind a handler.
  unfoldable pub counted : Option (State api) → Option (Bool × State api)
  counted none = none
  counted (some d) =
      some (
        true,
        record d { session = record d.session { seq = (d.session.seq + 1) % 0x1_0000_0000 } },
      )

  -- The switch over the command.
  unfoldable pub file_dispatch : ℕ → Bytes → ℕ → ℕ → Bytes → State api → Option (Bool × State api)
  unfolding counted
  file_dispatch cmd filemd5 offset filesize filedata d =
      if cmd == msg_type_upload_req
      then counted (on_upload_file_response api filemd5 offset filesize filedata d)
      else if cmd == msg_type_download_req
      then (if is_empty filedata
          then counted (on_download_file_response api filemd5 d)
          else some (false, d))
      else some (false, d)

  -- A read whose failure ends Process.
  abbrev pub reading :
      {A : Type 0}
      → ReadResult A
      → (A → Reader → State api → Option (Bool × State api))
      → State api
      → Option (Bool × State api)
  reading refused k d = some (false, d)
  reading fault k d = none
  reading (got a r) k d = k a r d

  -- Behind the name: offset, size and data.
  unfoldable pub file_process_rest : ℕ → Bytes → Reader → State api → Option (Bool × State api)
  unfolding file_dispatch
  file_process_rest cmd filemd5 r d =
      reading (read_data 4 r)
        (λ offset r1. reading (read_data 4 r1) (λ filesize r2.
          reading (read_string r2)
            (λ filedata r3. file_dispatch cmd filemd5 offset filesize filedata)))
        d

  -- `m_seq` takes the number of the request.
  unfoldable pub file_process : Bytes → State api → Option (Bool × State api)
  unfolding file_process_rest
  file_process buffer = reading (read_data 4 (new_reader buffer)) (λ cmd r1.
      reading (read_data 4 r1) (λ seq r2 d.
        reading (read_string r2)
          (λ filemd5 r3 d'.
            if is_empty filemd5 then some (false, d') else file_process_rest cmd filemd5 r3 d')
          (record d { session = record d.session { seq = seq } })))
