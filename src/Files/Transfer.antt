-- ===== src/Files/Transfer.antt =====
-- FileSession::OnUploadFileResponse, OnDownloadFileResponse and ResetFile of
-- EdoyumIMServer/FileServer/FileSession.cpp.
use my_project_imserver.Base.{
  ℕ, ◌+◌, ◌-◌, ◌%◌, List, [], ◌∷◌, ◌++◌, Option, none, some, ltb, ◌==◌, if◌then◌else◌, length, take,
  replicate, Bytes, slt, minus_one, codes, c_text,
}
use my_project_imserver.Wire.Writer.{Writer, write_net, write_string}
use my_project_imserver.Frame.Send.{file_send}
use my_project_imserver.Session.World.{reply}
use my_project_imserver.Files.Api.{FileApi, for_writing, for_update}
use my_project_imserver.Files.Manager.{is_file_exsit, add_file}

abbrev pub msg_type_upload_req : ℕ
msg_type_upload_req = 1

abbrev pub msg_type_upload_resp : ℕ
msg_type_upload_resp = 2

abbrev pub msg_type_download_req : ℕ
msg_type_download_req = 3

abbrev pub msg_type_download_resp : ℕ
msg_type_download_resp = 4

-- The class FileSession; `fp` is `none` where m_fp is NULL.
pub record FileSession (File : Type 0) : Type 0 where
  pub seq : ℕ
  pub fp : Option File
  pub offset : ℕ
  pub filesize : ℕ

unfoldable pub new_file_session : {File : Type 0} → FileSession File
new_file_session = record { seq = 0; fp = none; offset = 0; filesize = 0 }

-- What a handler works on: its session, the list of the FileManager, the file system, and what was
-- sent on the connection, oldest first.
pub record Desk (Fs File : Type 0) : Type 0 where
  pub session : FileSession File
  pub files : List Bytes
  pub fs : Fs
  pub sent : List Bytes

-- The name that fopen is given.
unfoldable pub file_name : Bytes → Bytes
file_name filemd5 = c_text (codes "filecache/" ++ filemd5)

-- The writer of a response.
unfoldable pub file_answer : ℕ → ℕ → Bytes → ℕ → ℕ → Bytes → Writer
file_answer cmd seq filemd5 offset filesize filedata =
    write_string filedata (write_net filesize (write_net offset (reply cmd seq filemd5)))

-- 512 * 1024.
abbrev pub piece_size : ℕ
piece_size = 0x8_0000

-- How much of a file of a size is sent at an offset.
unfoldable pub current_send_size : ℕ → ℕ → ℕ
current_send_size filesize offset =
    if slt ((offset + piece_size) % 0x1_0000_0000) filesize
    then piece_size
    else (filesize + 0x1_0000_0000 - offset) % 0x1_0000_0000

module _ (api : FileApi) where
  open api use {Fs, File, fopen, fseek_set, fseek_end, ftell, fwrite, fread, fclose}

  abbrev pub State : Type 0
  State = Desk Fs File

  unfoldable pub send_file : Writer → State → State
  send_file writer d = record d { sent = d.sent ++ (file_send writer).0 ∷ [] }

  reset_fp : Option File → State → State
  reset_fp none d = d
  reset_fp (some fp) d = record d {
    session = record d.session { fp = none; offset = 0; filesize = 0 };
    fs = fclose fp d.fs;
  }

  unfoldable pub reset_file : State → State
  unfolding reset_fp
  reset_file d = reset_fp d.session.fp d

  -- The answer to a chunk; after the last one the file is registered and closed.
  unfoldable pub upload_stored : Bytes → ℕ → ℕ → Bytes → State → State
  unfolding send_file
  upload_stored filemd5 offset filesize filedata d =
      let seq = d.session.seq in
      if (offset + length filedata) % 0x1_0000_0000 == filesize
      then send_file (file_answer msg_type_upload_resp seq filemd5 minus_one minus_one [])
          (reset_file (record d { files = add_file filemd5 d.files }))
      else send_file (file_answer msg_type_upload_resp seq filemd5 offset filesize []) d

  -- fseek and fwrite, which a NULL does not survive.
  unfoldable pub upload_write : Option File → Bytes → ℕ → ℕ → Bytes → State → Option State
  upload_write none filemd5 offset filesize filedata d = none
  upload_write (some fp) filemd5 offset filesize filedata d =
      let (ok, fs') = fwrite filedata fp (fseek_set fp offset d.fs) in
      let d' : State = record d { fs = fs' } in
      some (if ok then upload_stored filemd5 offset filesize filedata d' else d')

  -- Behind the opening of the file for the first chunk.
  unfoldable pub upload_opened : Bytes → ℕ → Bytes → Option File × Fs → State → Option State
  unfolding upload_write
  upload_opened filemd5 filesize filedata (none, fs) d =
      some (record d { session = record d.session { fp = none }; fs = fs })
  upload_opened filemd5 filesize filedata (some fp, fs) d =
      upload_write (some fp) filemd5 0 filesize filedata
        (record d { session = record d.session { fp = some fp }; fs = fs })

  unfoldable pub upload_new : Bytes → ℕ → ℕ → Bytes → State → Option State
  unfolding upload_opened upload_write
  upload_new filemd5 offset filesize filedata d =
      if offset == 0
      then upload_opened filemd5 filesize filedata (fopen (file_name filemd5) for_writing d.fs) d
      else upload_write d.session.fp filemd5 offset filesize filedata d

  unfoldable pub on_upload_file_response : Bytes → ℕ → ℕ → Bytes → State → Option State
  unfolding upload_new
  on_upload_file_response [] offset filesize filedata d = some d
  on_upload_file_response (c ∷ cs) offset filesize filedata d =
      let filemd5 = c ∷ cs in
      let (exsit, files, fs) = is_file_exsit api filemd5 d.files d.fs in
      let d' : State = record d { files = files; fs = fs } in
      if exsit
      then some (
          send_file (file_answer msg_type_upload_resp d.session.seq filemd5 minus_one minus_one [])
            d')
      else upload_new filemd5 offset filesize filedata d'

  -- fread into the zeroed buffer, whose first `current` bytes are then sent.
  unfoldable pub read_piece : ℕ → File → Fs → Bytes × Fs
  read_piece current fp fs =
      let ((stored, ok), fs') = fread current fp fs in
      if current == 0 then ([], fs) else (take current (stored ++ replicate current 0), fs')

  unfoldable pub finish_download : State → State
  finish_download d = if d.session.offset == d.session.filesize then reset_file d else d

  -- The next piece of the open file. A negative size throws std::length_error, a size above the
  -- buffer's would run over it.
  unfoldable pub download_piece : Bytes → File → State → Option State
  unfolding finish_download read_piece
  download_piece filemd5 fp d =
      let s = d.session in
      let current = current_send_size s.filesize s.offset in
      let (filedata, fs') = read_piece current fp d.fs in
      let writer = file_answer msg_type_download_resp s.seq filemd5 s.offset s.filesize filedata in
      let s' : FileSession File = record s { offset = (s.offset + current) % 0x1_0000_0000 } in
      if ltb piece_size current
      then none
      else some (finish_download (send_file writer (record d { session = s'; fs = fs' })))

  -- A file that is just open: its size; nothing where that is not positive.
  unfoldable pub download_sized : Bytes → File → State → Option State
  unfolding download_piece
  download_sized filemd5 fp d =
      let fs1 = fseek_end fp d.fs in
      let size = ftell fp fs1 % 0x1_0000_0000 in
      let d' : State = record d {
        session = record d.session { fp = some fp; filesize = size };
        fs = fs1;
      } in
      if slt 0 size
      then download_piece filemd5 fp (record d' { fs = fseek_set fp 0 fs1 })
      else some d'

  unfoldable pub download_opened : Bytes → Option File × Fs → State → Option State
  unfolding download_sized
  download_opened filemd5 (none, fs) d = some (record d { fs = fs })
  download_opened filemd5 (some fp, fs) d = download_sized filemd5 fp (record d { fs = fs })

  unfoldable pub download_from : Option File → Bytes → State → Option State
  unfolding download_opened download_piece
  download_from none filemd5 d =
      download_opened filemd5 (fopen (file_name filemd5) for_update d.fs) d
  download_from (some fp) filemd5 d = download_piece filemd5 fp d

  unfoldable pub on_download_file_response : Bytes → State → Option State
  unfolding download_from
  on_download_file_response [] d = some d
  on_download_file_response (c ∷ cs) d =
      let filemd5 = c ∷ cs in
      let (exsit, files, fs) = is_file_exsit api filemd5 d.files d.fs in
      let d' : State = record d { files = files; fs = fs } in
      if exsit then download_from d'.session.fp filemd5 d' else some d'
