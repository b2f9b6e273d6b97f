-- ===== src/Files/Asking.antt =====
-- A request for a piece of a file: FileSession::OnDownloadFileResponse of
-- EdoyumIMServer/FileServer/FileSession.cpp.
use my_project_imserver.Base.{
  ℕ, ◌+◌, ◌%◌, ◌≤◌, ◌<◌, ◌≡◌, refl, ap, ◌∙◌, true, List, [], ◌∷◌, ◌++◌, none, some, arith, length,
  slt, Bytes, IsWord, c_text,
}
use my_project_imserver.Files.Api.{FileApi}
use my_project_imserver.Files.Manager.{listed, is_file_exsit}
use my_project_imserver.Files.Transfer.{
  State, file_name, msg_type_download_req, piece_size, download_piece, download_sized,
  download_opened, download_from, on_download_file_response,
}
use my_project_imserver.Files.Process.{counted, file_dispatch, file_process}
use my_project_imserver.Files.Storage.{IsStored}
use my_project_imserver.Files.Replies.{asked, file_process-file_body}
use my_project_imserver.Files.Cut.{download_request}
use my_project_imserver.Files.Pieces.{
  At, Downloading, Downloaded, reply_at, counted-last, counted-more, download_piece-Sent,
}

module _ (api : FileApi) (c : ℕ) (cs : Bytes) (disk : IsStored api (file_name (c ∷ cs)))
    (named : c_text (c ∷ cs) ≡ c ∷ cs) where
  open api use {Fs, File}
  open disk use {content, stream}

  abbrev md5 : Bytes
  md5 = c ∷ cs

  known_file :
      (files : List Bytes) (fs : Fs)
      → listed md5 files ≡ true
      → is_file_exsit api md5 files fs ≡ (true, files, fs)
  unfolding is_file_exsit
  known_file files fs h = rw (named, h) refl

  download_asked :
      (seq x y : ℕ) (d : State api)
      → listed md5 d.files ≡ true
      → IsWord seq
      → IsWord x
      → IsWord y
      → length md5 < 0x7f00_0000
      → file_process api (download_request seq md5 x y) d
        ≡ counted api (download_from api d.session.fp md5 (asked api seq d))
  unfolding file_dispatch on_download_file_response
  download_asked seq x y d h hs hx hy short =
      rw
        (
          file_process-file_body api msg_type_download_req seq c cs x y [] d (omega arith) hs hx hy
              (omega arith),
          known_file d.files d.fs h,
        )
        refl

  -- The first request opens the file.
  download_from-none :
      (bytes : Bytes) (d : State api)
      → listed md5 d.files ≡ true
      → d.session.fp ≡ none
      → d.session.offset ≡ 0
      → content (file_name md5) d.fs ≡ some bytes
      → 1 ≤ length bytes
      → length bytes ≤ 0x7ff8_0000
      → (fp : File) × (fs : Fs) × (download_from api d.session.fp md5 d
          ≡ download_piece api md5 fp (record d {
            session = record d.session { fp = some fp; filesize = length bytes };
            fs = fs;
          }))
        × At api c cs disk named fp fs 0 bytes
  unfolding download_from download_opened download_sized
  download_from-none bytes d h closed at_start stored some_bytes small =
      let (fp, fs, opens, at) = disk.fopen-update d.fs bytes stored in
      let at_end = disk.stream-fseek_end fp 0 bytes fs at in
      let (at_front, _) =
        disk.stream-fseek_set fp 0 (length bytes) bytes (api.fseek_end fp fs) at_end
          (omega arith) in
      let told = disk.ftell-position fp _ (api.fseek_end fp fs) at_end (omega arith) in
      let size : length bytes % 0x1_0000_0000 ≡ length bytes = omega arith in
      let positive : slt 0 (length bytes) ≡ true = ground arith in
      (
        fp,
        api.fseek_set fp 0 (api.fseek_end fp fs),
        rw (closed, opens, told, size, positive) refl,
        at_front,
      )

  -- A request that goes on with a piece of the file.
  abbrev pub Begins : ℕ → File → ℕ → Bytes → State api → Type 0
  Begins seq fp offset bytes d =
      (d' : State api) × (download_from api d.session.fp md5 (asked api seq d)
        ≡ download_piece api md5 fp d')
      × Downloading api c cs disk named fp offset bytes d'
      × (d'.files ≡ d.files)
      × (d'.sent ≡ d.sent)
      × (d'.session.seq ≡ seq)
      × (listed md5 d.files ≡ true)

  pub Downloading-Begins :
      (seq : ℕ) (fp : File) (offset : ℕ) (bytes : Bytes) (d : State api)
      → Downloading api c cs disk named fp offset bytes d
      → Begins seq fp offset bytes d
  unfolding download_from
  Downloading-Begins seq fp offset bytes d h = (
    asked api seq d,
    rw h.open_fp refl,
    record {
      open_fp = h.open_fp;
      at_offset = h.at_offset;
      of_size = h.of_size;
      at = h.at;
      known = h.known;
    },
    refl,
    refl,
    refl,
    h.known,
  )

  Downloaded-from :
      (seq : ℕ) (bytes : Bytes) (replies : List Bytes) (d d' d1 : State api)
      → d'.files ≡ d.files
      → d'.sent ≡ d.sent
      → Downloaded api c cs disk named seq bytes replies d' d1
      → Downloaded api c cs disk named seq bytes replies d d1
  Downloaded-from seq bytes replies d d' d1 files sent (files', sent', session, stored) =
      (files' ∙ files, sent' ∙ ap (λ xs. xs ++ replies) sent, session, stored)

  module _ (seq x y : ℕ) (bytes : Bytes) (hs : seq < 0xffff_ffff) (hx : IsWord x) (hy : IsWord y)
      (small : length bytes ≤ 0x7ff8_0000) (short : length md5 < 0x7f00_0000) where
    one_piece :
        (fp : File) (offset : ℕ) (d d' : State api)
        → listed md5 d.files ≡ true
        → download_from api d.session.fp md5 (asked api seq d) ≡ download_piece api md5 fp d'
        → file_process api (download_request seq md5 x y) d
          ≡ counted api (download_piece api md5 fp d')
    one_piece fp offset d d' known e =
        download_asked seq x y d known (omega arith) hx hy short ∙ ap (counted api) e

    pub file_process-last :
        (fp : File) (offset : ℕ) (d : State api)
        → Begins seq fp offset bytes d
        → offset < length bytes
        → length bytes ≤ offset + piece_size
        → (d1 : State api) × (file_process api (download_request seq md5 x y) d ≡ some (true, d1))
          × Downloaded api c cs disk named seq bytes
              (reply_at api c cs disk named seq offset bytes ∷ [])
              d
              d1
    file_process-last fp offset d (d', begins, h, files, sent, numbered, known) more enough =
        let (d1, ran, done) =
          counted-last api c cs disk named seq fp offset bytes d' (download_piece api md5 fp d') h
            numbered hs (omega arith) (omega arith)
            (download_piece-Sent api c cs disk named seq fp offset bytes d' h numbered (omega arith)
              (omega arith) small short) in
        (
          d1,
          one_piece fp offset d d' known begins ∙ ran,
          Downloaded-from seq bytes _ d d' d1 files sent done,
        )

    pub file_process-more :
        (fp : File) (offset : ℕ) (d : State api)
        → Begins seq fp offset bytes d
        → offset + piece_size < length bytes
        → (d1 : State api) × (file_process api (download_request seq md5 x y) d ≡ some (true, d1))
          × (d1.files ≡ d.files)
          × (d1.sent ≡ d.sent ++ reply_at api c cs disk named seq offset bytes ∷ [])
          × Downloading api c cs disk named fp (offset + piece_size) bytes d1
    file_process-more fp offset d (d', begins, h, files, sent, numbered, known) more =
        let (d1, ran, files', sent', h') =
          counted-more api c cs disk named seq fp offset bytes d' (download_piece api md5 fp d') h
            numbered (omega arith)
            (download_piece-Sent api c cs disk named seq fp offset bytes d' h numbered (omega arith)
              (omega arith) small short) in
        (
          d1,
          one_piece fp offset d d' known begins ∙ ran,
          files' ∙ files,
          sent' ∙ ap (λ xs. xs ++ reply_at api c cs disk named seq offset bytes ∷ []) sent,
          h',
        )

  -- On a session that has no file open the first request opens the file.
  pub starts-Begins :
      (seq : ℕ) (bytes : Bytes) (d : State api)
      → listed md5 d.files ≡ true
      → d.session.fp ≡ none
      → d.session.offset ≡ 0
      → content (file_name md5) d.fs ≡ some bytes
      → 1 ≤ length bytes
      → length bytes ≤ 0x7ff8_0000
      → (fp : File) × Begins seq fp 0 bytes d
  starts-Begins seq bytes d known closed at_start stored some_bytes small =
      let (fp, fs, opens, at) =
        download_from-none bytes (asked api seq d) known closed at_start stored some_bytes small in
      (
        fp,
        (
          record (asked api seq d) {
            session = record d.session { seq = seq; fp = some fp; filesize = length bytes };
            fs = fs;
          },
          opens,
          record { open_fp = refl; at_offset = at_start; of_size = refl; at = at; known = known },
          refl,
          refl,
          refl,
          known,
        ),
      )
