-- ===== src/Files/Download.antt =====
-- A whole download through FileSession::OnDownloadFileResponse of
-- EdoyumIMServer/FileServer/FileSession.cpp.
use my_project_imserver.Base.{
  ℕ, zero, suc, ◌+◌, ◌-◌, ◌*◌, ◌/◌, ◌≤◌, ◌<◌, ◌≡◌, subst, ◌∙◌, true, List, [], ◌∷◌, ◌++◌,
  append_assoc, none, some, arith, length, drop, replicate, Bytes, IsWord, c_text,
}
use my_project_imserver.Files.Api.{FileApi}
use my_project_imserver.Files.Manager.{listed}
use my_project_imserver.Files.Transfer.{State, file_name, piece_size}
use my_project_imserver.Files.Storage.{IsStored}
use my_project_imserver.Files.Run.{process_all, process_all-step, process_all-last}
use my_project_imserver.Files.Cut.{
  download_request, cut, rounds, pieces, download_replies, replies_next,
}
use my_project_imserver.Files.Pieces.{Downloaded, reply_at}
use my_project_imserver.Files.Asking.{
  Begins, Downloading-Begins, file_process-last, file_process-more, starts-Begins,
}

module _ (api : FileApi) (c : ℕ) (cs : Bytes) (disk : IsStored api (file_name (c ∷ cs)))
    (named : c_text (c ∷ cs) ≡ c ∷ cs) where
  open api use {Fs, File}
  open disk use {content, stream}

  abbrev md5 : Bytes
  md5 = c ∷ cs

  Downloaded-step :
      (seq : ℕ) (bytes reply : Bytes) (replies : List Bytes) (d d1 d2 : State api)
      → d1.files ≡ d.files
      → d1.sent ≡ d.sent ++ reply ∷ []
      → Downloaded api c cs disk named seq bytes replies d1 d2
      → Downloaded api c cs disk named seq bytes (reply ∷ replies) d d2
  Downloaded-step seq bytes reply replies d d1 d2 files sent (files', sent', session, stored) =
      (files' ∙ files, sent' ∙ rw sent (append_assoc d.sent (reply ∷ []) replies), session, stored)

  module _ (seq x y : ℕ) (bytes : Bytes) (hs : seq < 0xffff_ffff) (hx : IsWord x) (hy : IsWord y)
      (small : length bytes ≤ 0x7ff8_0000) (short : length md5 < 0x7f00_0000) where
    all_pieces :
        (n : ℕ) (fp : File) (offset : ℕ) (d : State api)
        → Begins api c cs disk named seq fp offset bytes d
        → n * piece_size < length bytes - offset
        → length bytes - offset ≤ suc n * piece_size
        → (d1 : State api) × (process_all api (replicate (suc n) (download_request seq md5 x y)) d
            ≡ some d1)
          × Downloaded api c cs disk named seq bytes
              (download_replies seq md5 (length bytes) offset (cut (suc n) (drop offset bytes)))
              d
              d1
    all_pieces zero fp offset d begins more enough =
        let (d1, ran, done) =
          file_process-last api c cs disk named seq x y bytes hs hx hy small short fp offset d
            begins (omega arith) (omega arith) in
        (d1, process_all-last api (download_request seq md5 x y) d d1 ran, done)
    all_pieces (suc n) fp offset d begins more enough =
        let (d1, ran, files, sent, h) =
          file_process-more api c cs disk named seq x y bytes hs hx hy small short fp offset d
            begins (omega arith) in
        let (d2, ran', done) =
          all_pieces n fp (offset + piece_size) d1
            (Downloading-Begins api c cs disk named seq fp (offset + piece_size) bytes d1 h)
            (omega arith) (omega arith) in
        (
          d2,
          process_all-step api (download_request seq md5 x y) _ d d1 ran ∙ ran',
          Downloaded-step seq bytes (reply_at api c cs disk named seq offset bytes) _ d d1 d2 files
              sent
              (subst (λ replies. Downloaded api c cs disk named seq bytes replies d1 d2)
                (replies_next seq md5 (length bytes) offset (suc n) bytes (omega arith)) done),
        )

  -- A client that asks for a registered file of 1 to 2^31 - 2^19 bytes, on a session that has no
  -- file open, as often as there are pieces of 512 KiB in it, whatever offset and size it sends,
  -- gets a response to each request: the pieces of the file in order, each with its offset and
  -- the size of the file. Then the file is as it was and the session has no file open, and no
  -- name has been added. The disk takes the file, whose name has no NUL and is below 2^31 - 2^24
  -- bytes.
  pub process_all-download_request :
      (seq x y : ℕ) (bytes : Bytes) (d : State api)
      → listed md5 d.files ≡ true
      → d.session.fp ≡ none
      → d.session.offset ≡ 0
      → content (file_name md5) d.fs ≡ some bytes
      → 1 ≤ length bytes
      → length bytes ≤ 0x7ff8_0000
      → length md5 < 0x7f00_0000
      → seq < 0xffff_ffff
      → IsWord x
      → IsWord y
      → (d1 : State api) × (process_all api
            (replicate (rounds bytes) (download_request seq md5 x y))
            d
          ≡ some d1)
        × Downloaded api c cs disk named seq bytes
            (download_replies seq md5 (length bytes) 0 (pieces bytes))
            d
            d1
  process_all-download_request seq x y bytes d known closed at_start stored some_bytes small short
        hs hx hy =
      let (fp, begins) =
        starts-Begins api c cs disk named seq bytes d known closed at_start stored some_bytes
          small in
      let n : ℕ = (length bytes - 1) / piece_size in
      let count : rounds bytes ≡ suc n = omega arith in
      rw count
        (all_pieces seq x y bytes hs hx hy small short n fp 0 d begins (omega arith) (omega arith))
