-- ===== src/Files/Upload.antt =====
-- A whole upload through FileSession::OnUploadFileResponse of
-- EdoyumIMServer/FileServer/FileSession.cpp.
use my_project_imserver.Base.{
  ℕ, suc, ◌+◌, ◌≤◌, ◌<◌, ◌≡◌, refl, sym, ap, ◌∙◌, inl, true, false, List, [], ◌∷◌, ◌++◌,
  append_assoc, append-nil, Option, none, some, arith, length, length-append, All, Bytes, minus_one,
  c_text,
}
use my_project_imserver.Frame.Send.{package_of}
use my_project_imserver.Frame.Segments.{joined}
use my_project_imserver.Files.Api.{FileApi}
use my_project_imserver.Files.Manager.{listed}
use my_project_imserver.Files.Transfer.{State, file_name, msg_type_upload_req, msg_type_upload_resp}
use my_project_imserver.Files.Process.{file_process}
use my_project_imserver.Files.Storage.{IsStored}
use my_project_imserver.Files.Replies.{file_body}
use my_project_imserver.Files.Run.{process_all, process_all-step, process_all-last}
use my_project_imserver.Files.Writing.{Awaits}
use my_project_imserver.Files.Parts.{upload_more, upload_last}

-- What a client sends, at an offset, for the parts of a file of `total` bytes that are left, and the
-- packages that answer it: the last one has -1 in place of the offset and the size.
abbrev pub upload_requests : ℕ → Bytes → ℕ → ℕ → List Bytes → List Bytes
upload_requests seq md5 total offset [] = []
upload_requests seq md5 total offset (p ∷ ps) =
    file_body msg_type_upload_req seq md5 offset total p
    ∷ upload_requests seq md5 total (offset + length p) ps

abbrev pub upload_replies : ℕ → Bytes → ℕ → ℕ → List Bytes → List Bytes
upload_replies seq md5 total offset [] = []
upload_replies seq md5 total offset (p ∷ []) =
    package_of 8 (file_body msg_type_upload_resp seq md5 minus_one minus_one []) ∷ []
upload_replies seq md5 total offset (p ∷ q ∷ ps) =
    package_of 8 (file_body msg_type_upload_resp seq md5 offset total [])
    ∷ upload_replies seq md5 total (offset + length p) (q ∷ ps)

module _ (api : FileApi) (c : ℕ) (cs : Bytes) (disk : IsStored api (file_name (c ∷ cs)))
    (named : c_text (c ∷ cs) ≡ c ∷ cs) where
  open api use {Fs, File}
  open disk use {content, stream}

  abbrev md5 : Bytes
  md5 = c ∷ cs

  -- What the whole upload leaves behind.
  abbrev pub Uploaded : ℕ → Bytes → List Bytes → State api → Option (State api) → Type 0
  Uploaded seq bytes replies d result =
      (d1 : State api) × (result ≡ some d1)
      × (content (file_name md5) d1.fs ≡ some bytes)
      × (d1.files ≡ d.files ++ md5 ∷ [])
      × (d1.sent ≡ d.sent ++ replies)
      × (d1.session ≡ record { seq = suc seq; fp = none; offset = 0; filesize = 0 })

  Uploaded-step :
      (seq : ℕ) (bytes msg reply : Bytes) (msgs replies : List Bytes) (d d1 : State api)
      → file_process api msg d ≡ some (true, d1)
      → d1.files ≡ d.files
      → d1.sent ≡ d.sent ++ reply ∷ []
      → Uploaded seq bytes replies d1 (process_all api msgs d1)
      → Uploaded seq bytes (reply ∷ replies) d (process_all api (msg ∷ msgs) d)
  Uploaded-step seq bytes msg reply msgs replies d d1 ran files sent
        (d2, ran', stored, files', sent', session) =
      (
        d2,
        process_all-step api msg msgs d d1 ran ∙ ran',
        stored,
        files' ∙ ap (λ xs. xs ++ md5 ∷ []) files,
        sent' ∙ rw sent (append_assoc d.sent (reply ∷ []) replies),
        session,
      )

  upload_parts :
      (seq total : ℕ) (bytes p : Bytes) (ps : List Bytes) (d : State api)
      → Awaits api c cs disk named d bytes
      → seq < 0xffff_ffff
      → All (λ q. 1 ≤ length q) (p ∷ ps)
      → length bytes + length (joined (p ∷ ps)) ≡ total
      → length md5 + total < 0x7fff_0000
      → Uploaded seq
          (bytes ++ joined (p ∷ ps))
          (upload_replies seq md5 total (length bytes) (p ∷ ps))
          d
          (process_all api (upload_requests seq md5 total (length bytes) (p ∷ ps)) d)
  upload_parts seq total bytes p [] d h hs (part, _) whole fits =
      let only : length bytes + length p ≡ total = omega (arith, whole, length-append p []) in
      let (d1, ran, stored, files, sent, session) =
        upload_last api c cs disk named seq total bytes p d h hs only (omega arith) part
          (omega (arith, only)) in
      (
        d1,
        process_all-last api _ d d1 ran,
        stored ∙ ap (λ (b : Bytes). some (bytes ++ b)) (sym (append-nil p)),
        files,
        sent,
        session,
      )
  upload_parts seq total bytes p (q ∷ qs) d h hs (part, parts) whole fits =
      let more : length p + length (joined (q ∷ qs)) ≡ length (joined (p ∷ q ∷ qs)) =
        omega (arith, length-append p (joined (q ∷ qs))) in
      let longer : 1 ≤ length (joined (q ∷ qs)) =
        omega (arith, parts.0, length-append q (joined qs)) in
      let (d1, ran, files, sent, awaits) =
        upload_more api c cs disk named seq total bytes p d h (omega arith)
          (omega (arith, whole, more, longer)) (omega arith) part
          (omega (arith, whole, more, longer)) in
      rw (sym (length-append bytes p), sym (append_assoc bytes p (joined (q ∷ qs))))
        (Uploaded-step seq _ _ _ _ _ d d1 ran files sent (
          upload_parts seq total (bytes ++ p) q qs d1 awaits hs parts
            (omega (arith, whole, more, length-append bytes p)) fits))

  -- A file whose name is new, is no file in the working directory, has no NUL, and which the disk
  -- takes, sent in parts that are not empty, each at the offset behind the ones before and with
  -- the size of the whole, name and file together below 2^31 - 65536 bytes: every request is
  -- processed, the file on the disk has the parts one behind the other, its name is registered,
  -- each part but the last is answered with its offset and the size, the last one with -1 in
  -- place of both, and the session has no file open and counts on from the number of the
  -- requests.
  pub process_all-upload_requests :
      (seq : ℕ) (p : Bytes) (ps : List Bytes) (d : State api)
      → listed md5 d.files ≡ false
      → content md5 d.fs ≡ none
      → seq < 0xffff_ffff
      → All (λ q. 1 ≤ length q) (p ∷ ps)
      → length md5 + length (joined (p ∷ ps)) < 0x7fff_0000
      → Uploaded seq
          (joined (p ∷ ps))
          (upload_replies seq md5 (length (joined (p ∷ ps))) 0 (p ∷ ps))
          d
          (process_all api (upload_requests seq md5 (length (joined (p ∷ ps))) 0 (p ∷ ps)) d)
  process_all-upload_requests seq p ps d new absent hs parts fits =
      upload_parts seq (length (joined (p ∷ ps))) [] p ps d
        (record { unlisted = new; absent = absent; opened = inl refl }) hs parts (omega arith) fits
