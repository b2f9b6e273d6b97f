-- ===== src/Files/Wire.antt =====
-- A whole upload from the bytes on a connection: FileSession::OnRead of
-- EdoyumIMServer/FileServer/FileSession.cpp.
use my_project_imserver.Base.{
  ℕ, suc, ◌+◌, ◌≤◌, ◌<◌, ◌≡◌, refl, sym, ap, ◌∙◌, true, false, List, [], ◌∷◌, ◌++◌, map,
  append_assoc, append-nil, inl, none, some, arith, length, length-append, All, Bytes, c_text,
}
use my_project_imserver.Frame.Buffer.{byte_buffer}
use my_project_imserver.Frame.Receive.{Outcome, done, handle, next_package, wait, file_size}
use my_project_imserver.Frame.RoundTrip.{IsFileBody, stream, deliver, file_receive-stream}
use my_project_imserver.Frame.Segments.{joined}
use my_project_imserver.Server.{map_find}
use my_project_imserver.Server.Update.{map_find-set}
use my_project_imserver.Files.Api.{FileApi}
use my_project_imserver.Files.Manager.{listed}
use my_project_imserver.Files.Transfer.{FileSession, State, file_name, msg_type_upload_req}
use my_project_imserver.Files.Process.{file_process}
use my_project_imserver.Files.Service.{
  Service, desk_of, put_desk, put_result, serve_session, serve, close_connection, file_on_read,
}
use my_project_imserver.Files.Storage.{IsStored}
use my_project_imserver.Files.Replies.{length-file_body}
use my_project_imserver.Files.Writing.{Awaits}
use my_project_imserver.Files.Parts.{upload_more, upload_last}
use my_project_imserver.Files.Upload.{upload_requests, upload_replies}

upload_requests-IsFileBody :
    (seq total offset : ℕ) (md5 : Bytes) (ps : List Bytes)
    → length md5 + length (joined ps) < 0x7fff_0000
    → All IsFileBody (upload_requests seq md5 total offset ps)
upload_requests-IsFileBody seq total offset md5 [] h = tt
upload_requests-IsFileBody seq total offset md5 (p ∷ ps) h = (
  omega (
    arith,
    length-file_body msg_type_upload_req seq md5 offset total p
        (omega (arith, length-append p (joined ps))),
  ),
  upload_requests-IsFileBody seq total (offset + length p) md5 ps
      (omega (arith, length-append p (joined ps))),
)

pub no_bytes : next_package byte_buffer 8 file_size [] ≡ wait
unfolding next_package
no_bytes = refl

module _ (api : FileApi) (conn : Bytes) where
  open api use {Fs, File}

  serve-true :
      (msg : Bytes) (s : FileSession File) (d : State api) (v : Service Fs File)
      → map_find conn v.sessions ≡ some s
      → file_process api msg (desk_of api s v) ≡ some (true, d)
      → serve api conn msg v ≡ some (true, put_desk api conn d v)
  unfolding serve serve_session put_result
  serve-true msg s d v found ran =
      ap (λ o. serve_session api conn o msg v) found ∙ ap (λ o. put_result api conn o v) ran

  -- A request that its session takes.
  pub deliver-step :
      (msg : Bytes) (msgs : List Bytes) (s : FileSession File) (d : State api) (v : Service Fs File)
      → map_find conn v.sessions ≡ some s
      → file_process api msg (desk_of api s v) ≡ some (true, d)
      → deliver (serve api conn) (close_connection api conn) (msg ∷ msgs) [] v
        ≡ deliver (serve api conn) (close_connection api conn) msgs [] (put_desk api conn d v)
  unfolding deliver handle
  deliver-step msg msgs s d v found ran = rw (serve-true msg s d v found ran, handle, deliver) refl

  pub deliver-[] :
      (v : Service Fs File)
      → deliver (serve api conn) (close_connection api conn) [] [] v ≡ done [] v
  unfolding deliver
  deliver-[] v = refl

  module _ (c : ℕ) (cs : Bytes) (disk : IsStored api (file_name (c ∷ cs)))
      (named : c_text (c ∷ cs) ≡ c ∷ cs) where
    open disk use {content}

    abbrev md5 : Bytes
    md5 = c ∷ cs

    -- What the whole upload leaves behind.
    abbrev pub Received :
        ℕ → Bytes → List Bytes → Service Fs File → Outcome Bytes (Service Fs File) → Type 0
    Received seq bytes replies v result =
        (v' : Service Fs File) × (result ≡ done [] v')
        × (content (file_name md5) v'.fs ≡ some bytes)
        × (v'.files ≡ v.files ++ md5 ∷ [])
        × (v'.sent ≡ v.sent ++ map (λ (b : Bytes). (conn, b)) replies)
        × (v'.closed ≡ v.closed)
        × (map_find conn v'.sessions
            ≡ some (record { seq = suc seq; fp = none; offset = 0; filesize = 0 }))

    Received-step :
        (seq : ℕ) (bytes msg reply : Bytes) (msgs replies : List Bytes) (s : FileSession File)
        (d1 : State api) (v : Service Fs File)
        → map_find conn v.sessions ≡ some s
        → file_process api msg (desk_of api s v) ≡ some (true, d1)
        → d1.files ≡ v.files
        → d1.sent ≡ reply ∷ []
        → Received seq bytes replies
            (put_desk api conn d1 v)
            (deliver (serve api conn) (close_connection api conn) msgs [] (put_desk api conn d1 v))
        → Received seq bytes
            (reply ∷ replies)
            v
            (deliver (serve api conn) (close_connection api conn) (msg ∷ msgs) [] v)
    unfolding put_desk
    Received-step seq bytes msg reply msgs replies s d1 v found ran files sent
          (v', ran', stored, files', sent', closed, session) =
        (
          v',
          deliver-step msg msgs s d1 v found ran ∙ ran',
          stored,
          files' ∙ ap (λ (xs : List Bytes). xs ++ md5 ∷ []) files,
          sent'
              ∙ rw sent (
                  append_assoc v.sent ((conn, reply) ∷ [])
                    (map (λ (b : Bytes). (conn, b)) replies)),
          closed,
          session,
        )

    received :
        (seq total : ℕ) (bytes p : Bytes) (ps : List Bytes) (s : FileSession File)
        (v : Service Fs File)
        → map_find conn v.sessions ≡ some s
        → Awaits api c cs disk named (desk_of api s v) bytes
        → seq < 0xffff_ffff
        → All (λ q. 1 ≤ length q) (p ∷ ps)
        → length bytes + length (joined (p ∷ ps)) ≡ total
        → length md5 + total < 0x7fff_0000
        → Received seq
            (bytes ++ joined (p ∷ ps))
            (upload_replies seq md5 total (length bytes) (p ∷ ps))
            v
            (deliver
              (serve api conn)
              (close_connection api conn)
              (upload_requests seq md5 total (length bytes) (p ∷ ps))
              []
              v)
    unfolding desk_of put_desk
    received seq total bytes p [] s v found h hs (part, _) whole fits =
        let only : length bytes + length p ≡ total = omega (arith, whole, length-append p []) in
        let (d1, ran, stored, files, sent, session) =
          upload_last api c cs disk named seq total bytes p (desk_of api s v) h hs only
            (omega arith) part (omega (arith, only)) in
        (
          put_desk api conn d1 v,
          deliver-step _ [] s d1 v found ran ∙ deliver-[] (put_desk api conn d1 v),
          stored ∙ ap (λ (b : Bytes). some (bytes ++ b)) (sym (append-nil p)),
          files,
          ap (λ (bs : List Bytes). v.sent ++ map (λ (b : Bytes). (conn, b)) bs) sent,
          refl,
          map_find-set conn d1.session s v.sessions found ∙ ap some session,
        )
    received seq total bytes p (q ∷ qs) s v found h hs (part, parts) whole fits =
        let more : length p + length (joined (q ∷ qs)) ≡ length (joined (p ∷ q ∷ qs)) =
          omega (arith, length-append p (joined (q ∷ qs))) in
        let longer : 1 ≤ length (joined (q ∷ qs)) =
          omega (arith, parts.0, length-append q (joined qs)) in
        let (d1, ran, files, sent, awaits) =
          upload_more api c cs disk named seq total bytes p (desk_of api s v) h (omega arith)
            (omega (arith, whole, more, longer)) (omega arith) part
            (omega (arith, whole, more, longer)) in
        rw (sym (length-append bytes p), sym (append_assoc bytes p (joined (q ∷ qs))))
          (Received-step seq _ _ _ _ _ s d1 v found ran files sent (
            received seq total (bytes ++ p) q qs d1.session (put_desk api conn d1 v)
              (map_find-set conn d1.session s v.sessions found)
              (record {
                unlisted = awaits.unlisted;
                absent = awaits.absent;
                opened = awaits.opened;
              })
              hs parts (omega (arith, whole, more, length-append bytes p)) fits))

    -- The bytes of a whole upload on a connection that has a session: packages that each carry a
    -- part that is not empty, at the offset behind the parts before and with the size of the
    -- whole and a number below 2^32 - 1, name and file together below 2^31 - 65536 bytes, the
    -- name new, no file of the working directory, without NUL, and on a disk that takes it.
    -- OnRead takes all bytes and does not fail; the file on the disk has the parts one behind the
    -- other and its name is registered; each part but the last is answered on the connection with
    -- its offset and the size, the last one with -1 in place of both; nothing is closed; and the
    -- session has no file open and counts on from the number of the requests.
    pub file_on_read-upload_requests :
        (seq : ℕ) (p : Bytes) (ps : List Bytes) (s : FileSession File) (v : Service Fs File)
        → map_find conn v.sessions ≡ some s
        → listed md5 v.files ≡ false
        → content md5 v.fs ≡ none
        → seq < 0xffff_ffff
        → All (λ q. 1 ≤ length q) (p ∷ ps)
        → length md5 + length (joined (p ∷ ps)) < 0x7fff_0000
        → Received seq
            (joined (p ∷ ps))
            (upload_replies seq md5 (length (joined (p ∷ ps))) 0 (p ∷ ps))
            v
            (file_on_read api byte_buffer conn
              (stream 8 (upload_requests seq md5 (length (joined (p ∷ ps))) 0 (p ∷ ps)) [])
              v)
    unfolding file_on_read
    file_on_read-upload_requests seq p ps s v found new absent hs parts fits =
        rw
          (file_receive-stream (serve api conn) (close_connection api conn)
            (upload_requests seq md5 (length (joined (p ∷ ps))) 0 (p ∷ ps)) [] v
            (upload_requests-IsFileBody seq (length (joined (p ∷ ps))) 0 md5 (p ∷ ps) fits)
            no_bytes)
          (received seq (length (joined (p ∷ ps))) [] p ps s v found
            (record { unlisted = new; absent = absent; opened = inl refl }) hs parts (omega arith)
            fits)
