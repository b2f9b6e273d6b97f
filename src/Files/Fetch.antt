-- ===== src/Files/Fetch.antt =====
-- A whole download from the bytes on a connection: FileSession::OnRead of
-- EdoyumIMServer/FileServer/FileSession.cpp.
use my_project_imserver.Base.{
  ℕ, zero, suc, ◌+◌, ◌-◌, ◌*◌, ◌/◌, ◌≤◌, ◌<◌, ◌≡◌, refl, subst, ap, ◌∙◌, true, List, [], ◌∷◌, ◌++◌,
  map, append_assoc, none, some, arith, length, take, drop, replicate, All, Bytes, IsWord, c_text,
}
use my_project_imserver.Frame.Buffer.{byte_buffer}
use my_project_imserver.Frame.Receive.{Outcome, done}
use my_project_imserver.Frame.RoundTrip.{IsFileBody, stream, deliver, file_receive-stream}
use my_project_imserver.Server.{map_find}
use my_project_imserver.Server.Update.{map_find-set}
use my_project_imserver.Files.Api.{FileApi}
use my_project_imserver.Files.Manager.{listed}
use my_project_imserver.Files.Transfer.{
  FileSession, State, file_name, msg_type_download_req, piece_size,
}
use my_project_imserver.Files.Process.{file_process}
use my_project_imserver.Files.Service.{
  Service, desk_of, put_desk, serve, close_connection, file_on_read,
}
use my_project_imserver.Files.Storage.{IsStored}
use my_project_imserver.Files.Replies.{length-file_body}
use my_project_imserver.Files.Cut.{
  download_request, cut, rounds, pieces, download_replies, replies_next,
}
use my_project_imserver.Files.Pieces.{reply_at}
use my_project_imserver.Files.Asking.{
  Begins, Downloading-Begins, file_process-last, file_process-more, starts-Begins,
}
use my_project_imserver.Files.Wire.{no_bytes, deliver-step, deliver-[]}

download_requests-IsFileBody :
    (n seq x y : ℕ) (md5 : Bytes)
    → length md5 < 0x7f00_0000
    → All IsFileBody (replicate n (download_request seq md5 x y))
download_requests-IsFileBody zero seq x y md5 h = tt
download_requests-IsFileBody (suc n) seq x y md5 h = (
  omega (arith, length-file_body msg_type_download_req seq md5 x y [] (omega arith)),
  download_requests-IsFileBody n seq x y md5 h,
)

module _ (api : FileApi) (conn : Bytes) (c : ℕ) (cs : Bytes)
    (disk : IsStored api (file_name (c ∷ cs))) (named : c_text (c ∷ cs) ≡ c ∷ cs) where
  open api use {Fs, File}
  open disk use {content}

  abbrev md5 : Bytes
  md5 = c ∷ cs

  -- What the whole download leaves behind.
  abbrev pub Fetched :
      ℕ → Bytes → List Bytes → Service Fs File → Outcome Bytes (Service Fs File) → Type 0
  Fetched seq bytes replies v result =
      (v' : Service Fs File) × (result ≡ done [] v')
      × (content (file_name md5) v'.fs ≡ some bytes)
      × (v'.files ≡ v.files)
      × (v'.sent ≡ v.sent ++ map (λ (b : Bytes). (conn, b)) replies)
      × (v'.closed ≡ v.closed)
      × (map_find conn v'.sessions
          ≡ some (record { seq = suc seq; fp = none; offset = 0; filesize = 0 }))

  Fetched-step :
      (seq : ℕ) (bytes msg reply : Bytes) (msgs replies : List Bytes) (s : FileSession File)
      (d1 : State api) (v : Service Fs File)
      → map_find conn v.sessions ≡ some s
      → file_process api msg (desk_of api s v) ≡ some (true, d1)
      → d1.files ≡ v.files
      → d1.sent ≡ reply ∷ []
      → Fetched seq bytes replies
          (put_desk api conn d1 v)
          (deliver (serve api conn) (close_connection api conn) msgs [] (put_desk api conn d1 v))
      → Fetched seq bytes
          (reply ∷ replies)
          v
          (deliver (serve api conn) (close_connection api conn) (msg ∷ msgs) [] v)
  unfolding put_desk
  Fetched-step seq bytes msg reply msgs replies s d1 v found ran files sent
        (v', ran', stored, files', sent', closed, session) =
      (
        v',
        deliver-step api conn msg msgs s d1 v found ran ∙ ran',
        stored,
        files' ∙ files,
        sent'
            ∙ rw sent
                (append_assoc v.sent ((conn, reply) ∷ []) (map (λ (b : Bytes). (conn, b)) replies)),
        closed,
        session,
      )

  module _ (seq x y : ℕ) (bytes : Bytes) (hs : seq < 0xffff_ffff) (hx : IsWord x) (hy : IsWord y)
      (small : length bytes ≤ 0x7ff8_0000) (short : length md5 < 0x7f00_0000) where
    fetched :
        (n : ℕ) (fp : File) (offset : ℕ) (s : FileSession File) (v : Service Fs File)
        → map_find conn v.sessions ≡ some s
        → Begins api c cs disk named seq fp offset bytes (desk_of api s v)
        → n * piece_size < length bytes - offset
        → length bytes - offset ≤ suc n * piece_size
        → Fetched seq bytes
            (download_replies seq md5 (length bytes) offset (cut (suc n) (drop offset bytes)))
            v
            (deliver
              (serve api conn)
              (close_connection api conn)
              (replicate (suc n) (download_request seq md5 x y))
              []
              v)
    unfolding desk_of put_desk
    fetched zero fp offset s v found begins more enough =
        let (d1, ran, (files, sent, session, stored)) =
          file_process-last api c cs disk named seq x y bytes hs hx hy small short fp offset
            (desk_of api s v) begins (omega arith) (omega arith) in
        (
          put_desk api conn d1 v,
          deliver-step api conn _ [] s d1 v found ran
              ∙ deliver-[] api conn (put_desk api conn d1 v),
          stored,
          files,
          ap (λ (bs : List Bytes). v.sent ++ map (λ (b : Bytes). (conn, b)) bs) sent,
          refl,
          map_find-set conn d1.session s v.sessions found ∙ ap some session,
        )
    fetched (suc n) fp offset s v found begins more enough =
        let (d1, ran, files, sent, h) =
          file_process-more api c cs disk named seq x y bytes hs hx hy small short fp offset
            (desk_of api s v) begins (omega arith) in
        Fetched-step seq bytes _ (reply_at api c cs disk named seq offset bytes) _
          (download_replies seq md5 (length bytes)
            (offset + length (take piece_size (drop offset bytes)))
            (cut (suc n) (drop piece_size (drop offset bytes))))
          s d1 v found ran files sent
          (subst
            (λ replies. Fetched seq bytes replies (put_desk api conn d1 v) (
              deliver (serve api conn) (close_connection api conn)
                (replicate (suc n) (download_request seq md5 x y)) [] (put_desk api conn d1 v)))
            (replies_next seq md5 (length bytes) offset (suc n) bytes (omega arith))
            (fetched n fp (offset + piece_size) d1.session (put_desk api conn d1 v)
              (map_find-set conn d1.session s v.sessions found)
              (Downloading-Begins api c cs disk named seq fp (offset + piece_size) bytes
                (desk_of api d1.session (put_desk api conn d1 v))
                (record {
                  open_fp = h.open_fp;
                  at_offset = h.at_offset;
                  of_size = h.of_size;
                  at = h.at;
                  known = h.known;
                }))
              (omega arith) (omega arith)))

  -- The bytes of as many download requests for a registered file of 1 to 2^31 - 2^19 bytes as
  -- there are pieces of 512 KiB in it, whatever 32-bit offset and size they carry, numbered below
  -- 2^32 - 1, on a connection whose session has no file open and has the offset 0, as a new
  -- session and one behind a whole transfer do. OnRead takes all bytes and does not fail; each
  -- request is answered on the connection with a piece of the file, in order, with first its
  -- offset and then the size of the file in front of it; then the file is as it was, no name has
  -- been added, nothing is closed, and the session has no file open, the offset 0, and counts on
  -- from the number of the requests. The disk takes the file, whose name is not empty, has no NUL
  -- and is below 2^31 - 2^24 bytes.
  pub file_on_read-download_requests :
      (seq x y : ℕ) (bytes : Bytes) (s : FileSession File) (v : Service Fs File)
      → map_find conn v.sessions ≡ some s
      → listed md5 v.files ≡ true
      → s.fp ≡ none
      → s.offset ≡ 0
      → content (file_name md5) v.fs ≡ some bytes
      → 1 ≤ length bytes
      → length bytes ≤ 0x7ff8_0000
      → length md5 < 0x7f00_0000
      → seq < 0xffff_ffff
      → IsWord x
      → IsWord y
      → Fetched seq bytes (download_replies seq md5 (length bytes) 0 (pieces bytes)) v (
          file_on_read api byte_buffer conn
            (stream 8 (replicate (rounds bytes) (download_request seq md5 x y)) [])
            v)
  unfolding file_on_read desk_of
  file_on_read-download_requests seq x y bytes s v found known closed at_start stored some_bytes
        small short hs hx hy =
      let (fp, begins) =
        starts-Begins api c cs disk named seq bytes (desk_of api s v) known closed at_start stored
          some_bytes small in
      let n : ℕ = (length bytes - 1) / piece_size in
      let count : rounds bytes ≡ suc n = omega arith in
      rw
        (
          count,
          file_receive-stream (serve api conn) (close_connection api conn)
              (replicate (suc n) (download_request seq md5 x y)) [] v
              (download_requests-IsFileBody (suc n) seq x y md5 short) no_bytes,
        )
        (fetched seq x y bytes hs hx hy small short n fp 0 s v found begins (omega arith)
          (omega arith))
