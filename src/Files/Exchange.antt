-- ===== src/Files/Exchange.antt =====
-- A file that one client uploads and another one downloads, from the bytes on their connections:
-- FileSession::OnRead of EdoyumIMServer/FileServer/FileSession.cpp.
use my_project_imserver.Base.{
  ℕ, ◌+◌, ◌≤◌, ◌<◌, ◌≡◌, ap, sym, subst, ◌∙◌, true, false, List, [], ◌∷◌, ◌++◌, map, append_assoc,
  none, some, arith, length, length-append, replicate, All, Bytes, bytes_eq, IsWord, c_text,
}
use my_project_imserver.Frame.Buffer.{byte_buffer}
use my_project_imserver.Frame.Receive.{done}
use my_project_imserver.Frame.RoundTrip.{stream}
use my_project_imserver.Frame.Segments.{joined}
use my_project_imserver.Server.{map_find}
use my_project_imserver.Files.Api.{FileApi}
use my_project_imserver.Files.Manager.{listed}
use my_project_imserver.Files.Transfer.{FileSession, file_name}
use my_project_imserver.Files.Service.{Service, file_on_read}
use my_project_imserver.Files.Storage.{IsStored}
use my_project_imserver.Files.Upload.{upload_requests, upload_replies}
use my_project_imserver.Files.Cut.{
  download_request, rounds, pieces, joined-pieces, download_replies,
}
use my_project_imserver.Files.Wire.{file_on_read-upload_requests}
use my_project_imserver.Files.Fetch.{file_on_read-download_requests}
use my_project_imserver.Files.RoundTrip.{listed-last}
use my_project_imserver.Files.Runs.{file_on_read-Progress}

-- What is sent on a connection.
abbrev pub sent_on : Bytes → List Bytes → List (Bytes × Bytes)
sent_on conn = map (λ (b : Bytes). (conn, b))

module _ (api : FileApi) (c : ℕ) (cs : Bytes) (disk : IsStored api (file_name (c ∷ cs)))
    (named : c_text (c ∷ cs) ≡ c ∷ cs) where
  open api use {Fs, File}
  open disk use {content}

  abbrev md5 : Bytes
  md5 = c ∷ cs

  -- What a client uploads in parts that are not empty, under a name that is new, no file of the
  -- working directory, not empty and without NUL, to a disk that takes it, another client can
  -- download at once on a connection of its own whose session has no file open and has the offset
  -- 0, name and file together below 2^31 - 2^24 bytes and the requests of each numbered below
  -- 2^32 - 1: OnRead takes the bytes of all requests of both and does not fail, nothing is sent
  -- but the replies to the first on its connection and the pieces to the second on its own, each
  -- with first its offset and then the size of the file in front of it, nothing is closed, and
  -- the pieces that the second is sent make up the parts one behind the other.
  pub file_on_read-pieces :
      (from to : Bytes) (seq seq' x y : ℕ) (p : Bytes) (ps : List Bytes) (s s' : FileSession File)
      (v : Service Fs File)
      → bytes_eq from to ≡ false
      → map_find from v.sessions ≡ some s
      → map_find to v.sessions ≡ some s'
      → s'.fp ≡ none
      → s'.offset ≡ 0
      → listed md5 v.files ≡ false
      → content md5 v.fs ≡ none
      → seq < 0xffff_ffff
      → seq' < 0xffff_ffff
      → IsWord x
      → IsWord y
      → All (λ q. 1 ≤ length q) (p ∷ ps)
      → length md5 + length (joined (p ∷ ps)) < 0x7f00_0000
      → (v1 : Service Fs File) × (v2 : Service Fs File) × (file_on_read api byte_buffer from
            (stream 8 (upload_requests seq md5 (length (joined (p ∷ ps))) 0 (p ∷ ps)) [])
            v
          ≡ done [] v1)
        × (file_on_read api byte_buffer to
              (stream 8 (replicate (rounds (joined (p ∷ ps))) (download_request seq' md5 x y)) [])
              v1
            ≡ done [] v2)
        × (v2.sent
            ≡ v.sent
              ++ (sent_on from (upload_replies seq md5 (length (joined (p ∷ ps))) 0 (p ∷ ps))
                  ++ sent_on to (
                      download_replies seq' md5
                        (length (joined (p ∷ ps)))
                        0
                        (pieces (joined (p ∷ ps))))))
        × (joined (pieces (joined (p ∷ ps))) ≡ joined (p ∷ ps))
        × (v2.closed ≡ v.closed)
  file_on_read-pieces from to seq seq' x y p ps s s' v apart found found' closed at_start new absent
        hs hs' hx hy parts fits =
      let (v1, ran, stored, files, sent, still, session) =
        file_on_read-upload_requests api from c cs disk named seq p ps s v found new absent hs parts
          (omega arith) in
      let progress =
        file_on_read-Progress api byte_buffer from
          (stream 8 (upload_requests seq md5 (length (joined (p ∷ ps))) 0 (p ∷ ps)) []) [] v v1
          ran in
      let (v2, ran', stored', files', sent', still', session') =
        file_on_read-download_requests api to c cs disk named seq' x y (joined (p ∷ ps)) s' v1
          (progress.others to apart ∙ found')
          (subst (λ fs. listed md5 fs ≡ true) (sym files) (listed-last md5 v.files)) closed at_start
          stored (omega (arith, parts.0, length-append p (joined ps))) (omega arith) (omega arith)
          hs' hx hy in
      (
        v1,
        v2,
        ran,
        ran',
        sent'
            ∙ ap
                (λ xs.
                  xs
                  ++ sent_on to (
                      download_replies seq' md5 (length (joined (p ∷ ps))) 0
                        (pieces (joined (p ∷ ps)))))
                sent
            ∙ append_assoc v.sent _ _,
        joined-pieces (joined (p ∷ ps)),
        still' ∙ still,
      )
