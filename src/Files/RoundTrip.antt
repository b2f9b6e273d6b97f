-- ===== src/Files/RoundTrip.antt =====
-- A file that is uploaded to the server of EdoyumIMServer/FileServer/FileSession.cpp can be downloaded.
use my_project_imserver.Base.{
  ℕ, ◌+◌, ◌≤◌, ◌<◌, ◌≡◌, refl, true, false, List, [], ◌∷◌, ◌++◌, none, some, arith, length,
  length-append, replicate, All, Bytes, bytes_eq_refl, IsWord, c_text, subst, sym,
}
use my_project_imserver.Frame.Segments.{joined}
use my_project_imserver.Files.Api.{FileApi}
use my_project_imserver.Files.Manager.{listed}
use my_project_imserver.Files.Transfer.{FileSession, State, file_name}
use my_project_imserver.Files.Storage.{IsStored}
use my_project_imserver.Files.Run.{process_all}
use my_project_imserver.Files.Upload.{upload_requests, process_all-upload_requests}
use my_project_imserver.Files.Cut.{
  rounds, pieces, joined-pieces, download_replies, download_request,
}
use my_project_imserver.Files.Download.{process_all-download_request}

pub listed-last : (name : Bytes) (files : List Bytes) → listed name (files ++ name ∷ []) ≡ true
unfolding listed
listed-last name [] = rw (bytes_eq_refl name) refl
listed-last name (file ∷ files) = ground (arith, listed-last name files)

module _ (api : FileApi) (c : ℕ) (cs : Bytes) (disk : IsStored api (file_name (c ∷ cs)))
    (named : c_text (c ∷ cs) ≡ c ∷ cs) where
  open api use {Fs, File}
  open disk use {content}

  abbrev md5 : Bytes
  md5 = c ∷ cs

  -- What a client uploads in parts that are not empty, under a name that is new, to a disk that
  -- takes it, another session that has no file open can download at once, name and file together
  -- below 2^31 - 2^24 bytes: the pieces that it is sent make up the parts one behind the other.
  pub download-upload :
      (seq seq' x y : ℕ) (p : Bytes) (ps : List Bytes) (d : State api) (s : FileSession File)
      → listed md5 d.files ≡ false
      → content md5 d.fs ≡ none
      → seq < 0xffff_ffff
      → seq' < 0xffff_ffff
      → IsWord x
      → IsWord y
      → All (λ q. 1 ≤ length q) (p ∷ ps)
      → length md5 + length (joined (p ∷ ps)) < 0x7f00_0000
      → s.fp ≡ none
      → s.offset ≡ 0
      → (d1 : State api) × (d2 : State api) × (process_all api
            (upload_requests seq md5 (length (joined (p ∷ ps))) 0 (p ∷ ps))
            d
          ≡ some d1)
        × (process_all api
              (replicate (rounds (joined (p ∷ ps))) (download_request seq' md5 x y))
              (record d1 { session = s })
            ≡ some d2)
        × (d2.sent
            ≡ d1.sent
              ++ download_replies seq' md5 (length (joined (p ∷ ps))) 0 (pieces (joined (p ∷ ps))))
        × (joined (pieces (joined (p ∷ ps))) ≡ joined (p ∷ ps))
  download-upload seq seq' x y p ps d s new absent hs hs' hx hy parts fits closed at_start =
      let (d1, ran, stored, files, sent, session) =
        process_all-upload_requests api c cs disk named seq p ps d new absent hs parts
          (omega arith) in
      let (d2, ran', (_, sent', _, _)) =
        process_all-download_request api c cs disk named seq' x y (joined (p ∷ ps))
          (record d1 { session = s })
          (subst (λ fs. listed md5 fs ≡ true) (sym files) (listed-last md5 d.files)) closed at_start
          stored (omega (arith, parts.0, length-append p (joined ps))) (omega arith) (omega arith)
          hs' hx hy in
      (d1, d2, ran, ran', sent', joined-pieces (joined (p ∷ ps)))
