-- ===== src/Files/Parts.antt =====
-- What FileSession::OnUploadFileResponse of EdoyumIMServer/FileServer/FileSession.cpp does with one
-- part of a file.
use my_project_imserver.Base.{
  ◌==◌, ℕ, suc, ◌+◌, ◌%◌, ◌≤◌, ◌<◌, ◌≡◌, refl, inr, Bool, true, [], ◌∷◌, ◌++◌, Option, none, some,
  arith, length, Bytes, IsWord, minus_one, c_text,
}
use my_project_imserver.Frame.Send.{package_of}
use my_project_imserver.Files.Api.{FileApi}
use my_project_imserver.Files.Manager.{add_file}
use my_project_imserver.Files.Transfer.{
  State, file_name, msg_type_upload_req, msg_type_upload_resp, reset_file, upload_stored,
  upload_new, on_upload_file_response,
}
use my_project_imserver.Files.Process.{counted, file_dispatch, file_process}
use my_project_imserver.Files.Storage.{IsStored}
use my_project_imserver.Files.Replies.{
  Fits, file_body, send_file_lem, asked, file_process-file_body,
}
use my_project_imserver.Files.Writing.{Awaits, Written, unknown, upload_new-Written}

module _ (api : FileApi) (c : ℕ) (cs : Bytes) (disk : IsStored api (file_name (c ∷ cs)))
    (named : c_text (c ∷ cs) ≡ c ∷ cs) where
  open api use {Fs, File}
  open disk use {content, stream}

  abbrev md5 : Bytes
  md5 = c ∷ cs

  upload_request :
      (seq total : ℕ) (bytes part : Bytes) (d : State api)
      → Awaits api c cs disk named d bytes
      → IsWord seq
      → length bytes + length part ≤ total
      → total < 0x8000_0000
      → Fits md5 part
      → file_process api (file_body msg_type_upload_req seq md5 (length bytes) total part) d
        ≡ counted api (upload_new api md5 (length bytes) total part (asked api seq d))
  unfolding file_dispatch on_upload_file_response
  upload_request seq total bytes part d h hs inside small fits =
      rw
        (
          file_process-file_body api msg_type_upload_req seq c cs (length bytes) total part d
              (omega arith) hs (omega arith) (omega arith) fits,
          unknown api c cs disk named d bytes h,
        )
        refl

  -- What a part leaves behind: its answer, the state as it was but for the open stream and the
  -- number, and the next part awaited.
  abbrev pub Continued : ℕ → ℕ → Bytes → Bytes → State api → Option (Bool × State api) → Type 0
  Continued seq total bytes part d result =
      (d1 : State api) × (result ≡ some (true, d1))
      × (d1.files ≡ d.files)
      × (d1.sent
          ≡ d.sent
            ++ package_of 8 (file_body msg_type_upload_resp seq md5 (length bytes) total []) ∷ [])
      × Awaits api c cs disk named d1 (bytes ++ part)

  stored_part :
      (total offset : ℕ) (part : Bytes) (d : State api)
      → IsWord d.session.seq
      → offset + length part < total
      → total < 0x8000_0000
      → Fits md5 part
      → upload_stored api md5 offset total part d ≡ record d {
        sent =
            d.sent
            ++ package_of 8 (file_body msg_type_upload_resp d.session.seq md5 offset total []) ∷ [];
      }
  unfolding upload_stored
  stored_part total offset part d hs inside small fits = ground (
    arith,
    send_file_lem api msg_type_upload_resp d.session.seq md5 offset total [] d (omega arith) hs
        (omega arith) (omega arith) (omega arith),
  )

  reset_file-some :
      (fp : File) (d : State api)
      → d.session.fp ≡ some fp
      → reset_file api d ≡ record d {
        session = record d.session { fp = none; offset = 0; filesize = 0 };
        fs = api.fclose fp d.fs;
      }
  unfolding reset_file
  reset_file-some fp d open_fp = rw open_fp refl

  stored_last :
      (total offset : ℕ) (part : Bytes) (fp : File) (d : State api)
      → IsWord d.session.seq
      → d.session.fp ≡ some fp
      → offset + length part ≡ total
      → total < 0x8000_0000
      → Fits md5 part
      → upload_stored api md5 offset total part d ≡ record d {
        session = record d.session { fp = none; offset = 0; filesize = 0 };
        files = d.files ++ md5 ∷ [];
        fs = api.fclose fp d.fs;
        sent =
            d.sent
            ++ package_of 8
                (file_body msg_type_upload_resp d.session.seq md5 minus_one minus_one [])
              ∷ [];
      }
  unfolding upload_stored reset_file add_file
  stored_last total offset part fp d hs open_fp inside small fits =
      let d1 : State api = record d {
        session = record d.session { fp = none; offset = 0; filesize = 0 };
        files = d.files ++ md5 ∷ [];
        fs = api.fclose fp d.fs;
      } in
      let last : ((offset + length part) % 0x1_0000_0000 == total) ≡ true = ground arith in
      rw
        (
          last,
          named,
          reset_file-some fp (record d { files = d.files ++ md5 ∷ [] }) open_fp,
          send_file_lem api msg_type_upload_resp d.session.seq md5 minus_one minus_one [] d1
              (omega arith) hs (omega arith) (omega arith) (omega arith),
        )
        refl

  Continued-counted :
      (seq total : ℕ) (bytes part : Bytes) (d : State api) (result : Option (State api))
      → Awaits api c cs disk named d bytes
      → IsWord seq
      → length bytes + length part < total
      → total < 0x8000_0000
      → Fits md5 part
      → Written api c cs disk named (asked api seq d) bytes part total result
      → Continued seq total bytes part d (counted api result)
  unfolding counted
  Continued-counted seq total bytes part d result h hs inside small fits
        (fp, fs, k, wrote, at, absent) =
      let d1 : State api = record (asked api seq d) {
        session = record d.session { seq = seq; fp = some fp };
        fs = fs;
      } in
      rw (wrote, stored_part total (length bytes) part d1 hs inside small fits)
        (
          _,
          refl,
          refl,
          refl,
          record { unlisted = h.unlisted; absent = absent; opened = inr (fp, k, refl, at) },
        )

  pub upload_more :
      (seq total : ℕ) (bytes part : Bytes) (d : State api)
      → Awaits api c cs disk named d bytes
      → IsWord seq
      → length bytes + length part < total
      → total < 0x8000_0000
      → 1 ≤ length part
      → Fits md5 part
      → Continued seq total bytes part d
          (file_process api (file_body msg_type_upload_req seq md5 (length bytes) total part) d)
  upload_more seq total bytes part d h hs inside small some_bytes fits =
      rw (upload_request seq total bytes part d h hs (omega arith) small fits) (
        Continued-counted seq total bytes part d _ h hs inside small fits (
          upload_new-Written api c cs disk named (asked api seq d) bytes part total
            (record { unlisted = h.unlisted; absent = h.absent; opened = h.opened }) (omega arith)
            some_bytes))

  -- What the last part leaves behind: its answer, the file on the disk and its name in the list, and
  -- a session with no file open.
  abbrev pub Finished : ℕ → Bytes → State api → Option (Bool × State api) → Type 0
  Finished seq bytes d result =
      (d1 : State api) × (result ≡ some (true, d1))
      × (content (file_name md5) d1.fs ≡ some bytes)
      × (d1.files ≡ d.files ++ md5 ∷ [])
      × (d1.sent
          ≡ d.sent
            ++ package_of 8 (file_body msg_type_upload_resp seq md5 minus_one minus_one []) ∷ [])
      × (d1.session ≡ record { seq = suc seq; fp = none; offset = 0; filesize = 0 })

  Finished-counted :
      (seq total : ℕ) (bytes part : Bytes) (d : State api) (result : Option (State api))
      → seq < 0xffff_ffff
      → length bytes + length part ≡ total
      → total < 0x8000_0000
      → Fits md5 part
      → Written api c cs disk named (asked api seq d) bytes part total result
      → Finished seq (bytes ++ part) d (counted api result)
  unfolding counted
  Finished-counted seq total bytes part d result hs inside small fits
        (fp, fs, k, wrote, at, absent) =
      let d1 : State api = record (asked api seq d) {
        session = record d.session { seq = seq; fp = some fp };
        fs = fs;
      } in
      let next : (seq + 1) % 0x1_0000_0000 ≡ suc seq = omega arith in
      rw
        (
          wrote,
          stored_last total (length bytes) part fp d1 (omega arith) refl inside small fits,
          next,
        )
        (_, refl, (disk.content-fclose fp k (bytes ++ part) fs at).0, refl, refl, refl)

  pub upload_last :
      (seq total : ℕ) (bytes part : Bytes) (d : State api)
      → Awaits api c cs disk named d bytes
      → seq < 0xffff_ffff
      → length bytes + length part ≡ total
      → total < 0x8000_0000
      → 1 ≤ length part
      → Fits md5 part
      → Finished seq
          (bytes ++ part)
          d
          (file_process api (file_body msg_type_upload_req seq md5 (length bytes) total part) d)
  upload_last seq total bytes part d h hs inside small some_bytes fits =
      rw (upload_request seq total bytes part d h (omega arith) (omega arith) small fits) (
        Finished-counted seq total bytes part d _ hs inside small fits (
          upload_new-Written api c cs disk named (asked api seq d) bytes part total
            (record { unlisted = h.unlisted; absent = h.absent; opened = h.opened }) (omega arith)
            some_bytes))
