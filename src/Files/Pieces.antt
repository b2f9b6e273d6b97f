-- ===== src/Files/Pieces.antt =====
-- What FileSession::OnDownloadFileResponse of EdoyumIMServer/FileServer/FileSession.cpp does with one
-- request.
use my_project_imserver.Base.{
  ◌==◌, ℕ, suc, ◌+◌, ◌-◌, ◌%◌, ◌≤◌, ◌<◌, ◌≡◌, refl, subst, true, false, List, [], ◌∷◌, ◌++◌, Option,
  none, some, arith, length, min, ltb, length-take, length-drop, take, drop, replicate,
  take-append_left, Bytes, IsWord, c_text,
}
use my_project_imserver.Frame.Send.{package_of}
use my_project_imserver.Files.Api.{FileApi}
use my_project_imserver.Files.Manager.{listed}
use my_project_imserver.Files.Transfer.{
  State, file_name, msg_type_download_resp, piece_size, reset_file, read_piece, finish_download,
  current_send_size, download_piece,
}
use my_project_imserver.Files.Process.{counted}
use my_project_imserver.Files.Storage.{IsStored}
use my_project_imserver.Files.Replies.{file_body, send_file_lem}
use my_project_imserver.Files.Cut.{take-min}

current_send_size_lem :
    (total offset : ℕ)
    → offset < total
    → total ≤ 0x7ff8_0000
    → current_send_size total offset ≡ min piece_size (total - offset)
unfolding current_send_size
current_send_size_lem total offset inside small = ground arith

module _ (api : FileApi) (c : ℕ) (cs : Bytes) (disk : IsStored api (file_name (c ∷ cs)))
    (named : c_text (c ∷ cs) ≡ c ∷ cs) where
  open api use {Fs, File}
  open disk use {content, stream}

  abbrev md5 : Bytes
  md5 = c ∷ cs

  -- A stream that stands somewhere in the file.
  abbrev pub At : File → Fs → ℕ → Bytes → Type 0
  At fp fs k bytes =
      stream fp fs ≡ some (record { name = file_name md5; position = k; bytes = bytes })

  -- The session is in the middle of the file.
  pub record Downloading (fp : File) (offset : ℕ) (bytes : Bytes) (d : State api) : Type 0 where
    pub open_fp : d.session.fp ≡ some fp
    pub at_offset : d.session.offset ≡ offset
    pub of_size : d.session.filesize ≡ length bytes
    pub at : At fp d.fs offset bytes
    pub known : listed md5 d.files ≡ true

  read_piece_lem :
      (fp : File) (fs : Fs) (offset n : ℕ) (bytes : Bytes)
      → At fp fs offset bytes
      → 1 ≤ n
      → offset + n ≤ length bytes
      → (fs' : Fs) × (read_piece api n fp fs ≡ (take n (drop offset bytes), fs'))
        × At fp fs' (offset + n) bytes
  unfolding read_piece
  read_piece_lem fp fs offset n bytes at some_bytes inside =
      let (fs', reads, at') = disk.fread-true n fp offset bytes fs at some_bytes inside in
      let exact : n ≡ length (take n (drop offset bytes)) =
        omega (arith, length-take n (drop offset bytes), length-drop offset bytes) in
      let positive : (n == 0) ≡ false = ground arith in
      (
        fs',
        rw (reads, positive, take-append_left n (take n (drop offset bytes)) (replicate n 0) exact)
            refl,
        at',
      )

  -- What a piece leaves in the file system.
  abbrev pub Sent : ℕ → File → ℕ → Bytes → State api → Option (State api) → Type 0
  Sent seq fp offset bytes d result =
      (fs : Fs) × (result
        ≡ some (
            finish_download api (record d {
              session = record d.session {
                offset = offset + min piece_size (length bytes - offset);
              };
              fs = fs;
              sent =
                  d.sent
                  ++ package_of 8 (
                      file_body msg_type_download_resp seq md5 offset (length bytes)
                        (take piece_size (drop offset bytes)))
                    ∷ [];
            })))
      × At fp fs (offset + min piece_size (length bytes - offset)) bytes

  pub download_piece-Sent :
      (seq : ℕ) (fp : File) (offset : ℕ) (bytes : Bytes) (d : State api)
      → Downloading fp offset bytes d
      → d.session.seq ≡ seq
      → IsWord seq
      → offset < length bytes
      → length bytes ≤ 0x7ff8_0000
      → length md5 < 0x7f00_0000
      → Sent seq fp offset bytes d (download_piece api md5 fp d)
  unfolding download_piece
  download_piece-Sent seq fp offset bytes d h numbered hs inside small short =
      let n : ℕ = min piece_size (length bytes - offset) in
      let (fs, reads, at') =
        read_piece_lem fp d.fs offset n bytes h.at (omega arith) (omega arith) in
      let piece : take n (drop offset bytes) ≡ take piece_size (drop offset bytes) =
        take-min piece_size n (drop offset bytes) (omega (arith, length-drop offset bytes)) in
      let fits : (ltb piece_size n) ≡ false = ground arith in
      let next : (offset + n) % 0x1_0000_0000 ≡ offset + n = omega arith in
      (
        fs,
        rw
            (
              h.at_offset,
              h.of_size,
              numbered,
              current_send_size_lem (length bytes) offset inside small,
              fits,
              reads,
              piece,
              next,
              send_file_lem api msg_type_download_resp seq md5 offset (length bytes)
                  (take piece_size (drop offset bytes))
                  (record d {
                    session = record d.session {
                      seq = seq;
                      offset = offset + n;
                      filesize = length bytes;
                    };
                    fs = fs;
                  })
                  (omega arith) hs (omega arith) (omega arith)
                  (omega (arith, length-take piece_size (drop offset bytes))),
            )
            refl,
        at',
      )

  -- What the last piece, or the whole download, leaves behind.
  abbrev pub Downloaded : ℕ → Bytes → List Bytes → State api → State api → Type 0
  Downloaded seq bytes replies d d1 =
      (d1.files ≡ d.files)
      × (d1.sent ≡ d.sent ++ replies)
      × (d1.session ≡ record { seq = suc seq; fp = none; offset = 0; filesize = 0 })
      × (content (file_name md5) d1.fs ≡ some bytes)

  abbrev pub reply_at : ℕ → ℕ → Bytes → Bytes
  reply_at seq offset bytes = package_of 8 (
      file_body msg_type_download_resp seq md5 offset (length bytes)
        (take piece_size (drop offset bytes)))

  pub counted-last :
      (seq : ℕ) (fp : File) (offset : ℕ) (bytes : Bytes) (d : State api)
      (result : Option (State api))
      → Downloading fp offset bytes d
      → d.session.seq ≡ seq
      → seq < 0xffff_ffff
      → offset < length bytes
      → length bytes - offset ≤ piece_size
      → Sent seq fp offset bytes d result
      → (d1 : State api) × (counted api result ≡ some (true, d1))
        × Downloaded seq bytes (reply_at seq offset bytes ∷ []) d d1
  unfolding counted finish_download reset_file
  counted-last seq fp offset bytes d result h numbered hs inside rest (fs, sent, at) =
      let n : ℕ = min piece_size (length bytes - offset) in
      let ended : (offset + n == length bytes) ≡ true = ground arith in
      let next : (seq + 1) % 0x1_0000_0000 ≡ suc seq = omega arith in
      rw (sent, h.of_size, ended, h.open_fp, numbered, next)
        (_, refl, (refl, refl, refl, (disk.content-fclose fp (offset + n) bytes fs at).0))

  pub counted-more :
      (seq : ℕ) (fp : File) (offset : ℕ) (bytes : Bytes) (d : State api)
      (result : Option (State api))
      → Downloading fp offset bytes d
      → d.session.seq ≡ seq
      → offset + piece_size < length bytes
      → Sent seq fp offset bytes d result
      → (d1 : State api) × (counted api result ≡ some (true, d1))
        × (d1.files ≡ d.files)
        × (d1.sent ≡ d.sent ++ reply_at seq offset bytes ∷ [])
        × Downloading fp (offset + piece_size) bytes d1
  unfolding counted finish_download
  counted-more seq fp offset bytes d result h numbered inside (fs, sent, at) =
      let whole : min piece_size (length bytes - offset) ≡ piece_size = omega arith in
      let goes_on : (offset + piece_size == length bytes) ≡ false = ground arith in
      rw (sent, whole, h.of_size, goes_on, numbered)
        (
          _,
          refl,
          refl,
          refl,
          record {
            open_fp = h.open_fp;
            at_offset = refl;
            of_size = refl;
            at = subst (λ k. At fp fs (offset + k) bytes) whole at;
            known = h.known;
          },
        )
