-- ===== src/Files/Cut.antt =====
-- A file in pieces, and what a client asks and gets of EdoyumIMServer/FileServer/FileSession.cpp.
use my_project_imserver.Base.{
  ℕ, zero, suc, ◌+◌, ◌*◌, ◌/◌, ◌≤◌, ◌≡◌, refl, ap, List, [], ◌∷◌, ◌++◌, arith, length, min,
  length-take, length-drop, take, drop, take-eq_of_le, drop-eq_of_le, Bytes,
}
use my_project_imserver.Frame.Send.{package_of}
use my_project_imserver.Frame.Segments.{joined}
use my_project_imserver.Files.Transfer.{msg_type_download_req, msg_type_download_resp, piece_size}
use my_project_imserver.Files.Replies.{file_body}

-- The request, whose offset and size the server does not look at.
abbrev pub download_request : ℕ → Bytes → ℕ → ℕ → Bytes
download_request seq md5 x y = file_body msg_type_download_req seq md5 x y []

-- A file in pieces of 512 KiB, the last one shorter; how many there are; and their packages.
abbrev pub cut : ℕ → Bytes → List Bytes
cut zero bytes = []
cut (suc n) bytes = take piece_size bytes ∷ cut n (drop piece_size bytes)

abbrev pub rounds : Bytes → ℕ
rounds bytes = (length bytes + 0x7_ffff) / piece_size

abbrev pub pieces : Bytes → List Bytes
pieces bytes = cut (rounds bytes) bytes

abbrev pub download_replies : ℕ → Bytes → ℕ → ℕ → List Bytes → List Bytes
download_replies seq md5 total offset [] = []
download_replies seq md5 total offset (p ∷ ps) =
    package_of 8 (file_body msg_type_download_resp seq md5 offset total p)
    ∷ download_replies seq md5 total (offset + length p) ps

pub drop-drop : (m n k : ℕ) (xs : Bytes) → k ≡ n + m → drop m (drop n xs) ≡ drop k xs
drop-drop m zero k xs h = ap (λ (i : ℕ). drop i xs) {y = k} (omega arith)
drop-drop m (suc n) zero xs h = absurd (omega arith)
drop-drop m (suc n) (suc k) [] h = drop-eq_of_le m [] (omega arith)
drop-drop m (suc n) (suc k) (x ∷ xs) h = drop-drop m n k xs (omega arith)

take-drop : (n : ℕ) (xs : Bytes) → take n xs ++ drop n xs ≡ xs
take-drop zero xs = refl
take-drop (suc n) [] = refl
take-drop (suc n) (x ∷ xs) = ap (λ t. x ∷ t) (take-drop n xs)

joined-cut : (n : ℕ) (bytes : Bytes) → length bytes ≤ n * piece_size → joined (cut n bytes) ≡ bytes
joined-cut zero [] h = refl
joined-cut zero (b ∷ bs) h = absurd (omega arith)
joined-cut (suc n) bytes h =
    rw (joined-cut n (drop piece_size bytes) (omega (arith, length-drop piece_size bytes)))
      (take-drop piece_size bytes)

-- The pieces make up the file.
pub joined-pieces : (bytes : Bytes) → joined (pieces bytes) ≡ bytes
joined-pieces bytes = joined-cut (rounds bytes) bytes (omega arith)

-- A piece that is cut at the end of the file.
pub take-min : (n k : ℕ) (xs : Bytes) → k ≡ min n (length xs) → take k xs ≡ take n xs
take-min zero zero xs h = refl
take-min zero (suc k) xs h = absurd (omega arith)
take-min (suc n) k [] h = take-eq_of_le k [] (omega arith)
take-min (suc n) zero (x ∷ xs) h = absurd (omega arith)
take-min (suc n) (suc k) (x ∷ xs) h = ap (λ t. x ∷ t) (take-min n k xs (omega arith))

-- The replies behind a whole piece.
pub replies_next :
    (seq : ℕ) (md5 : Bytes) (total offset n : ℕ) (bytes : Bytes)
    → offset + piece_size ≤ length bytes
    → download_replies seq md5 total
        (offset + piece_size)
        (cut n (drop (offset + piece_size) bytes))
      ≡ download_replies seq md5 total
          (offset + length (take piece_size (drop offset bytes)))
          (cut n (drop piece_size (drop offset bytes)))
replies_next seq md5 total offset n bytes inside =
    let whole : length (take piece_size (drop offset bytes)) ≡ piece_size =
      omega (arith, length-take piece_size (drop offset bytes), length-drop offset bytes) in
    rw (whole, drop-drop piece_size offset (offset + piece_size) bytes refl) refl
