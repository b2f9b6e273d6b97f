-- ===== src/Frame/Send.antt =====
-- TcpSession::Send of EdoyumIMServer/ClientSession.h and of FileServer/TcpSession.cpp: the bytes
-- that go to the connection for a written body, and the writer that is left.
use my_project_imserver.Base.{
  ℕ, zero, suc, IsWord, length-append, ap, ◌∙◌, ◌/◌, ◌≤◌, ◌+◌, ◌%◌, ◌≡◌, refl, [], ◌∷◌, ◌++◌,
  append_assoc, arith, length, Bytes, le_bytes, be_word, htons,
}
use my_project_imserver.Wire.Writer.{
  Writer, Holds, to_string, clear, clear-Holds, write_data, write_data-Holds, write_net,
  write_net-Holds,
}

-- The header: the package size in host order (an int of 4 bytes, an int64_t of 8), the length in
-- network order, and two zero bytes.
send_header : ℕ → ℕ → ℕ → Writer → Writer
send_header size package_size len w =
    write_data (le_bytes 2 (htons 0)) (write_net len (write_data (le_bytes size package_size) w))

-- `Send(conn, write)` at a 4-byte package size: `int len = (int)out.size()`.
unfoldable pub chat_send : Writer → Bytes × Writer
unfolding send_header
chat_send w =
    let out = to_string w in
    let len = length out % 0x1_0000_0000 in
    let w' = send_header 4 (len + 6) len (clear w) in (to_string w' ++ out, w')

-- `Send(conn, write)` of the file server, at an 8-byte package size; `htonl(len)` keeps 32 bits.
unfoldable pub file_send : Writer → Bytes × Writer
unfolding send_header
file_send w =
    let out = to_string w in
    let w' = send_header 8 (length out + 6) (length out % 0x1_0000_0000) (clear w) in
    (to_string w' ++ out, w')

-- The package of a body, at a package size of `size` bytes.
abbrev pub package_of : ℕ → Bytes → Bytes
package_of size body = le_bytes size (length body + 6) ++ (be_word (length body) ++ (0 ∷ 0 ∷ body))

length-le_bytes : (n w : ℕ) → length (le_bytes n w) ≡ n
length-le_bytes zero w = refl
length-le_bytes (suc n) w = ap suc (length-le_bytes n (w / 256))

htons_zero : le_bytes 2 (htons 0) ≡ 0 ∷ 0 ∷ []
unfolding htons
htons_zero = refl

send_header-Holds :
    (size package_size len : ℕ) (w : Writer)
    → size ≤ 8
    → IsWord len
    → Holds
        (send_header size package_size len (clear w))
        ((le_bytes size package_size ++ be_word len) ++ 0 ∷ 0 ∷ [])
unfolding send_header
send_header-Holds size package_size len w hs hl = rw htons_zero (
    write_data-Holds (0 ∷ 0 ∷ [])
      (write_net-Holds len
        (write_data-Holds (le_bytes size package_size) (clear-Holds w)
          (rw length-le_bytes (omega arith)))
        hl (rw length-le_bytes (omega arith)))
      (rw (length-append, length-le_bytes) (omega arith)))

package_parts :
    (size package_size len : ℕ) (w : Writer) (out body : Bytes)
    → size ≤ 8
    → IsWord len
    → out ≡ body
    → to_string (send_header size package_size len (clear w)) ++ out
      ≡ le_bytes size package_size ++ (be_word len ++ (0 ∷ 0 ∷ body))
unfolding to_string
package_parts size package_size len w out body hs hl e =
    rw ((send_header-Holds size package_size len w hs hl).content, e)
      (append_assoc (le_bytes size package_size ++ be_word len) (0 ∷ 0 ∷ []) body
        ∙ append_assoc (le_bytes size package_size) (be_word len) (0 ∷ 0 ∷ body))

-- What goes out is the package of what was written.
pub chat_send-package :
    (w : Writer) (body : Bytes)
    → Holds w body
    → IsWord (length body)
    → (chat_send w).0 ≡ package_of 4 body
unfolding chat_send to_string
chat_send-package w body h fits =
    let e : length w.buffer % 0x1_0000_0000 ≡ length body = rw h.content (omega arith) in
    rw (
      e,
      package_parts 4 (length body + 6) (length body) w w.buffer body (omega arith) fits h.content,
    )

pub file_send-package :
    (w : Writer) (body : Bytes)
    → Holds w body
    → IsWord (length body)
    → (file_send w).0 ≡ package_of 8 body
unfolding file_send to_string
file_send-package w body h fits =
    let e : length w.buffer % 0x1_0000_0000 ≡ length body = rw h.content (omega arith) in
    rw (
      e,
      ap length h.content,
      package_parts 8 (length body + 6) (length body) w w.buffer body (omega arith) fits h.content,
    )

-- The header of the package of a body, which the sending leaves in the writer in place of the body.
abbrev pub header_of : Bytes → Bytes
header_of body = (le_bytes 4 (length body + 6) ++ be_word (length body)) ++ 0 ∷ 0 ∷ []

pub length-header_of : (body : Bytes) → length (header_of body) ≡ 10
length-header_of body = refl

pub chat_send-header :
    (w : Writer) (body : Bytes)
    → Holds w body
    → IsWord (length body)
    → Holds (chat_send w).1 (header_of body)
unfolding chat_send to_string
chat_send-header w body h fits =
    let e : length w.buffer % 0x1_0000_0000 ≡ length body = rw h.content (omega arith) in
    rw e (send_header-Holds 4 (length body + 6) (length body) w (omega arith) fits)
