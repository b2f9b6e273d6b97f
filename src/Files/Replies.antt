-- ===== src/Files/Replies.antt =====
-- The bytes of the requests and the responses of the file server, and what FileSession::Process of
-- EdoyumIMServer/FileServer/FileSession.cpp makes of a request.
use my_project_imserver.Base.{
  ℕ, ◌+◌, ◌≤◌, ◌<◌, ◌≡◌, refl, subst, sym, ◌∙◌, [], ◌∷◌, ◌++◌, arith, append_assoc, append-nil,
  length, length-append, Bytes, IsWord, be_word,
}
use my_project_imserver.Wire.Reader.{got, new_reader, read_data, read_data-be_word, read_string}
use my_project_imserver.Wire.Strings.{
  IsText, string_body, length-compress, length-string_body, read_body,
}
use my_project_imserver.Wire.Writer.{Holds, write_net-Holds, write_string-Holds}
use my_project_imserver.Frame.Send.{package_of, file_send-package}
use my_project_imserver.Session.Sending.{reply_body, reply-Holds}
use my_project_imserver.Files.Api.{FileApi}
use my_project_imserver.Files.Transfer.{State, file_answer, send_file}
use my_project_imserver.Files.Process.{file_dispatch, file_process_rest, file_process}

-- A request or a response: the command, the session's number, the name, offset, size and data.
abbrev pub file_body : ℕ → ℕ → Bytes → ℕ → ℕ → Bytes → Bytes
file_body cmd seq filemd5 offset filesize filedata =
    reply_body cmd seq filemd5 ++ (be_word offset ++ (be_word filesize ++ string_body filedata))

-- A name and data that leave room for each other in a message.
abbrev pub Fits : Bytes → Bytes → Type 0
Fits filemd5 filedata = length filemd5 + length filedata < 0x7fff_0000

length-reply_body :
    (cmd seq : ℕ) (filemd5 : Bytes)
    → length filemd5 < 0x7fff_0000
    → length (reply_body cmd seq filemd5) ≤ length filemd5 + 13
length-reply_body cmd seq filemd5 h = omega (arith, length-string_body filemd5 h)

file_answer-Holds :
    (cmd seq : ℕ) (filemd5 : Bytes) (offset filesize : ℕ) (filedata : Bytes)
    → IsWord cmd
    → IsWord seq
    → IsWord offset
    → IsWord filesize
    → Fits filemd5 filedata
    → Holds
        (file_answer cmd seq filemd5 offset filesize filedata)
        (file_body cmd seq filemd5 offset filesize filedata)
unfolding file_answer
file_answer-Holds cmd seq filemd5 offset filesize filedata hc hs ho hf fits =
    let size = length-reply_body cmd seq filemd5 (omega arith) in
    let front = reply_body cmd seq filemd5 in
    let size1 = length-append front (be_word offset) in
    let size2 = length-append (front ++ be_word offset) (be_word filesize) in
    subst (λ b. Holds (file_answer cmd seq filemd5 offset filesize filedata) b)
      (append_assoc (front ++ be_word offset) (be_word filesize) (string_body filedata)
        ∙ append_assoc front (be_word offset) (be_word filesize ++ string_body filedata))
      (write_string-Holds filedata
        (write_net-Holds filesize
          (write_net-Holds offset (reply-Holds cmd seq filemd5 hc hs (omega arith)) ho
            (omega (arith, size)))
          hf (omega (arith, size, size1)))
        (omega (arith, size, size1, size2, length-compress filedata (omega arith))))

pub length-file_body :
    (cmd seq : ℕ) (filemd5 : Bytes) (offset filesize : ℕ) (filedata : Bytes)
    → Fits filemd5 filedata
    → IsWord (length (file_body cmd seq filemd5 offset filesize filedata))
length-file_body cmd seq filemd5 offset filesize filedata fits = omega (
  arith,
  length-reply_body cmd seq filemd5 (omega arith),
  length-append (reply_body cmd seq filemd5)
      (be_word offset ++ (be_word filesize ++ string_body filedata)),
  length-string_body filedata (omega arith),
)

-- A response goes out as one package.
pub send_file_lem :
    (api : FileApi) (cmd seq : ℕ) (filemd5 : Bytes) (offset filesize : ℕ) (filedata : Bytes)
    (d : State api)
    → IsWord cmd
    → IsWord seq
    → IsWord offset
    → IsWord filesize
    → Fits filemd5 filedata
    → send_file api (file_answer cmd seq filemd5 offset filesize filedata) d ≡ record d {
      sent = d.sent ++ package_of 8 (file_body cmd seq filemd5 offset filesize filedata) ∷ [];
    }
unfolding send_file
send_file_lem api cmd seq filemd5 offset filesize filedata d hc hs ho hf fits = rw (
    file_send-package (file_answer cmd seq filemd5 offset filesize filedata)
      (file_body cmd seq filemd5 offset filesize filedata)
      (file_answer-Holds cmd seq filemd5 offset filesize filedata hc hs ho hf fits)
      (length-file_body cmd seq filemd5 offset filesize filedata fits))

-- The two reads, in a buffer that is given by an equation.
read_net :
    (x k : ℕ) (buffer front rest : Bytes)
    → buffer ≡ front ++ (be_word x ++ rest)
    → k ≡ length front
    → IsWord x
    → length front + 4 < 0x1_0000_0000
    → read_data 4 (record { buffer = buffer; index = k })
      ≡ got x (record { buffer = buffer; index = k + 4 })
read_net x k buffer front rest e h hx fits = rw (e, h) (read_data-be_word x front rest hx fits)

read_text :
    (text : Bytes) (k : ℕ) (buffer front rest : Bytes)
    → buffer ≡ front ++ (string_body text ++ rest)
    → k ≡ length front
    → IsText text
    → length front + length (string_body text) < 0x1_0000_0000
    → read_string (record { buffer = buffer; index = k })
      ≡ got text (record { buffer = buffer; index = k + length (string_body text) })
read_text text k buffer front rest e h ht fits = rw e (read_body text front rest k h ht fits)

-- The desk whose session has the number of a request.
abbrev pub asked : (api : FileApi) → ℕ → State api → State api
asked api seq d = record d { session = record d.session { seq = seq } }

-- Process takes apart what a client packs: the session gets the number, and the handler of the
-- command runs on the name, the offset, the size and the data.
pub file_process-file_body :
    (api : FileApi) (cmd seq : ℕ) (c : ℕ) (cs : Bytes) (offset filesize : ℕ) (filedata : Bytes)
    (d : State api)
    → IsWord cmd
    → IsWord seq
    → IsWord offset
    → IsWord filesize
    → Fits (c ∷ cs) filedata
    → file_process api (file_body cmd seq (c ∷ cs) offset filesize filedata) d
      ≡ file_dispatch api cmd (c ∷ cs) offset filesize filedata (asked api seq d)
unfolding file_process file_process_rest new_reader
file_process-file_body api cmd seq c cs offset filesize filedata d hc hs ho hf fits =
    let md5 = c ∷ cs in
    let buffer = file_body cmd seq md5 offset filesize filedata in
    let front = reply_body cmd seq md5 in
    let tail = be_word offset ++ (be_word filesize ++ string_body filedata) in
    let size = length-reply_body cmd seq md5 (omega arith) in
    let size1 = length-append front (be_word offset) in
    let size2 = length-append front (be_word offset ++ be_word filesize) in
    rw
      (
        read_net cmd 0 buffer [] (be_word seq ++ (string_body md5 ++ tail)) refl refl hc
            (omega arith),
        read_net seq 4 buffer (be_word cmd) (string_body md5 ++ tail) refl refl hs (omega arith),
        read_text md5 8 buffer (be_word cmd ++ be_word seq) tail refl refl (omega arith)
            (omega (arith, size)),
        read_net offset (8 + length (string_body md5)) buffer front
            (be_word filesize ++ string_body filedata) refl (omega arith) ho (omega (arith, size)),
        read_net filesize (8 + length (string_body md5) + 4) buffer (front ++ be_word offset)
            (string_body filedata) (sym (append_assoc front (be_word offset) _))
            (omega (arith, size1)) hf (omega (arith, size, size1)),
        read_text filedata (8 + length (string_body md5) + 4 + 4) buffer
            (front ++ (be_word offset ++ be_word filesize)) []
            (rw append-nil (
              sym (append_assoc front (be_word offset ++ be_word filesize) (string_body filedata))))
            (omega (arith, size2)) (omega arith)
            (omega (arith, size, size2, length-string_body filedata (omega arith))),
      )
      refl
