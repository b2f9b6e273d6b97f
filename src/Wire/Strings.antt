-- ===== src/Wire/Strings.antt =====
-- A string behind its compressed length, as WriteData<string> and ReadData<string> of
-- EdoyumIMServer/BinaryReader.cpp treat it inside a message.
use my_project_imserver.Base.{
  ℕ, ◌+◌, ◌≤◌, ◌<◌, ◌≡◌, [], ◌++◌, arith, append_assoc, length, length-append, Bytes,
}
use my_project_imserver.Wire.Compress.{compress, compress-Reads}
use my_project_imserver.Wire.Reader.{got, read_string, read_string-compress}
use my_project_imserver.Wire.Writer.{
  Holds, new_writer, new_writer-Holds, write_string, write_string-Holds,
}

-- A text that the servers handle: far below the 2 ^ 31 bytes at which lengths wrap.
abbrev pub IsText : Bytes → Type 0
IsText s = length s < 0x7fff_0000

-- A string behind its length.
abbrev pub string_body : Bytes → Bytes
string_body text = compress (length text) ++ text

pub length-compress : (text : Bytes) → IsText text → length (compress (length text)) ≤ 5
length-compress text h = (compress-Reads (length text) [] (omega arith)).2

pub length-string_body : (text : Bytes) → IsText text → length (string_body text) ≤ length text + 5
length-string_body text h =
    omega (arith, length-append (compress (length text)) text, length-compress text h)

pub string-Holds :
    (text : Bytes) → IsText text → Holds (write_string text new_writer) (string_body text)
string-Holds text h =
    write_string-Holds text new_writer-Holds (omega (arith, length-compress text h))

-- A string is read back anywhere in a message.
pub read_body :
    (text front rest : Bytes) (k : ℕ)
    → k ≡ length front
    → IsText text
    → length front + length (string_body text) < 0x1_0000_0000
    → read_string (record { buffer = front ++ (string_body text ++ rest); index = k })
      ≡ got text (record {
        buffer = front ++ (string_body text ++ rest);
        index = k + length (string_body text);
      })
read_body text front rest k hk ht fits =
    rw (hk, append_assoc (compress (length text)) text rest)
      (ground
        (arith, read_string-compress text front rest, length-append (compress (length text)) text))
