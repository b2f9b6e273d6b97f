-- ===== src/Frame/Receive.antt =====
-- ClientSession::OnRead of EdoyumIMServer/ClientSession.cpp and FileSession::OnRead of
-- FileServer/FileSession.cpp: the loop that cuts the readable bytes into packages. Only what is done
-- with a message differs, and the size of the package size: an int32_t there, an int64_t here.
use my_project_imserver.Base.{
  ℕ, zero, suc, ◌+◌, ◌-◌, ◌%◌, Bool, Option, none, some, ltb, leb, if◌then◌else◌, length, take,
  drop, Bytes, le_value,
}
use my_project_imserver.Frame.Buffer.{BufferApi}

abbrev pub size_mod : ℕ
size_mod = 0x1_0000_0000_0000_0000

-- The package size as a size_t: the int32_t is sign-extended, the int64_t is kept.
unfoldable pub chat_size : ℕ → ℕ
chat_size w = if ltb w 0x8000_0000 then w else w + 0xffff_ffff_0000_0000

unfoldable pub file_size : ℕ → ℕ
file_size w = w

-- What one round finds: too few bytes, a length that std::string::assign refuses by an exception,
-- or a message (behind the six bytes of length and checksum) and the buffer behind its package.
pub data Round (B : Type 0) : Type 0 where
  wait crash : Round B
  message : Bytes → B → Round B

-- The whole loop: its end, an exception that nothing catches, or fuel that was too short.
pub data Outcome (B S : Type 0) : Type 0 where
  done : B → S → Outcome B S
  crashed out_of_fuel : Outcome B S

-- A handler answers `none` for an exception, and otherwise the result of Process; on false the
-- connection is closed by force, and the loop goes on.
unfoldable pub handle :
    {S : Type 0} → (Bytes → S → Option (Bool × S)) → (S → S) → Bytes → S → Option S
handle process force_close m s = elim (process m s) [
  | none ↦ none
  | some (ok, s') ↦ some (if ok then s' else force_close s')
]

module _ (api : BufferApi) (size : ℕ) (extend : ℕ → ℕ) where
  open api use {Buf, readable, retrieve}

  unfoldable pub next_package : Buf → Round Buf
  next_package b =
      let packagesize = extend (le_value (take size (readable b))) % size_mod in
      let body = retrieve size b in
      let n = (packagesize + size_mod - 6) % size_mod in
      if ltb (length (readable b)) size
      then wait
      else if ltb (length (readable b)) ((size + packagesize) % size_mod)
      then wait
      else if leb 0x8000_0000_0000_0000 n
      then crash
      else message (take n (drop 6 (readable body))) (retrieve packagesize body)

  module _ {S : Type 0} (process : Bytes → S → Option (Bool × S)) (force_close : S → S) where
    -- What is done with a round and with a handled message; `loop` is the rest of the loop.
    abbrev pub after_handled : (Buf → S → Outcome Buf S) → Buf → Option S → Outcome Buf S
    after_handled loop rest none = crashed
    after_handled loop rest (some s') = loop rest s'

    abbrev pub after_round : (Buf → S → Outcome Buf S) → Buf → S → Round Buf → Outcome Buf S
    after_round loop b s wait = done b s
    after_round loop b s crash = crashed
    after_round loop b s (message m rest) = after_handled loop rest (handle process force_close m s)

    unfoldable pub on_read : ℕ → Buf → S → Outcome Buf S
    on_read zero b s = out_of_fuel
    on_read (suc fuel) b s = after_round (on_read fuel) b s (next_package b)

    -- One call of OnRead: each round takes six bytes at least, so this fuel is enough.
    unfoldable pub receive : Buf → S → Outcome Buf S
    receive b s = on_read (suc (length (readable b))) b s
