-- ===== src/Frame/RoundTrip.antt =====
-- What TcpSession::Send writes, OnRead takes apart again.
use my_project_imserver.Base.{
  ℕ, zero, suc, ◌+◌, ◌%◌, ◌≤◌, ◌<◌, ◌≡◌, refl, sym, ◌∙◌, Bool, List, [], ◌∷◌, ◌++◌, Option, none,
  some, append_assoc, arith, length, length-append, take-append_left, drop-append_left, Bytes, All,
  le_value, le_bytes, le_value-le_bytes_4, le_value-le_bytes_8, be_word, inl, inr, Option-cases,
}
use my_project_imserver.Frame.Buffer.{byte_buffer}
use my_project_imserver.Frame.Send.{package_of}
use my_project_imserver.Frame.Segments.{loop_wait, loop_refused, loop_message, next-shrinks}
use my_project_imserver.Frame.Receive.{
  size_mod, wait, message, Outcome, done, crashed, next_package, handle, on_read, receive,
  chat_size, file_size,
}

-- The packages of some bodies, and then the bytes `rest`.
abbrev pub stream : ℕ → List Bytes → Bytes → Bytes
stream size [] rest = rest
stream size (body ∷ bodies) rest = package_of size body ++ stream size bodies rest

-- The bodies handled one after the other; none of them if a handler throws.
unfoldable pub deliver :
    {S : Type 0}
    → (Bytes → S → Option (Bool × S))
    → (S → S)
    → List Bytes
    → Bytes
    → S
    → Outcome Bytes S
deliver process force_close [] rest s = done rest s
deliver process force_close (body ∷ bodies) rest s = elim (handle process force_close body s) [
  | none ↦ crashed
  | some s' ↦ deliver process force_close bodies rest s'
]

module _ (size : ℕ) (extend : ℕ → ℕ) (small : size ≤ 8) where
  -- A header that announces the body, six bytes, the body, and what follows.
  next_body :
      (header six body rest : Bytes)
      → length header ≡ size
      → length six ≡ 6
      → extend (le_value header) % size_mod ≡ length body + 6
      → length body < 0x7fff_ffff_ffff_fff0
      → next_package byte_buffer size extend (header ++ (six ++ (body ++ rest))) ≡ message body rest
  unfolding next_package
  next_body header six body rest hh h6 hp fits =
      let after : Bytes = six ++ (body ++ rest) in
      rw
        (
          take-append_left size header after (sym hh),
          drop-append_left size header after (sym hh),
          hp,
          drop-append_left 6 six (body ++ rest) (sym h6),
        )
        (ground (
          arith,
          length-append header after,
          length-append six (body ++ rest),
          length-append body rest,
          length-append six body,
          take-append_left (length body) body rest refl,
          append_assoc six body rest,
          drop-append_left (length body + 6) (six ++ body) rest,
        ))

  module _ {S : Type 0} (process : Bytes → S → Option (Bool × S)) (force_close : S → S) where
    abbrev handled : Bytes → S → Option S
    handled = handle process force_close

    -- For bodies whose packages the loop can read.
    abbrev Readable : Bytes → Type 0
    Readable body =
        (rest : Bytes)
        → next_package byte_buffer size extend (package_of size body ++ rest) ≡ message body rest

    loop-stream :
        (f : ℕ) (bodies : List Bytes) (rest : Bytes) (s : S)
        → All Readable bodies
        → next_package byte_buffer size extend rest ≡ wait
        → length (stream size bodies rest) < f
        → on_read byte_buffer size extend process force_close f (stream size bodies rest) s
          ≡ deliver process force_close bodies rest s
    unfolding deliver
    loop-stream zero bodies rest s ok w h = absurd (omega arith)
    loop-stream (suc f) [] rest s ok w h =
        loop_wait size extend small process force_close f rest s w
    loop-stream (suc f) (body ∷ bodies) rest s (ok, oks) w h =
        elim (Option-cases (handled body s)) [
          | inl q ↦
              rw (q, deliver)
                (loop_refused size extend small process force_close f _ body _ s
                  (ok (stream size bodies rest)) q)
          | inr (s', q) ↦
              rw (q, deliver)
                (loop_message size extend small process force_close f _ body _ s s'
                    (ok (stream size bodies rest)) q
                  ∙ loop-stream f bodies rest s' oks w (
                      omega (
                        arith,
                        next-shrinks size extend small _ body _ (ok (stream size bodies rest)),
                      )))
        ]

abbrev pub IsChatBody : Bytes → Type 0
IsChatBody body = length body < 0x7fff_fff0

abbrev pub IsFileBody : Bytes → Type 0
IsFileBody body = length body < 0x7fff_ffff_ffff_fff0

chat_next :
    (body rest : Bytes)
    → IsChatBody body
    → next_package byte_buffer 4 chat_size (package_of 4 body ++ rest) ≡ message body rest
unfolding chat_size
chat_next body rest h =
    next_body 4 chat_size (omega arith) (le_bytes 4 (length body + 6))
      (be_word (length body) ++ 0 ∷ 0 ∷ []) body rest refl refl
      (rw (le_value-le_bytes_4 (length body + 6) (omega arith)) (ground arith)) (omega arith)

file_next :
    (body rest : Bytes)
    → IsFileBody body
    → next_package byte_buffer 8 file_size (package_of 8 body ++ rest) ≡ message body rest
unfolding file_size
file_next body rest h =
    next_body 8 file_size (omega arith) (le_bytes 8 (length body + 6))
      (be_word (length body) ++ 0 ∷ 0 ∷ []) body rest refl refl
      (rw (le_value-le_bytes_8 (length body + 6) (omega arith)) (omega arith)) (omega arith)

All-map {ℓ} :
    {A : Type 0} {P Q : A → Type ℓ} → ((a : A) → P a → Q a) → (xs : List A) → All P xs → All Q xs
All-map f [] h = tt
All-map f (x ∷ xs) (p, ps) = (f x p, All-map f xs ps)

module _ {S : Type 0} (process : Bytes → S → Option (Bool × S)) (force_close : S → S) where
  -- Where bodies shorter than 2^31 - 16 bytes are sent as packages one behind the other, followed
  -- by bytes that are no whole package, OnRead hands exactly these bodies to the handler, in
  -- order, closing the connection after each that is refused, and keeps the bytes behind them.
  pub chat_receive-stream :
      (bodies : List Bytes) (rest : Bytes) (s : S)
      → All IsChatBody bodies
      → next_package byte_buffer 4 chat_size rest ≡ wait
      → receive byte_buffer 4 chat_size process force_close (stream 4 bodies rest) s
        ≡ deliver process force_close bodies rest s
  unfolding receive
  chat_receive-stream bodies rest s h w =
      loop-stream 4 chat_size (omega arith) process force_close _ bodies rest s
        (All-map (λ b hb r. chat_next b r hb) bodies h) w (omega arith)

  -- So does the file server's.
  pub file_receive-stream :
      (bodies : List Bytes) (rest : Bytes) (s : S)
      → All IsFileBody bodies
      → next_package byte_buffer 8 file_size rest ≡ wait
      → receive byte_buffer 8 file_size process force_close (stream 8 bodies rest) s
        ≡ deliver process force_close bodies rest s
  unfolding receive
  file_receive-stream bodies rest s h w =
      loop-stream 8 file_size (omega arith) process force_close _ bodies rest s
        (All-map (λ b hb r. file_next b r hb) bodies h) w (omega arith)
