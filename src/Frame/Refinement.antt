-- ===== src/Frame/Refinement.antt =====
-- Whatever buffer the network library provides, the receive loop does what it does on the bytes that
-- the buffer shows: the facts about packages can be proved over plain byte strings.
use my_project_imserver.Base.{
  ℕ, zero, suc, ◌%◌, ◌≤◌, ◌≡◌, refl, ap, ◌∙◌, Bool, Option, none, some, arith, take, length-drop,
  Bytes, le_value,
}
use my_project_imserver.Frame.Buffer.{BufferApi, byte_buffer}
use my_project_imserver.Frame.Receive.{
  size_mod, Round, wait, crash, message, Outcome, done, crashed, out_of_fuel, next_package, handle,
  on_read, after_handled, after_round,
}

-- The step as a function of the bytes shown, and of how far they are taken.
module _ (api : BufferApi) where
  open api use {Buf, readable, retrieve, readable-retrieve}

  abbrev pub shown_round : Round Buf → Round Bytes
  shown_round wait = wait
  shown_round crash = crash
  shown_round (message m b) = message m (readable b)

  abbrev pub shown : {S : Type 0} → Outcome Buf S → Outcome Bytes S
  shown (done b s) = done (readable b) s
  shown crashed = crashed
  shown out_of_fuel = out_of_fuel

  module _ (size : ℕ) (extend : ℕ → ℕ) (small : size ≤ 8) where
    next_package-shown :
        (b : Buf)
        → shown_round (next_package api size extend b)
          ≡ next_package byte_buffer size extend (readable b)
    unfolding next_package
    next_package-shown b =
        let p : ℕ = extend (le_value (take size (readable b))) % size_mod in
        ground (
          arith,
          readable-retrieve size b,
          readable-retrieve p (retrieve size b),
          length-drop size (readable b),
        )

    module _ {S : Type 0} (process : Bytes → S → Option (Bool × S)) (force_close : S → S) where
      abbrev Agrees : (Buf → S → Outcome Buf S) → (Bytes → S → Outcome Bytes S) → Type 0
      Agrees f g = (b : Buf) (s : S) → shown (f b s) ≡ g (readable b) s

      after_handled-shown :
          (f : Buf → S → Outcome Buf S) (g : Bytes → S → Outcome Bytes S)
          → Agrees f g
          → (rest : Buf) (o : Option S)
          → shown (after_handled api size extend process force_close f rest o)
            ≡ after_handled byte_buffer size extend process force_close g (readable rest) o
      after_handled-shown f g ih rest none = refl
      after_handled-shown f g ih rest (some s) = ih rest s

      after_round-shown :
          (f : Buf → S → Outcome Buf S) (g : Bytes → S → Outcome Bytes S)
          → Agrees f g
          → (b : Buf) (s : S) (r : Round Buf)
          → shown (after_round api size extend process force_close f b s r)
            ≡ after_round byte_buffer size extend process force_close g
                (readable b)
                s
                (shown_round r)
      unfolding handle
      after_round-shown f g ih b s wait = refl
      after_round-shown f g ih b s crash = refl
      after_round-shown f g ih b s (message m rest) =
          after_handled-shown f g ih rest (handle process force_close m s)

      -- Over any buffer whose retrieve drops bytes from what it shows, the receive loop does what
      -- it does over the shown bytes themselves, crashes included.
      pub on_read-shown :
          (fuel : ℕ) (b : Buf) (s : S)
          → shown (on_read api size extend process force_close fuel b s)
            ≡ on_read byte_buffer size extend process force_close fuel (readable b) s
      unfolding on_read
      on_read-shown zero b s = refl
      on_read-shown (suc fuel) b s =
          after_round-shown _ _ (on_read-shown fuel) b s _
          ∙ ap
              (after_round byte_buffer size extend process force_close
                (on_read byte_buffer size extend process force_close fuel) (readable b) s)
              (next_package-shown b)
