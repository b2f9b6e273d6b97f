-- ===== src/Frame/Segments.antt =====
-- The receive loop over bytes: it ends, and it does not matter how the stream is cut into segments.
use my_project_imserver.Base.{
  ℕ, zero, suc, ◌+◌, ◌-◌, ◌%◌, ◌≤◌, ◌<◌, ◌≡◌, ◌≢◌, refl, sym, ap, ◌∙◌, Bool, List, [], ◌∷◌, ◌++◌,
  Option, none, some, append_assoc, append-nil, arith, length, length-append, take, drop,
  length-drop, take-append_le, drop-append_le, Bytes, le_value, ◌⊎◌, inl, inr, Option-cases,
}
use my_project_imserver.Frame.Buffer.{byte_buffer}
use my_project_imserver.Frame.Receive.{
  size_mod, Round, wait, crash, message, Outcome, done, crashed, out_of_fuel, next_package, handle,
  on_read, receive,
}

Round-cases :
    {B : Type 0} (r : Round B)
    → (r ≡ wait) ⊎ (r ≡ crash) ⊎ ((m : Bytes) × (b : B) × (r ≡ message m b))
Round-cases wait = inl refl
Round-cases crash = inr (inl refl)
Round-cases (message m b) = inr (inr (m, b, refl))

-- The stream that a sequence of segments makes up.
abbrev pub joined : List Bytes → Bytes
joined [] = []
joined (x ∷ xs) = x ++ joined xs

module _ (size : ℕ) (extend : ℕ → ℕ) (small : size ≤ 8) where
  abbrev next : Bytes → Round Bytes
  next = next_package byte_buffer size extend

  -- A package takes six bytes and its size at least, and whatever stands behind it stays.
  pub next-shrinks : (xs m rest : Bytes) → next xs ≡ message m rest → length rest + 6 ≤ length xs
  unfolding next_package
  next-shrinks xs m rest e = ground (
    arith,
    length-drop size xs,
    length-drop (extend (le_value (take size xs)) % size_mod) (drop size xs),
  )

  next-append_message :
      (xs ys m rest : Bytes) → next xs ≡ message m rest → next (xs ++ ys) ≡ message m (rest ++ ys)
  unfolding next_package
  next-append_message xs ys m rest e =
      let p : ℕ = extend (le_value (take size xs)) % size_mod in
      let body = drop size xs in
      ground (
        arith,
        length-append xs ys,
        take-append_le size xs ys,
        drop-append_le size xs ys,
        drop-append_le 6 body ys,
        take-append_le ((p + size_mod - 6) % size_mod) (drop 6 body) ys,
        drop-append_le p body ys,
        length-drop size xs,
        length-drop 6 body,
      )

  next-append_crash : (xs ys : Bytes) → next xs ≡ crash → next (xs ++ ys) ≡ crash
  unfolding next_package
  next-append_crash xs ys e = ground (arith, length-append xs ys, take-append_le size xs ys)

  module _ {S : Type 0} (process : Bytes → S → Option (Bool × S)) (force_close : S → S) where
    abbrev loop : ℕ → Bytes → S → Outcome Bytes S
    loop = on_read byte_buffer size extend process force_close

    abbrev handled : Bytes → S → Option S
    handled = handle process force_close

    -- One round of the loop, by what it finds.
    pub loop_wait : (f : ℕ) (xs : Bytes) (s : S) → next xs ≡ wait → loop (suc f) xs s ≡ done xs s
    unfolding on_read
    loop_wait f xs s e = rw e

    pub loop_crash : (f : ℕ) (xs : Bytes) (s : S) → next xs ≡ crash → loop (suc f) xs s ≡ crashed
    unfolding on_read
    loop_crash f xs s e = rw e

    pub loop_refused :
        (f : ℕ) (xs m rest : Bytes) (s : S)
        → next xs ≡ message m rest
        → handled m s ≡ none
        → loop (suc f) xs s ≡ crashed
    unfolding on_read
    loop_refused f xs m rest s e h = rw (e, h)

    pub loop_message :
        (f : ℕ) (xs m rest : Bytes) (s s' : S)
        → next xs ≡ message m rest
        → handled m s ≡ some s'
        → loop (suc f) xs s ≡ loop f rest s'
    unfolding on_read
    loop_message f xs m rest s s' e h = rw (e, h)

    -- Any two amounts of fuel that exceed the bytes give the same.
    pub loop_fuel :
        (f g : ℕ) (xs : Bytes) (s : S) → length xs < f → length xs < g → loop f xs s ≡ loop g xs s
    loop_fuel zero g xs s hf hg = absurd (omega arith)
    loop_fuel (suc f) zero xs s hf hg = absurd (omega arith)
    loop_fuel (suc f) (suc g) xs s hf hg = elim (Round-cases (next xs)) [
      | inl e ↦ loop_wait f xs s e ∙ sym (loop_wait g xs s e)
      | inr (inl e) ↦ loop_crash f xs s e ∙ sym (loop_crash g xs s e)
      | inr (inr (m, rest, e)) ↦ elim (Option-cases (handled m s)) [
        | inl h ↦ loop_refused f xs m rest s e h ∙ sym (loop_refused g xs m rest s e h)
        | inr (s', h) ↦
            loop_message f xs m rest s s' e h
            ∙ loop_fuel f g rest s' (omega (arith, next-shrinks xs m rest e))
                (omega (arith, next-shrinks xs m rest e))
            ∙ sym (loop_message g xs m rest s s' e h)
      ]
    ]

    -- The receive loop ends within one round more than there are bytes, for any handler: a
    -- package takes six bytes at least.
    pub loop-ne-out_of_fuel :
        (f : ℕ) (xs : Bytes) (s : S) → length xs < f → loop f xs s ≢ out_of_fuel
    loop-ne-out_of_fuel zero xs s hf = absurd (omega arith)
    loop-ne-out_of_fuel (suc f) xs s hf = elim (Round-cases (next xs)) [
      | inl e ↦ rw (loop_wait f xs s e) (λ p. cc)
      | inr (inl e) ↦ rw (loop_crash f xs s e) (λ p. cc)
      | inr (inr (m, rest, e)) ↦ elim (Option-cases (handled m s)) [
        | inl h ↦ rw (loop_refused f xs m rest s e h) (λ p. cc)
        | inr (s', h) ↦
            rw (loop_message f xs m rest s s' e h)
              (loop-ne-out_of_fuel f rest s' (omega (arith, next-shrinks xs m rest e)))
      ]
    ]

    -- Bytes that come later are read as if they had been there from the start.
    loop-append_done :
        (f g h : ℕ) (xs ys rest : Bytes) (s s' : S)
        → loop f xs s ≡ done rest s'
        → length (xs ++ ys) < g
        → length (rest ++ ys) < h
        → loop g (xs ++ ys) s ≡ loop h (rest ++ ys) s'
    loop-append_done zero g h xs ys rest s s' e hg hh = unfold on_read in cc
    loop-append_done (suc f) zero h xs ys rest s s' e hg hh = absurd (omega arith)
    loop-append_done (suc f) (suc g) h xs ys rest s s' e hg hh = elim (Round-cases (next xs)) [
      | inl w ↦ stopped (sym (loop_wait f xs s w) ∙ e)
      | inr (inl c) ↦ cc (loop_crash f xs s c)
      | inr (inr (m, left, p)) ↦ elim (Option-cases (handled m s)) [
        | inl q ↦ cc (loop_refused f xs m left s p q)
        | inr (t, q) ↦
            loop_message g (xs ++ ys) m (left ++ ys) s t (next-append_message xs ys m left p) q
            ∙ loop-append_done f g h left ys rest t s' (sym (loop_message f xs m left s t p q) ∙ e)
                (omega (
                  arith,
                  next-shrinks (xs ++ ys) m (left ++ ys) (next-append_message xs ys m left p),
                ))
                hh
      ]
    ]
      where
        stopped : done xs s ≡ done rest s' → loop (suc g) (xs ++ ys) s ≡ loop h (rest ++ ys) s'
        stopped d =
            let same_bytes : xs ≡ rest = ground arith in
            let same_state : s ≡ s' = ground arith in
            rw (same_bytes, same_state)
              (loop_fuel (suc g) h (rest ++ ys) s' (rw same_bytes at hg) hh)

    loop-append_crashed :
        (f g : ℕ) (xs ys : Bytes) (s : S)
        → loop f xs s ≡ crashed
        → length (xs ++ ys) < g
        → loop g (xs ++ ys) s ≡ crashed
    loop-append_crashed zero g xs ys s e hg = unfold on_read in cc
    loop-append_crashed (suc f) zero xs ys s e hg = absurd (omega arith)
    loop-append_crashed (suc f) (suc g) xs ys s e hg = elim (Round-cases (next xs)) [
      | inl w ↦ cc (loop_wait f xs s w)
      | inr (inl c) ↦ loop_crash g (xs ++ ys) s (next-append_crash xs ys c)
      | inr (inr (m, left, p)) ↦ elim (Option-cases (handled m s)) [
        | inl q ↦ loop_refused g (xs ++ ys) m (left ++ ys) s (next-append_message xs ys m left p) q
        | inr (t, q) ↦
            loop_message g (xs ++ ys) m (left ++ ys) s t (next-append_message xs ys m left p) q
            ∙ loop-append_crashed f g left ys t (sym (loop_message f xs m left s t p q) ∙ e) (
                omega (
                  arith,
                  next-shrinks (xs ++ ys) m (left ++ ys) (next-append_message xs ys m left p),
                ))
      ]
    ]

    abbrev received : Bytes → S → Outcome Bytes S
    received = receive byte_buffer size extend process force_close

    -- The connection delivers segments; after each, OnRead runs over what is buffered.
    after_segment : Bytes → Outcome Bytes S → Outcome Bytes S
    after_segment segment (done buffered s) = received (buffered ++ segment) s
    after_segment segment crashed = crashed
    after_segment segment out_of_fuel = out_of_fuel

    pub feed : List Bytes → Outcome Bytes S → Outcome Bytes S
    unfolding after_segment
    feed [] o = o
    feed (segment ∷ later) o = feed later (after_segment segment o)

    after_segment-received :
        (xs ys : Bytes) (s : S) → after_segment ys (received xs s) ≡ received (xs ++ ys) s
    unfolding after_segment
    after_segment-received xs ys s = go (received xs s) refl
      where
        go : (o : Outcome Bytes S) → received xs s ≡ o → after_segment ys o ≡ received (xs ++ ys) s
        go (done rest s') e =
            unfold receive in
            sym (loop-append_done _ _ _ xs ys rest s s' e (omega arith) (omega arith))
        go crashed e = unfold receive in sym (loop-append_crashed _ _ xs ys s e (omega arith))
        go out_of_fuel e =
            unfold receive in absurd (loop-ne-out_of_fuel (suc (length xs)) xs s (omega arith) e)

    feed-received :
        (segments : List Bytes) (xs : Bytes) (s : S)
        → feed segments (received xs s) ≡ received (xs ++ joined segments) s
    unfolding feed
    feed-received [] xs s = rw append-nil
    feed-received (y ∷ ys) xs s =
        ap (feed ys) (after_segment-received xs y s)
        ∙ feed-received ys (xs ++ y) s
        ∙ ap (λ (zs : Bytes). received zs s) (append_assoc xs y (joined ys))

    received-nil : (s : S) → 0 < size → received [] s ≡ done [] s
    unfolding receive
    received-nil s h = loop_wait 0 [] s (unfold next_package in ground arith)

    -- However a byte stream is cut into the segments that the network delivers, the receive loop
    -- that runs after each segment ends as one run over the whole stream: the same messages are
    -- handled in the same order, with the same bytes left, crashes included. It holds for any
    -- handler and any package size field of at most eight bytes that is not empty.
    pub feed-joined :
        (segments : List Bytes) (s : S)
        → 0 < size
        → feed segments (done [] s) ≡ received (joined segments) s
    feed-joined segments s h =
        ap (feed segments) (sym (received-nil s h)) ∙ feed-received segments [] s
