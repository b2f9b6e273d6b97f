-- ===== src/Frame/Keeping.antt =====
-- What a call of OnRead (EdoyumIMServer/ClientSession.cpp, FileServer/FileSession.cpp) keeps, where each
-- message keeps it.
use my_project_imserver.Base.{
  ℕ, zero, suc, ◌≡◌, refl, ap, subst, Bool, true, false, Option, none, some, if◌then◌else◌, Bytes,
}
use my_project_imserver.Frame.Buffer.{BufferApi}
use my_project_imserver.Frame.Receive.{
  Round, wait, crash, message, Outcome, done, crashed, out_of_fuel, next_package, handle, on_read,
  receive, after_round,
}

state_or : {B S : Type 0} → S → Outcome B S → S
state_or s (done b t) = t
state_or s crashed = s
state_or s out_of_fuel = s

module _ (api : BufferApi) (size : ℕ) (extend : ℕ → ℕ) {S : Type 0}
    (process : Bytes → S → Option (Bool × S)) (force_close : S → S) (R : S → S → Type 0)
    (still : (s : S) → R s s) (chain : (s t u : S) → R s t → R t u → R s u)
    (handled : (m : Bytes) (s s' : S) (ok : Bool) → process m s ≡ some (ok, s') → R s s')
    (closes : (s : S) → R s (force_close s)) where
  open api use {Buf}

  handle_keeps : (m : Bytes) (s s' : S) → handle process force_close m s ≡ some s' → R s s'
  unfolding handle
  handle_keeps m s s' e = by_result (process m s) (λ t ok. handled m s t ok) e
    where
      reached : (t : S) → Option S → S
      reached t none = t
      reached t (some u) = u

      by_result :
          (o : Option (Bool × S))
          → ((t : S) (ok : Bool) → o ≡ some (ok, t) → R s t)
          → (elim o as (λ _. Option S) [
            | none ↦ none
            | some (ok, t) ↦ some (if ok then t else force_close t)
          ])
            ≡ some s'
          → R s s'
      by_result none h e = cc
      by_result (some (true, t)) h e = subst (R s) (ap (reached t) e) (h t true refl)
      by_result (some (false, t)) h e =
          subst (R s) (ap (reached t) e) (chain s t (force_close t) (h t false refl) (closes t))

  after_round_keeps :
      (loop : Buf → S → Outcome Buf S) (b b' : Buf) (s s' : S) (r : Round Buf)
      → ((rest : Buf) (t : S) → loop rest t ≡ done b' s' → R t s')
      → after_round api size extend process force_close loop b s r ≡ done b' s'
      → R s s'
  unfolding state_or
  after_round_keeps loop b b' s s' wait again e = subst (R s) (ap (state_or s) e) (still s)
  after_round_keeps loop b b' s s' crash again e = cc
  after_round_keeps loop b b' s s' (message m rest) again e =
      by_handled (handle process force_close m s) (handle_keeps m s) e
    where
      by_handled :
          (o : Option S)
          → ((t : S) → o ≡ some t → R s t)
          → (elim o as (λ _. Outcome Buf S) [ none ↦ crashed | some t ↦ loop rest t ]) ≡ done b' s'
          → R s s'
      by_handled none h e = cc
      by_handled (some t) h e = chain s t s' (h t refl) (again rest t e)

  on_read_keeps :
      (fuel : ℕ) (b b' : Buf) (s s' : S)
      → on_read api size extend process force_close fuel b s ≡ done b' s'
      → R s s'
  unfolding on_read
  on_read_keeps zero b b' s s' e = cc
  on_read_keeps (suc fuel) b b' s s' e =
      after_round_keeps (on_read api size extend process force_close fuel) b b' s s'
        (next_package api size extend b) (λ rest t. on_read_keeps fuel rest b' t s') e

  -- A relation that every message and every closing by force satisfies, whatever is received.
  pub receive_keeps :
      (b b' : Buf) (s s' : S)
      → receive api size extend process force_close b s ≡ done b' s'
      → R s s'
  unfolding receive
  receive_keeps b b' s s' e = on_read_keeps _ b b' s s' e
