-- ===== src/Session/Sending.antt =====
-- The bytes that the replies put on a connection.
use my_project_imserver.Base.{
  ℕ, ◌≡◌, refl, ap, Bool, true, false, not, if◌then◌else◌, [], ◌∷◌, ◌++◌, Option, none, some, arith,
  length, Bytes, IsWord, be_word,
}
use my_project_imserver.Wire.Writer.{
  Writer, Holds, new_writer-Holds, write_net-Holds, write_string-Holds,
}
use my_project_imserver.Wire.Strings.{IsText, string_body, length-compress}
use my_project_imserver.Frame.Send.{package_of, chat_send, chat_send-package}
use my_project_imserver.Server.{Session, map_find}
use my_project_imserver.Session.World.{
  World, M, ◌>>=◌, ◌>>◌, return, session_of, lift, send, send_last, reply,
}

-- A step that is known to succeed.
pub bind-some :
    {Db A B : Type 0} (m : M Db A) (f : A → M Db B) (a : A) (w w' : World Db)
    → m w ≡ some (a, w')
    → (m >>= f) w ≡ f a w'
bind-some {Db} {A} {B} m f a w w' e =
    ap (λ o. elim o as (λ _. Option (B × World Db)) [ none ↦ none | some (x, v) ↦ f x v ]) e

pub next-some :
    {Db B : Type 0} (m : M Db (Unit {0})) (k : M Db B) (w w' : World Db)
    → m w ≡ some (tt, w')
    → (m >> k) w ≡ k w'
next-some {Db} {B} m k w w' e =
    ap (λ o. elim o as (λ _. Option (B × World Db)) [ none ↦ none | some (_, v) ↦ k v ]) e

-- A handler that gives up on false goes on, and one that looks up a user has found one.
pub go_on :
    {Db : Type 0} (b : Bool) (k : M Db (Unit {0})) (w : World Db)
    → b ≡ true
    → (if not b then return tt else k) w ≡ k w
go_on false k w h = cc
go_on true k w h = refl

pub on_some :
    {Db A : Type 0} (o : Option A) (k : A → M Db (Unit {0})) (a : A) (w : World Db)
    → o ≡ some a
    → (elim o as (λ _. M Db (Unit {0})) [ none ↦ return tt | some x ↦ k x ]) w ≡ k a w
on_some {Db} o k a w h =
    ap (λ p. (elim p as (λ _. M Db (Unit {0})) [ none ↦ return tt | some x ↦ k x ]) w) h

-- A handler runs on a session that is in the map.
pub session_of-found :
    {Db : Type 0} (k : Bytes) (s : Session) (w : World Db)
    → map_find k w.sessions ≡ some s
    → session_of k w ≡ some (s, w)
unfolding session_of
session_of-found k s w found = rw (found, session_of) refl

-- What is known where a handler that looks up a session has ended.
pub after_session_of :
    {Db A C : Type 0} (k : Bytes) (f : Session → M Db A) (w w' : World Db) (a : A)
    → (session_of k >>= f) w ≡ some (a, w')
    → ((s : Session) → map_find k w.sessions ≡ some s → f s w ≡ some (a, w') → C)
    → C
unfolding session_of
after_session_of {Db} {A} {C} k f w w' a = by_find (map_find k w.sessions)
  where
    by_find :
        (o : Option Session)
        → (elim elim o as (λ _. Option (Session × World Db)) [ none ↦ none | some s ↦ some (s, w) ]
            as
            (λ _. Option (A × World Db))
            [ none ↦ none | some (s, v) ↦ f s v ])
          ≡ some (a, w')
        → ((s : Session) → o ≡ some s → f s w ≡ some (a, w') → C)
        → C
    by_find none e h = cc
    by_find (some s) e h = h s refl e

-- The same of a step that may fail.
pub after_lift :
    {Db A B C : Type 0} (o : Option A) (f : A → M Db B) (w w' : World Db) (b : B)
    → (lift o >>= f) w ≡ some (b, w')
    → ((a : A) → o ≡ some a → f a w ≡ some (b, w') → C)
    → C
after_lift none f w w' b e h = cc
after_lift (some a) f w w' b e h = h a refl e

-- A step with a result of its own behind it.
pub after_next :
    {Db B C : Type 0} (m : M Db (Unit {0})) (x : B) (w w' : World Db) (b : B)
    → (m >> return x) w ≡ some (b, w')
    → (m w ≡ some (tt, w') → C)
    → C
after_next {Db} {B} {C} m x w w' b = by_first (m w)
  where
    by_first :
        (o : Option (Unit {0} × World Db))
        → (elim o as (λ _. Option (B × World Db)) [ none ↦ none | some (_, v) ↦ some (x, v) ])
          ≡ some (b, w')
        → (o ≡ some (tt, w') → C)
        → C
    by_first none e h = cc
    by_first (some (_, v)) e h = h (cc)

-- The command, the session's number and a string.
abbrev pub reply_body : ℕ → ℕ → Bytes → Bytes
reply_body cmd seq text = be_word cmd ++ (be_word seq ++ string_body text)

pub reply-Holds :
    (cmd seq : ℕ) (text : Bytes)
    → IsWord cmd
    → IsWord seq
    → IsText text
    → Holds (reply cmd seq text) (reply_body cmd seq text)
unfolding reply
reply-Holds cmd seq text hc hs h =
    write_string-Holds text
      (write_net-Holds seq (write_net-Holds cmd new_writer-Holds hc (omega arith)) hs (omega arith))
      (omega (arith, length-compress text h))

-- Sending a written body puts its package on the connection, and changes nothing else.
pub send_lem :
    {Db : Type 0} (k : Bytes) (writer : Writer) (body : Bytes) (w : World Db)
    → Holds writer body
    → IsWord (length body)
    → send k writer w
      ≡ some ((chat_send writer).1, record w { sent = w.sent ++ (k, package_of 4 body) ∷ [] })
unfolding send
send_lem k writer body w h fits = rw (chat_send-package writer body h fits)

pub send_last_lem :
    {Db : Type 0} (k : Bytes) (writer : Writer) (body : Bytes) (w : World Db)
    → Holds writer body
    → IsWord (length body)
    → send_last k writer w ≡ some (tt, record w { sent = w.sent ++ (k, package_of 4 body) ∷ [] })
unfolding send
send_last_lem k writer body w h fits = rw (chat_send-package writer body h fits)
