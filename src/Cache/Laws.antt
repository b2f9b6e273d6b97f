-- ===== src/Cache/Laws.antt =====
-- What a user is owed, and what the getters hand over.
use my_project_imserver.Base.{
  ℕ, ◌≡◌, ◌≢◌, refl, List, [], ◌∷◌, ◌++◌, ◌==◌, if◌then◌else◌, inl, inr, append-nil, arith, Bytes,
  Bool-cases,
}
use mathlib.Core.List.{Perm, perm_middle}
use mathlib.Core.List.Perm
use my_project_imserver.Cache.{
  Cached, MsgCache, add_notify, add_chat, take_out, get_notify, get_chat,
}

-- The texts that wait for a user, oldest first.
abbrev pub owed : ℕ → List Cached → List Bytes
owed u [] = []
owed u (m ∷ ms) = if m.userid == u then m.text ∷ owed u ms else owed u ms

abbrev pub texts : List Cached → List Bytes
texts [] = []
texts (m ∷ ms) = m.text ∷ texts ms

owed-append : (u : ℕ) (ms ns : List Cached) → owed u (ms ++ ns) ≡ owed u ms ++ owed u ns
owed-append u [] ns = refl
owed-append u (m ∷ ms) ns = ground (arith, owed-append u ms ns)

take_out-texts : (u : ℕ) (ms : List Cached) → texts (take_out u ms).0 ≡ owed u ms
unfolding take_out
take_out-texts u [] = refl
take_out-texts u (m ∷ ms) = ground (arith, take_out-texts u ms)

take_out_self : (u : ℕ) (ms : List Cached) → owed u (take_out u ms).1 ≡ []
unfolding take_out
take_out_self u [] = refl
take_out_self u (m ∷ ms) = ground (arith, take_out_self u ms)

take_out-others : (u v : ℕ) (ms : List Cached) → u ≢ v → owed v (take_out u ms).1 ≡ owed v ms
unfolding take_out
take_out-others u v [] h = refl
take_out-others u v (m ∷ ms) h = ground (arith, take_out-others u v ms)

-- Nothing is lost or made up.
take_out-perm : (u : ℕ) (ms : List Cached) → Perm ms ((take_out u ms).0 ++ (take_out u ms).1)
unfolding take_out
take_out-perm u [] = Perm.nil
take_out-perm u (m ∷ ms) = elim (Bool-cases (m.userid == u)) [
  | inl e ↦ rw e (Perm.cons m (take_out-perm u ms))
  | inr e ↦ rw e (
      Perm.trans (Perm.cons m (take_out-perm u ms))
        (Perm.symm (perm_middle (take_out u ms).0 (take_out u ms).1)))
]

-- A cached chat message joins the end of what its user is owed; nobody else is affected, and no
-- notification is.
pub add_chat_lem :
    (u v : ℕ) (text : Bytes) (c : MsgCache)
    → (owed v (add_chat u text c).chat_msgs
        ≡ (if u == v then owed v c.chat_msgs ++ text ∷ [] else owed v c.chat_msgs))
      × ((add_chat u text c).notify_msgs ≡ c.notify_msgs)
unfolding add_chat
add_chat_lem u v text c = ground (
  arith,
  owed-append v c.chat_msgs (record { userid = u; text = text } ∷ []),
  append-nil (owed v c.chat_msgs),
)

pub add_notify_lem :
    (u v : ℕ) (text : Bytes) (c : MsgCache)
    → (owed v (add_notify u text c).notify_msgs
        ≡ (if u == v then owed v c.notify_msgs ++ text ∷ [] else owed v c.notify_msgs))
      × ((add_notify u text c).chat_msgs ≡ c.chat_msgs)
unfolding add_notify
add_notify_lem u v text c = ground (
  arith,
  owed-append v c.notify_msgs (record { userid = u; text = text } ∷ []),
  append-nil (owed v c.notify_msgs),
)

-- Taking the cached chat messages of a user hands over what the user is owed, in order, and
-- leaves the user nothing; every other user is owed what they were; the two lists make up the old
-- one; and the notifications stay as they were.
pub get_chat_lem :
    (u : ℕ) (c : MsgCache)
    → (texts (get_chat u c).0 ≡ owed u c.chat_msgs)
      × (owed u (get_chat u c).1.chat_msgs ≡ [])
      × ((v : ℕ) → u ≢ v → owed v (get_chat u c).1.chat_msgs ≡ owed v c.chat_msgs)
      × Perm c.chat_msgs ((get_chat u c).0 ++ (get_chat u c).1.chat_msgs)
      × ((get_chat u c).1.notify_msgs ≡ c.notify_msgs)
unfolding get_chat
get_chat_lem u c = (
  take_out-texts u c.chat_msgs,
  take_out_self u c.chat_msgs,
  (λ v h. take_out-others u v c.chat_msgs h),
  take_out-perm u c.chat_msgs,
  refl,
)

pub get_notify_lem :
    (u : ℕ) (c : MsgCache)
    → (texts (get_notify u c).0 ≡ owed u c.notify_msgs)
      × (owed u (get_notify u c).1.notify_msgs ≡ [])
      × ((v : ℕ) → u ≢ v → owed v (get_notify u c).1.notify_msgs ≡ owed v c.notify_msgs)
      × Perm c.notify_msgs ((get_notify u c).0 ++ (get_notify u c).1.notify_msgs)
      × ((get_notify u c).1.chat_msgs ≡ c.chat_msgs)
unfolding get_notify
get_notify_lem u c = (
  take_out-texts u c.notify_msgs,
  take_out_self u c.notify_msgs,
  (λ v h. take_out-others u v c.notify_msgs h),
  take_out-perm u c.notify_msgs,
  refl,
)
