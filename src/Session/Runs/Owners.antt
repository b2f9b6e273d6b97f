-- ===== src/Session/Runs/Owners.antt =====
-- Whom the sessions of EdoyumIMServer/IMServer.cpp belong to: a user who is cached, or nobody.
use my_project_imserver.Base.{
  ℕ, ◌≡◌, ◌⊎◌, inl, inr, refl, Bool, true, false, List, [], ◌∷◌, All, arith, Bytes, minus_one,
}
use my_project_imserver.Users.Types.{User, new_user}
use my_project_imserver.Users.Friends.{present}
use my_project_imserver.Users.Manager.{UserManager}
use my_project_imserver.Server.{
  Session, SessionMap, new_session, map_find, map_insert, map_erase, map_set, on_close,
  on_connection,
}
use my_project_imserver.Server.Laws.{has}
use my_project_imserver.Session.Keeping.{whose}

-- The id of a session that nobody has logged in on is -1.
abbrev pub IsKnown : UserManager → Bytes × User → Type 0
IsKnown m p = (p.1.userid ≡ minus_one) ⊎ (present p.1.userid m.cached_users ≡ true)

abbrev pub Owned : UserManager → SessionMap → Type 0
Owned m sessions = All (IsKnown m) (whose sessions)

pub Owned-grown :
    (m n : UserManager) (us : List (Bytes × User))
    → ((id : ℕ) → present id m.cached_users ≡ true → present id n.cached_users ≡ true)
    → All (IsKnown m) us
    → All (IsKnown n) us
Owned-grown m n [] h p = tt
Owned-grown m n (u ∷ us) h (inl none_yet, ps) = (inl none_yet, Owned-grown m n us h ps)
Owned-grown m n (u ∷ us) h (inr there, ps) = (inr (h u.1.userid there), Owned-grown m n us h ps)

pub All-map_set :
    (P : Bytes × User → Type 0) (k : Bytes) (u : User) (us : List (Bytes × User))
    → ((j : Bytes) → P (j, u))
    → All P us
    → All P (map_set k u us)
unfolding map_set
All-map_set P k u [] h p = tt
All-map_set P k u ((j, x) ∷ us) h (p, ps) = ground (arith, All-map_set P k u us h ps, h j)

All-whose-insert :
    (P : Bytes × User → Type 0) (k : Bytes) (s : Session) (m : SessionMap)
    → ((j : Bytes) → P (j, s.user))
    → All P (whose m)
    → All P (whose (map_insert k s m))
unfolding map_insert
All-whose-insert P k s [] h p = (h k, tt)
All-whose-insert P k s ((j, x) ∷ m) h (p, ps) = ground (arith, All-whose-insert P k s m h ps, h k)

All-whose-erase :
    (P : Bytes × User → Type 0) (k : Bytes) (m : SessionMap)
    → All P (whose m)
    → All P (whose (map_erase k m))
unfolding map_erase
All-whose-erase P k [] p = tt
All-whose-erase P k ((j, x) ∷ m) (p, ps) = ground (arith, All-whose-erase P k m ps)

pub on_connection-Owned :
    (m : UserManager) (conn : Bytes) (connected : Bool) (memory : ℕ) (sessions : SessionMap)
    → Owned m sessions
    → Owned m (on_connection conn connected memory sessions)
unfolding on_connection on_close new_session new_user
on_connection-Owned m conn true memory sessions h =
    All-whose-insert (IsKnown m) conn (new_session memory) sessions (λ j. inl refl) h
on_connection-Owned m conn false memory sessions h = All-whose-erase (IsKnown m) conn sessions h

pub has-whose : (k : Bytes) (m : SessionMap) → has k (whose m) ≡ has k m
unfolding map_find
has-whose k [] = refl
has-whose k ((j, s) ∷ m) = ground (arith, has-whose k m)
