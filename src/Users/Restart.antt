-- ===== src/Users/Restart.antt =====
-- The ids after a start from the database.
use my_project_imserver.Base.{
  ℕ, ◌+◌, ◌%◌, ◌≡◌, ◌<◌, true, false, List, [], ◌∷◌, ◌++◌, All, some, slt, arith, Bytes,
  Option-cases, inl, inr, subst,
}
use my_project_imserver.Users.Types.{User, is_group}
use my_project_imserver.Users.Friends.{present}
use my_project_imserver.Users.Ids.{next_user_id}
use my_project_imserver.Users.Manager.{UserManager}
use my_project_imserver.Users.Load.{load_row, load_rows, add_loaded}

-- No cached id is above `m_baseUserID`, as int32_t.
abbrev pub IsBounded : UserManager → Type 0
IsBounded m = All (λ (u : User). slt m.base_user_id u.userid ≡ false) m.cached_users

raise_bound :
    (a b : ℕ) (us : List User)
    → slt b a ≡ false
    → All (λ (u : User). slt a u.userid ≡ false) us
    → All (λ (u : User). slt b u.userid ≡ false) us
raise_bound a b [] h p = tt
raise_bound a b (u ∷ us) h (p, ps) = (ground arith, raise_bound a b us h ps)

All-snoc :
    (b : ℕ) (us : List User) (u : User)
    → All (λ (v : User). slt b v.userid ≡ false) us
    → slt b u.userid ≡ false
    → All (λ (v : User). slt b v.userid ≡ false) (us ++ u ∷ [])
All-snoc b [] u p q = (q, tt)
All-snoc b (v ∷ us) u (p, ps) q = (p, All-snoc b us u ps q)

add_loaded-IsBounded : (u : User) (m : UserManager) → IsBounded m → IsBounded (add_loaded u m)
unfolding add_loaded
add_loaded-IsBounded u m h =
    All-snoc _ m.cached_users u (raise_bound m.base_user_id _ m.cached_users (ground arith) h)
      (ground arith)

module _ (atoi : Bytes → ℕ) where
  -- Loading makes `m_baseUserID` an upper bound of all the ids that are loaded.
  pub load_rows-IsBounded :
      (rows : List (List Bytes)) (m m' : UserManager)
      → IsBounded m
      → load_rows atoi rows m ≡ some m'
      → IsBounded m'
  unfolding load_rows
  load_rows-IsBounded [] m m' h e = subst IsBounded (same e) h
    where
      same : some m ≡ some m' → m ≡ m'
      same e = ground arith
  load_rows-IsBounded (row ∷ rows) m m' h e = elim (Option-cases (load_row atoi row)) [
    | inl q ↦ cc (rw q at e)
    | inr (u, q) ↦
        load_rows-IsBounded rows (add_loaded u m) m' (add_loaded-IsBounded u m h) (rw q at e)
  ]

bounded_group :
    (base k : ℕ) (us : List User)
    → All (λ (u : User). slt base u.userid ≡ false) us
    → present k us ≡ true
    → is_group k ≡ true
    → base + 1 < 0x8000_0000
    → is_group ((base + 1) % 0x1_0000_0000) ≡ true
bounded_group base k [] p h g room = cc
bounded_group base k (u ∷ us) (p, ps) h g room = ground (arith, bounded_group base k us ps)

-- Where the rows of the table of users are loaded into a cache with no id above the counter, and
-- one loaded id is a group's, the id that the next AddUser uses is a group's too, unless the
-- counter overflows.
pub next_user_id_after_group :
    (atoi : Bytes → ℕ) (rows : List (List Bytes)) (m m' : UserManager) (k : ℕ)
    → IsBounded m
    → load_rows atoi rows m ≡ some m'
    → present k m'.cached_users ≡ true
    → is_group k ≡ true
    → m'.base_user_id + 1 < 0x8000_0000
    → is_group (next_user_id m') ≡ true
next_user_id_after_group atoi rows m m' k b e h g room =
    bounded_group m'.base_user_id k m'.cached_users (load_rows-IsBounded atoi rows m m' b e) h g
      room
