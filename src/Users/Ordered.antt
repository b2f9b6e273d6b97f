-- ===== src/Users/Ordered.antt =====
-- MakeFriendRelationship of EdoyumIMServer/UserManager.cpp, called with the two ids in order.
use my_project_imserver.Base.{
  ℕ, ◌≡◌, ◌≢◌, refl, Bool, true, false, ◌||◌, List, [], ◌∷◌, some, if◌then◌else◌, ◌==◌, slt, arith,
  IsWord, Bool-cases, inl, inr, Bytes, Option, none, subst,
}
use my_project_imserver.Users.Types.{User, set_insert}
use my_project_imserver.Users.Sql.{sql_make_friends}
use my_project_imserver.Users.Manager.{
  DbApi, UserManager, find_by_id, make_friend_relationship, link_loop, add_friend_to_user,
}
use my_project_imserver.Users.Friends.{present, is_friend, is_pair, make_friend_relationship_lem}

pub find_by_id-present :
    (k : ℕ) (us : List User)
    → present k us ≡ true
    → (u : User) × (find_by_id k us ≡ some u) × (u.userid ≡ k)
unfolding find_by_id
find_by_id-present k [] h = cc
find_by_id-present k (u ∷ us) h = elim (Bool-cases (u.userid == k)) [
  | inl hit ↦ (u, ground arith, ground arith)
  | inr miss ↦ later miss (find_by_id-present k us (ground arith))
]
  where
    later :
        (u.userid == k) ≡ false
        → ((v : User) × (find_by_id k us ≡ some v) × (v.userid ≡ k))
        → (v : User) × ((if u.userid == k then some u else find_by_id k us) ≡ some v)
          × (v.userid ≡ k)
    later miss (v, e, i) = (v, rw miss e, i)

-- The name of the user that is found under an id.
abbrev pub name_of : ℕ → List User → Option Bytes
name_of k [] = none
name_of k (u ∷ us) = if u.userid == k then some u.username else name_of k us

name_of-link_loop :
    (op : ℕ → List ℕ → List ℕ) (a b k : ℕ) (found1 found2 : Bool) (us : List User)
    → name_of k (link_loop op a b found1 found2 us).0 ≡ name_of k us
unfolding link_loop
name_of-link_loop op a b k found1 found2 [] = refl
name_of-link_loop op a b k found1 found2 (u ∷ us) =
    ground
      (arith, name_of-link_loop op a b k ((u.userid == a) || found1) ((u.userid == b) || found2) us)

-- Who is found under an id is cached, with that id, and gives it its name.
pub find_by_id-name_of :
    (k : ℕ) (us : List User) (u : User)
    → find_by_id k us ≡ some u
    → (present k us ≡ true) × (u.userid ≡ k) × (name_of k us ≡ some u.username)
unfolding find_by_id
find_by_id-name_of k [] u e = cc
find_by_id-name_of k (v ∷ us) u e = elim (Bool-cases (v.userid == k)) [
  | inl hit ↦
      let same : v ≡ u = ground arith in
      (ground arith, subst (λ (w : User). w.userid ≡ k) same (ground arith), rw (hit, same) refl)
  | inr miss ↦
      let (p, i, n) = find_by_id-name_of k us u (ground arith) in (ground arith, i, rw miss n)
]

-- The two ids in order.
abbrev pub smaller : ℕ → ℕ → ℕ
smaller me target = if slt target me then target else me

abbrev pub greater : ℕ → ℕ → ℕ
greater me target = if slt target me then me else target

module _ (database : DbApi) where
  open database use {Db}

  pub link_ordered :
      (me target : ℕ) (m : UserManager) (d : Db)
      → (if slt target me
          then make_friend_relationship database target me m d
          else make_friend_relationship database me target m d)
        ≡ make_friend_relationship database (smaller me target) (greater me target) m d
  link_ordered me target m d = by_order (slt target me)
    where
      by_order :
          (c : Bool)
          → (if c
              then make_friend_relationship database target me m d
              else make_friend_relationship database me target m d)
            ≡ make_friend_relationship database
                (if c then target else me)
                (if c then me else target)
                m
                d
      by_order true = refl
      by_order false = refl

  -- MakeFriendRelationship gives nobody another name.
  pub name_of-linked :
      (small great k : ℕ) (m : UserManager) (d : Db)
      → name_of k (make_friend_relationship database small great m d).1.cached_users
        ≡ name_of k m.cached_users
  unfolding make_friend_relationship add_friend_to_user
  name_of-linked small great k m d =
      ground (arith, name_of-link_loop set_insert small great k false false m.cached_users)

  -- The two are friends, and nobody else's friendship has changed.
  pub linked :
      (me target x y : ℕ) (m : UserManager) (d : Db)
      → me ≢ target
      → IsWord me
      → IsWord target
      → present me m.cached_users ≡ true
      → present target m.cached_users ≡ true
      → (database.execute (sql_make_friends (smaller me target) (greater me target)) d).0 ≡ true
      → let r = make_friend_relationship database (smaller me target) (greater me target) m d in
        (r.0 ≡ true)
        × (is_friend x y r.1.cached_users ≡ (is_friend x y m.cached_users || is_pair me target x y))
  linked me target x y m d apart hm ht pm pt stored =
      ground (
        arith,
        make_friend_relationship_lem database (smaller me target) (greater me target) x y m d,
      )
