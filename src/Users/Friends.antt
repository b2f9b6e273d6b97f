-- ===== src/Users/Friends.antt =====
-- What AddFriendToUser and DeleteFriendToUser do to the relation between users.
use my_project_imserver.Base.{
  ℕ, ◌≡◌, ◌≢◌, refl, ap, ◌∙◌, Bool, true, false, not, ◌&&◌, ◌||◌, List, [], ◌∷◌, Option, none, some,
  ◌==◌, slt, if◌then◌else◌, arith,
}
use my_project_imserver.Users.Types.{
  User, set_insert, set_erase, contains, contains-set_insert, contains-set_erase,
}
use my_project_imserver.Users.Sql.{sql_make_friends, sql_release_friends}
use my_project_imserver.Users.Manager.{
  DbApi, UserManager, link_loop, add_friend_to_user, delete_friend_to_user,
  make_friend_relationship, release_friend_relationship,
}

-- The friend set of the first user with an id.
abbrev pub friends_of : ℕ → List User → Option (List ℕ)
friends_of k [] = none
friends_of k (u ∷ us) = if u.userid == k then some u.friends else friends_of k us

abbrev pub present : ℕ → List User → Bool
present k [] = false
present k (u ∷ us) = (u.userid == k) || present k us

-- `y` is in the friend set of `x`.
abbrev pub is_member : ℕ → Option (List ℕ) → Bool
is_member y none = false
is_member y (some s) = contains y s

abbrev pub is_friend : ℕ → ℕ → List User → Bool
is_friend x y us = is_member y (friends_of x us)

abbrev changed : (List ℕ → List ℕ) → Option (List ℕ) → Option (List ℕ)
changed f none = none
changed f (some s) = some (f s)

module _ (op : ℕ → List ℕ → List ℕ) (a b : ℕ) (apart : a ≢ b) where
  friends_of-link_loop_a :
      (found2 : Bool) (us : List User)
      → friends_of a (link_loop op a b false found2 us).0 ≡ changed (op b) (friends_of a us)
  unfolding link_loop
  friends_of-link_loop_a found2 [] = refl
  friends_of-link_loop_a found2 (u ∷ us) =
      ground (arith, friends_of-link_loop_a ((u.userid == b) || found2) us)

  friends_of-link_loop_b :
      (found1 : Bool) (us : List User)
      → friends_of b (link_loop op a b found1 false us).0 ≡ changed (op a) (friends_of b us)
  unfolding link_loop
  friends_of-link_loop_b found1 [] = refl
  friends_of-link_loop_b found1 (u ∷ us) =
      ground (arith, friends_of-link_loop_b ((u.userid == a) || found1) us)

  friends_of-link_loop_ne :
      (k : ℕ) (found1 found2 : Bool) (us : List User)
      → k ≢ a
      → k ≢ b
      → friends_of k (link_loop op a b found1 found2 us).0 ≡ friends_of k us
  unfolding link_loop
  friends_of-link_loop_ne k found1 found2 [] ha hb = refl
  friends_of-link_loop_ne k found1 found2 (u ∷ us) ha hb =
      ground (
        arith,
        friends_of-link_loop_ne k ((u.userid == a) || found1) ((u.userid == b) || found2) us,
      )

  present-link_loop :
      (k : ℕ) (found1 found2 : Bool) (us : List User)
      → present k (link_loop op a b found1 found2 us).0 ≡ present k us
  unfolding link_loop
  present-link_loop k found1 found2 [] = refl
  present-link_loop k found1 found2 (u ∷ us) =
      ground (arith, present-link_loop k ((u.userid == a) || found1) ((u.userid == b) || found2) us)

  -- The loop reports whether both users are there.
  link_loop_found :
      (found1 found2 : Bool) (us : List User)
      → (found1 && found2) ≡ false
      → (link_loop op a b found1 found2 us).1
        ≡ ((found1 || present a us) && (found2 || present b us))
  unfolding link_loop
  link_loop_found found1 found2 [] h = ground arith
  link_loop_found found1 found2 (u ∷ us) h =
      ground (arith, link_loop_found ((u.userid == a) || found1) ((u.userid == b) || found2) us)

abbrev pub is_pair : ℕ → ℕ → ℕ → ℕ → Bool
is_pair a b x y = ((x == a) && (y == b)) || ((x == b) && (y == a))

present-friends_of :
    (k : ℕ) (us : List User)
    → present k us ≡ elim (friends_of k us) [ none ↦ false | some s ↦ true ]
present-friends_of k [] = refl
present-friends_of k (u ∷ us) = ground (arith, present-friends_of k us)

module _ (op : ℕ → List ℕ → List ℕ) (a b : ℕ) (apart : a ≢ b) where
  friends_of-link :
      (k : ℕ) (us : List User)
      → friends_of k (link_loop op a b false false us).0 ≡ (
          if k == a
          then changed (op b) (friends_of k us)
          else if k == b
          then changed (op a) (friends_of k us)
          else friends_of k us)
  friends_of-link k us = ground (
    arith,
    friends_of-link_loop_a op a b apart false us,
    friends_of-link_loop_b op a b apart false us,
    friends_of-link_loop_ne op a b apart k false false us,
  )

linked-insert :
    (a b x y : ℕ) (o : Option (List ℕ))
    → a ≢ b
    → is_member y (
        if x == a then changed (set_insert b) o else if x == b then changed (set_insert a) o else o)
      ≡ (is_member y o || (elim o [ none ↦ false | some s ↦ true ] && is_pair a b x y))
linked-insert a b x y none h = ground arith
linked-insert a b x y (some s) h =
    ground (arith, contains-set_insert y b s, contains-set_insert y a s)

linked-erase :
    (a b x y : ℕ) (o : Option (List ℕ))
    → a ≢ b
    → is_member y
        (if x == a then changed (set_erase b) o else if x == b then changed (set_erase a) o else o)
      ≡ (is_member y o && not (is_pair a b x y))
linked-erase a b x y none h = ground arith
linked-erase a b x y (some s) h = ground (arith, contains-set_erase y b s, contains-set_erase y a s)

-- AddFriendToUser puts the two in each other's friend set where they are cached, changes nothing
-- else in the relation, and reports whether both are cached.
pub add_friend_to_user_lem :
    (a b x y : ℕ) (m : UserManager)
    → a ≢ b
    → (is_friend x y (add_friend_to_user a b m).1.cached_users
        ≡ (is_friend x y m.cached_users || (present x m.cached_users && is_pair a b x y)))
      × (present x (add_friend_to_user a b m).1.cached_users ≡ present x m.cached_users)
      × ((add_friend_to_user a b m).0 ≡ (present a m.cached_users && present b m.cached_users))
unfolding add_friend_to_user
add_friend_to_user_lem a b x y m h =
    let us = m.cached_users in
    (
      ap (is_member y) (friends_of-link set_insert a b h x us)
          ∙ linked-insert a b x y (friends_of x us) h
          ∙ rw present-friends_of refl,
      present-link_loop set_insert a b h x false false us,
      link_loop_found set_insert a b h false false us refl,
    )

-- DeleteFriendToUser takes the two out of each other's friend set, changes nothing else in the
-- relation, and reports whether both are cached.
pub delete_friend_to_user_lem :
    (a b x y : ℕ) (m : UserManager)
    → a ≢ b
    → (is_friend x y (delete_friend_to_user a b m).1.cached_users
        ≡ (is_friend x y m.cached_users && not (is_pair a b x y)))
      × (present x (delete_friend_to_user a b m).1.cached_users ≡ present x m.cached_users)
      × ((delete_friend_to_user a b m).0 ≡ (present a m.cached_users && present b m.cached_users))
unfolding delete_friend_to_user
delete_friend_to_user_lem a b x y m h =
    let us = m.cached_users in
    (
      ap (is_member y) (friends_of-link set_erase a b h x us)
          ∙ linked-erase a b x y (friends_of x us) h,
      present-link_loop set_erase a b h x false false us,
      link_loop_found set_erase a b h false false us refl,
    )

-- Friendship is mutual between cached users.
abbrev pub IsMutual : UserManager → Type 0
IsMutual m =
    (x y : ℕ)
    → present x m.cached_users ≡ true
    → present y m.cached_users ≡ true
    → is_friend x y m.cached_users ≡ is_friend y x m.cached_users

module _ (api : DbApi) where
  open api use {Db}

  -- MakeFriendRelationship keeps friendship mutual between the cached users, whatever it reports.
  pub make_friend_relationship-IsMutual :
      (small great : ℕ) (m : UserManager) (db : Db)
      → IsMutual m
      → IsMutual (make_friend_relationship api small great m db).1
  unfolding make_friend_relationship
  make_friend_relationship-IsMutual small great m db v x y = ground (
    arith,
    add_friend_to_user_lem small great x y m,
    add_friend_to_user_lem small great y x m,
    v x y,
  )

  -- ReleaseFriendRelationship keeps friendship mutual between the cached users, whatever it
  -- reports.
  pub release_friend_relationship-IsMutual :
      (small great : ℕ) (m : UserManager) (db : Db)
      → IsMutual m
      → IsMutual (release_friend_relationship api small great m db).1
  unfolding release_friend_relationship
  release_friend_relationship-IsMutual small great m db v x y = ground (
    arith,
    delete_friend_to_user_lem small great x y m,
    delete_friend_to_user_lem small great y x m,
    v x y,
  )

  -- MakeFriendRelationship and ReleaseFriendRelationship keep friendship mutual between the
  -- cached users, whatever they report.
  pub relationship-IsMutual :
      (small great : ℕ) (m : UserManager) (db : Db)
      → IsMutual m
      → IsMutual (make_friend_relationship api small great m db).1
        × IsMutual (release_friend_relationship api small great m db).1
  relationship-IsMutual small great m db v = (
    make_friend_relationship-IsMutual small great m db v,
    release_friend_relationship-IsMutual small great m db v,
  )

  -- For any two ids and any answer of the database, MakeFriendRelationship succeeds exactly if
  -- the first id is smaller, the statement succeeds and both users are cached; and where the
  -- statement succeeds, each of the two who is cached gets the other as a friend, and no other
  -- friendship changes.
  pub make_friend_relationship_lem :
      (small great x y : ℕ) (m : UserManager) (db : Db)
      → let stored = slt small great && (api.execute (sql_make_friends small great) db).0 in
        let r = make_friend_relationship api small great m db in
        (r.0 ≡ (stored && (present small m.cached_users && present great m.cached_users)))
        × (is_friend x y r.1.cached_users ≡ (
            is_friend x y m.cached_users
            || (stored && (present x m.cached_users && is_pair small great x y))))
  unfolding make_friend_relationship
  make_friend_relationship_lem small great x y m db =
      ground (arith, add_friend_to_user_lem small great x y m)

  -- For any two ids and any answer of the database, ReleaseFriendRelationship succeeds exactly if
  -- the first id is smaller, the statement succeeds and both users are cached; and where the
  -- statement succeeds, the two are no friends any more, and no other friendship changes.
  pub release_friend_relationship_lem :
      (small great x y : ℕ) (m : UserManager) (db : Db)
      → let stored = slt small great && (api.execute (sql_release_friends small great) db).0 in
        let r = release_friend_relationship api small great m db in
        (r.0 ≡ (stored && (present small m.cached_users && present great m.cached_users)))
        × (is_friend x y r.1.cached_users
            ≡ (is_friend x y m.cached_users && not (stored && is_pair small great x y)))
  unfolding release_friend_relationship
  release_friend_relationship_lem small great x y m db =
      ground (arith, delete_friend_to_user_lem small great x y m)
