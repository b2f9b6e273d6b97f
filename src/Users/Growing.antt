-- ===== src/Users/Growing.antt =====
-- The operations of class UserManager (EdoyumIMServer/UserManager.cpp) never take a user out of the cache.
use my_project_imserver.Base.{
  ℕ, ◌+◌, ◌%◌, ◌≡◌, refl, Bool, true, false, ◌||◌, List, [], ◌∷◌, ◌++◌, Option, none, some, ◌==◌,
  if◌then◌else◌, arith, Bytes,
}
use my_project_imserver.Users.Types.{User, set_insert, set_erase}
use my_project_imserver.Users.Manager.{
  DbApi, UserManager, find_by_name, update_by_id, with_info, new_group, link_loop, update_cache,
  add_friend_to_user, delete_friend_to_user, add_user, make_friend_relationship,
  release_friend_relationship, update_user_info, modify_user_password, add_group,
}
use my_project_imserver.Users.Friends.{present}

-- Whoever is cached before a call is cached behind it.
pub record Growing {Db A : Type 0} (f : UserManager → Db → A × UserManager × Db) : Type 0 where
  pub grows :
      (id : ℕ) (m : UserManager) (d : Db)
      → present id m.cached_users ≡ true
      → present id (f m d).1.cached_users ≡ true

present-snoc :
    (id : ℕ) (us : List User) (u : User) → present id us ≡ true → present id (us ++ u ∷ []) ≡ true
present-snoc id [] u h = cc
present-snoc id (v ∷ us) u h = ground (arith, present-snoc id us u)

present_linked :
    (op : ℕ → List ℕ → List ℕ) (a b id : ℕ) (found1 found2 : Bool) (us : List User)
    → present id (link_loop op a b found1 found2 us).0 ≡ present id us
unfolding link_loop
present_linked op a b id found1 found2 [] = refl
present_linked op a b id found1 found2 (u ∷ us) =
    ground
      (arith, present_linked op a b id ((u.userid == a) || found1) ((u.userid == b) || found2) us)

abbrev present_in : ℕ → List User → Option (List User) → Bool
present_in id us none = present id us
present_in id us (some vs) = present id vs

present-update_by_id :
    (id k : ℕ) (f : User → User) (us : List User)
    → ((u : User) → (f u).userid ≡ u.userid)
    → present_in id us (update_by_id k f us) ≡ present id us
unfolding update_by_id
present-update_by_id id k f [] h = refl
present-update_by_id id k f (u ∷ us) h = ground (arith, present-update_by_id id k f us h, h u)

present-update_cache :
    (id k : ℕ) (f : User → User) (m : UserManager)
    → ((u : User) → (f u).userid ≡ u.userid)
    → present id (update_cache k f m).1.cached_users ≡ present id m.cached_users
unfolding update_cache
present-update_cache id k f m h = ground (arith, present-update_by_id id k f m.cached_users h)

-- Who is found under a name is cached.
pub present-find_by_name :
    (name : Bytes) (us : List User) (u : User)
    → find_by_name name us ≡ some u
    → present u.userid us ≡ true
unfolding find_by_name
present-find_by_name name [] u e = cc
present-find_by_name name (v ∷ us) u e = ground (arith, present-find_by_name name us u)

pub same-Growing :
    {Db A : Type 0} (a : A) → Growing {Db = Db} (λ (m : UserManager) (d : Db). (a, m, d))
same-Growing a = record { grows = λ id m d h. h }

pub if-Growing :
    {Db A : Type 0} {f g : UserManager → Db → A × UserManager × Db} (b : Bool)
    → Growing f
    → Growing g
    → Growing (λ m d. if b then f m d else g m d)
if-Growing true p q = p
if-Growing false p q = q

module _ (api : DbApi) where
  open api use {Db}

  pub add_user-Growing : (u : User) → Growing (add_user api u)
  unfolding add_user
  add_user-Growing u = record {
    grows = λ id m d h.
        let new : User = record u {
          userid = (m.base_user_id + 1) % 0x1_0000_0000;
          facetype = 0;
          birthday = 20000101;
          gender = 0;
          ownerid = 0;
        } in
        ground (arith, present-snoc id m.cached_users new h);
  }

  pub add_group-Growing : (name : Bytes) (owner : ℕ) → Growing (add_group api name owner)
  unfolding add_group
  add_group-Growing name owner = record {
    grows = λ id m d h.
        let new = new_group ((m.base_group_id + 1) % 0x1_0000_0000) name owner in
        ground (arith, present-snoc id m.cached_users new h);
  }

  pub make_friend_relationship-Growing :
      (small great : ℕ) → Growing (make_friend_relationship api small great)
  unfolding make_friend_relationship add_friend_to_user
  make_friend_relationship-Growing small great = record {
    grows = λ id m d h.
        ground (arith, present_linked set_insert small great id false false m.cached_users);
  }

  pub release_friend_relationship-Growing :
      (small great : ℕ) → Growing (release_friend_relationship api small great)
  unfolding release_friend_relationship delete_friend_to_user
  release_friend_relationship-Growing small great = record {
    grows = λ id m d h.
        ground (arith, present_linked set_erase small great id false false m.cached_users);
  }

  pub update_user_info-Growing : (k : ℕ) (new : User) → Growing (update_user_info api k new)
  unfolding update_user_info with_info
  update_user_info-Growing k new = record {
    grows = λ id m d h. ground (arith, present-update_cache id k (with_info new) m (λ u. refl));
  }

  pub modify_user_password-Growing :
      (k : ℕ) (password : Bytes) → Growing (modify_user_password api k password)
  unfolding modify_user_password
  modify_user_password-Growing k password = record {
    grows = λ id m d h.
        ground
          (arith, present-update_cache id k (λ u. record u { password = password }) m (λ u. refl));
  }

-- The rules for the calls of the manager in a handler.
pub ruleset growing = (
  same-Growing, if-Growing, add_user-Growing, add_group-Growing, make_friend_relationship-Growing,
  release_friend_relationship-Growing, update_user_info-Growing, modify_user_password-Growing,
)
