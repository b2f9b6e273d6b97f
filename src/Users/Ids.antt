-- ===== src/Users/Ids.antt =====
-- The ids that AddUser and AddGroup give out.
use my_project_imserver.Base.{
  ℕ, suc, ◌+◌, ◌%◌, ◌≤◌, ◌<◌, ◌≡◌, ◌≢◌, ◌⊎◌, refl, sym, true, false, ◌&&◌, List, [], ◌∷◌, ◌++◌, All,
  none, some, ◌==◌, if◌then◌else◌, arith, Bytes, Bool-cases, inl, inr,
}
use my_project_imserver.Users.Types.{User, groupid_boundary, is_group}
use my_project_imserver.Users.Sql.{sql_add_user, sql_add_group}
use my_project_imserver.Users.Manager.{
  DbApi, UserManager, new_manager, find_by_id, new_group, add_user, add_group,
}
use my_project_imserver.Base.{c_text}

-- An id is a user's, given out so far, or a group's, given out so far.
abbrev pub IsIssued : ℕ → ℕ → User → Type 0
IsIssued top_user top_group u =
    ((1 ≤ u.userid) × (u.userid ≤ top_user))
    ⊎ ((suc groupid_boundary ≤ u.userid) × (u.userid ≤ top_group))

abbrev pub Distinct : List User → Type 0
Distinct [] = Unit {0}
Distinct (u ∷ us) = All (λ v. v.userid ≢ u.userid) us × Distinct us

pub record IsValid (m : UserManager) : Type 0 where
  pub issued : All (IsIssued m.base_user_id m.base_group_id) m.cached_users
  pub distinct : Distinct m.cached_users
  pub user_room : m.base_user_id < groupid_boundary
  pub group_room : (groupid_boundary ≤ m.base_group_id) × (m.base_group_id < 0x8000_0000)

IsIssued-mono :
    (a b c d : ℕ) (us : List User) → a ≤ c → b ≤ d → All (IsIssued a b) us → All (IsIssued c d) us
IsIssued-mono a b c d [] h k p = tt
IsIssued-mono a b c d (u ∷ us) h k (p, ps) = (grind arith, IsIssued-mono a b c d us h k ps)

All-snoc {ℓ} :
    (P : User → Type ℓ) (us : List User) (u : User) → All P us → P u → All P (us ++ u ∷ [])
All-snoc P [] u p q = (q, tt)
All-snoc P (v ∷ us) u (p, ps) q = (p, All-snoc P us u ps q)

Distinct-snoc :
    (us : List User) (u : User)
    → Distinct us
    → All (λ v. v.userid ≢ u.userid) us
    → Distinct (us ++ u ∷ [])
Distinct-snoc [] u p q = (tt, tt)
Distinct-snoc (v ∷ us) u (p, ps) (q, qs) =
    (All-snoc _ us u p (λ e. q (sym e)), Distinct-snoc us u ps qs)

fresh :
    (a b k : ℕ) (us : List User)
    → ((a < k) × (k < suc groupid_boundary))
      ⊎ ((b < k) × (a ≤ groupid_boundary) × (groupid_boundary < k))
    → All (IsIssued a b) us
    → All (λ v. v.userid ≢ k) us
fresh a b k [] h p = tt
fresh a b k (u ∷ us) h (p, ps) = (grind arith, fresh a b k us h ps)

find_by_id-snoc :
    (k : ℕ) (us : List User) (u : User)
    → All (λ v. v.userid ≢ u.userid) us
    → find_by_id k (us ++ u ∷ []) ≡ (if u.userid == k then some u else find_by_id k us)
unfolding find_by_id
find_by_id-snoc k [] u p = refl
find_by_id-snoc k (v ∷ us) u (p, ps) = ground (arith, find_by_id-snoc k us u ps)

pub new_manager-IsValid : IsValid new_manager
unfolding new_manager
new_manager-IsValid = record {
  issued = tt;
  distinct = tt;
  user_room = omega arith;
  group_room = omega arith;
}

advanced :
    (a b : ℕ) (m : UserManager)
    → IsValid m
    → m.base_user_id ≤ a
    → m.base_group_id ≤ b
    → a < groupid_boundary
    → b < 0x8000_0000
    → IsValid (record m { base_user_id = a; base_group_id = b })
advanced a b m v ha hb ra rb = record {
  issued = IsIssued-mono _ _ a b m.cached_users ha hb v.issued;
  distinct = v.distinct;
  user_room = ra;
  group_room = omega arith;
}

appended :
    (u : User) (m : UserManager)
    → IsValid m
    → IsIssued m.base_user_id m.base_group_id u
    → All (λ v. v.userid ≢ u.userid) m.cached_users
    → IsValid (record m { cached_users = m.cached_users ++ u ∷ [] })
appended u m v h apart = record {
  issued = All-snoc _ m.cached_users u v.issued h;
  distinct = Distinct-snoc m.cached_users u v.distinct apart;
  user_room = v.user_room;
  group_room = v.group_room;
}

-- The ids that the next AddUser and AddGroup use.
abbrev pub next_user_id : UserManager → ℕ
next_user_id m = (m.base_user_id + 1) % 0x1_0000_0000

abbrev pub next_group_id : UserManager → ℕ
next_group_id m = (m.base_group_id + 1) % 0x1_0000_0000

next_user_fresh :
    (m : UserManager)
    → IsValid m
    → m.base_user_id + 1 < groupid_boundary
    → All (λ v. v.userid ≢ next_user_id m) m.cached_users
next_user_fresh m v room = fresh _ _ (next_user_id m) m.cached_users (inl (omega arith)) v.issued

next_group_fresh :
    (m : UserManager)
    → IsValid m
    → m.base_group_id + 1 < 0x8000_0000
    → All (λ v. v.userid ≢ next_group_id m) m.cached_users
next_group_fresh m v room = fresh _ _ (next_group_id m) m.cached_users (inr (omega arith)) v.issued

find_by_id-apart : (k : ℕ) (us : List User) → All (λ v. v.userid ≢ k) us → find_by_id k us ≡ none
unfolding find_by_id
find_by_id-apart k [] p = refl
find_by_id-apart k (u ∷ us) (p, ps) = ground (arith, find_by_id-apart k us ps)

module _ (api : DbApi) where
  open api use {Db}

  -- While user ids stay below the group boundary, AddUser keeps the ids of the cache distinct and
  -- each within the range of users or of groups that has been issued, whatever the database
  -- answers.
  pub add_user-IsValid :
      (u : User) (m : UserManager) (db : Db)
      → IsValid m
      → m.base_user_id + 1 < groupid_boundary
      → IsValid (add_user api u m db).1
  unfolding add_user
  add_user-IsValid u m db v room =
      elim (Bool-cases (api.execute (sql_add_user (next_user_id m) u) db).0) [
        | inl ok ↦
            rw (ok, add_user) (appended _ _ grown (inl (omega arith)) (next_user_fresh m v room))
        | inr bad ↦ rw (bad, add_user) grown
      ]
    where
      grown : IsValid (record m { base_user_id = next_user_id m })
      grown =
          advanced (next_user_id m) m.base_group_id m v (omega arith) (omega arith) (omega arith)
            (omega (arith, v.group_room))

  -- While group ids stay positive as int32_t, AddGroup keeps the ids of the cache distinct and
  -- each within the range that has been issued, whatever the database answers.
  pub add_group-IsValid :
      (groupname : Bytes) (ownerid : ℕ) (m : UserManager) (db : Db)
      → IsValid m
      → m.base_group_id + 1 < 0x8000_0000
      → IsValid (add_group api groupname ownerid m db).1
  unfolding add_group
  add_group-IsValid groupname ownerid m db v room =
      elim (Bool-cases
        (api.execute (sql_add_group (next_group_id m) (c_text groupname) ownerid) db).0) [
          | inl ok ↦
              rw (ok, add_group)
                (appended _ _ grown (inr (omega (arith, v.group_room))) (next_group_fresh m v room))
          | inr bad ↦ rw (bad, add_group) grown
        ]
    where
      grown : IsValid (record m { base_group_id = next_group_id m })
      grown =
          advanced m.base_user_id (next_group_id m) m v (omega arith) (omega arith) (omega arith)
            (omega (arith, v.group_room))

  -- While user ids stay below the group boundary and group ids positive as int32_t, AddUser and
  -- AddGroup keep the ids of the cache distinct and each within the range of users or of groups
  -- that has been issued, whatever the database answers.
  pub added-IsValid :
      (u : User) (groupname : Bytes) (ownerid : ℕ) (m : UserManager) (db : Db)
      → IsValid m
      → m.base_user_id + 1 < groupid_boundary
      → m.base_group_id + 1 < 0x8000_0000
      → IsValid (add_user api u m db).1 × IsValid (add_group api groupname ownerid m db).1
  added-IsValid u groupname ownerid m db v ru rg =
      (add_user-IsValid u m db v ru, add_group-IsValid groupname ownerid m db v rg)

  -- In a valid cache with room for a user id, AddUser reports what the database answers; a stored
  -- user is found under the next id, which nobody had and which is no group's, with the fields of
  -- a new account; and every other id is looked up as before.
  pub add_user_lem :
      (k : ℕ) (u : User) (m : UserManager) (db : Db)
      → IsValid m
      → m.base_user_id + 1 < groupid_boundary
      → let r = add_user api u m db in
        let id = next_user_id m in
        (find_by_id k r.1.cached_users ≡ (
          if r.0 && (id == k)
          then some
              (record u { userid = id; facetype = 0; birthday = 20000101; gender = 0; ownerid = 0 })
          else find_by_id k m.cached_users))
        × (find_by_id id m.cached_users ≡ none)
        × (is_group id ≡ false)
        × (r.0 ≡ (api.execute (sql_add_user id u) db).0)
  unfolding add_user
  add_user_lem k u m db v room =
      let apart = next_user_fresh m v room in
      let new : User = record u {
        userid = next_user_id m;
        facetype = 0;
        birthday = 20000101;
        gender = 0;
        ownerid = 0;
      } in
      (
        ground (arith, find_by_id-snoc k m.cached_users new apart),
        find_by_id-apart (next_user_id m) m.cached_users apart,
        ground arith,
        ground arith,
      )

  -- In a valid cache with room for a group id, AddGroup reports the next id exactly if the
  -- database takes the group; the group is then found under that id, which nobody had and which
  -- is a group's; and every other id is looked up as before.
  pub add_group_lem :
      (k : ℕ) (groupname : Bytes) (ownerid : ℕ) (m : UserManager) (db : Db)
      → IsValid m
      → m.base_group_id + 1 < 0x8000_0000
      → let r = add_group api groupname ownerid m db in
        let id = next_group_id m in
        let stored = (api.execute (sql_add_group id (c_text groupname) ownerid) db).0 in
        (r.0 ≡ (if stored then some id else none))
        × (find_by_id k r.1.cached_users ≡ (
            if stored && (id == k)
            then some (new_group id groupname ownerid)
            else find_by_id k m.cached_users))
        × (find_by_id id m.cached_users ≡ none)
        × (is_group id ≡ true)
  unfolding add_group
  add_group_lem k groupname ownerid m db v room =
      let apart = next_group_fresh m v room in
      let new = new_group (next_group_id m) groupname ownerid in
      (
        ground arith,
        ground (arith, find_by_id-snoc k m.cached_users new apart),
        find_by_id-apart (next_group_id m) m.cached_users apart,
        ground arith,
      )
