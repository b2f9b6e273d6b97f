-- ===== src/Users/Manager.antt =====
-- The operations of class UserManager (EdoyumIMServer/UserManager.cpp) on its cache and the database.
-- The mutex is left out: one event loop makes all the calls.
use my_project_imserver.Base.{
  c_text, ℕ, ◌+◌, ◌%◌, Bool, true, false, not, ◌&&◌, ◌||◌, List, [], ◌∷◌, ◌++◌, Option, none, some,
  ◌==◌, slt, if◌then◌else◌, Bytes, bytes_eq, show_int, take,
}
use my_project_imserver.Users.Types.{User, new_user, set_insert, set_erase}
use my_project_imserver.Users.Sql.{
  sql_add_user, sql_make_friends, sql_release_friends, sql_update_user, sql_modify_password,
  sql_add_group, sql_save_chat,
}

-- What the managers ask of the database: a statement either succeeds or fails; a query fails, or
-- gives rows of texts (empty for NULL).
pub record DbApi : Type 1 where
  pub Db : Type 0
  pub execute : Bytes → Db → Bool × Db
  pub query : Bytes → Db → Option (List (List Bytes)) × Db

-- `m_mapUsers`, which nothing fills, is left out with its reader GetUserByID.
pub record UserManager : Type 0 where
  pub cached_users : List User
  pub base_user_id : ℕ
  pub base_group_id : ℕ

unfoldable pub new_manager : UserManager
new_manager = record { cached_users = []; base_user_id = 0; base_group_id = 0x0fff_ffff }

-- The first user in the list with an id, and with a name.
unfoldable pub find_by_id : ℕ → List User → Option User
find_by_id id [] = none
find_by_id id (u ∷ us) = if u.userid == id then some u else find_by_id id us

unfoldable pub find_by_name : Bytes → List User → Option User
find_by_name name [] = none
find_by_name name (u ∷ us) = if bytes_eq u.username name then some u else find_by_name name us

-- The first user with an id changed; none if there is no such user.
unfoldable pub update_by_id : ℕ → (User → User) → List User → Option (List User)
update_by_id id f [] = none
update_by_id id f (u ∷ us) =
    let rest = update_by_id id f us in
    if u.userid == id
    then some (f u ∷ us)
    else elim rest [ none ↦ none | some us' ↦ some (u ∷ us') ]

unfoldable pub get_user_info_by_username : Bytes → UserManager → Option User
get_user_info_by_username name m = find_by_name name m.cached_users

unfoldable pub get_user_info_by_user_id : ℕ → UserManager → Option User
get_user_info_by_user_id id m = find_by_id id m.cached_users

-- The users in the friend set of the first user with the id; those that are not cached are skipped.
unfoldable pub collect_users : List ℕ → List User → List User
collect_users [] us = []
collect_users (id ∷ ids) us =
    let rest = collect_users ids us in elim (find_by_id id us) [ none ↦ rest | some u ↦ u ∷ rest ]

unfoldable pub get_friend_info_by_user_id : ℕ → UserManager → List User
get_friend_info_by_user_id id m = elim (find_by_id id m.cached_users) [
  | none ↦ []
  | some u ↦ collect_users u.friends m.cached_users
]

-- The loop of AddFriendToUser and DeleteFriendToUser, which differ in the operation on the set. It
-- stops when both users have been met, and reports whether they were.
unfoldable pub link_user : (ℕ → List ℕ → List ℕ) → ℕ → ℕ → User → User
link_user op a b u =
    let u1 = if u.userid == a then record u { friends = op b u.friends } else u in
    if u1.userid == b then record u1 { friends = op a u1.friends } else u1

unfoldable pub link_loop :
    (ℕ → List ℕ → List ℕ) → ℕ → ℕ → Bool → Bool → List User → List User × Bool
unfolding link_user
link_loop op a b found1 found2 [] = ([], false)
link_loop op a b found1 found2 (u ∷ us) =
    let found1' = (u.userid == a) || found1 in
    let found2' = (u.userid == b) || found2 in
    let rest = link_loop op a b found1' found2' us in
    if found1' && found2'
    then (link_user op a b u ∷ us, true)
    else (link_user op a b u ∷ rest.0, rest.1)

unfoldable pub add_friend_to_user : ℕ → ℕ → UserManager → Bool × UserManager
add_friend_to_user a b m =
    let (us, found) = link_loop set_insert a b false false m.cached_users in
    (found, record m { cached_users = us })

unfoldable pub delete_friend_to_user : ℕ → ℕ → UserManager → Bool × UserManager
delete_friend_to_user a b m =
    let (us, found) = link_loop set_erase a b false false m.cached_users in
    (found, record m { cached_users = us })

-- The fields that UpdateUserInfo copies.
unfoldable pub with_info : User → User → User
with_info new u = record u {
  nickname = new.nickname;
  facetype = new.facetype;
  customface = new.customface;
  gender = new.gender;
  birthday = new.birthday;
  signature = new.signature;
  address = new.address;
  phonenumber = new.phonenumber;
  mail = new.mail;
}

-- The end of UpdateUserInfo and ModifyUserPassword: the change in the cache.
unfoldable pub update_cache : ℕ → (User → User) → UserManager → Bool × UserManager
update_cache id f m = elim (update_by_id id f m.cached_users) [
  | none ↦ (false, m)
  | some us ↦ (true, record m { cached_users = us })
]

-- The user that stands for a group; its name is its id in decimal.
abbrev pub new_group : ℕ → Bytes → ℕ → User
new_group id groupname ownerid = record new_user {
  userid = id;
  username = take 11 (show_int id);
  nickname = c_text groupname;
  ownerid = ownerid;
}

module _ (api : DbApi) where
  open api use {Db, execute}

  unfoldable pub add_user : User → UserManager → Db → Bool × UserManager × Db
  add_user user m db =
      let id = (m.base_user_id + 1) % 0x1_0000_0000 in
      let m1 = record m { base_user_id = id } in
      let (ok, db') = execute (sql_add_user id user) db in
      let user' = record user {
        userid = id;
        facetype = 0;
        birthday = 20000101;
        gender = 0;
        ownerid = 0;
      } in
      if ok
      then (true, record m1 { cached_users = m.cached_users ++ user' ∷ [] }, db')
      else (false, m1, db')

  unfoldable pub make_friend_relationship : ℕ → ℕ → UserManager → Db → Bool × UserManager × Db
  make_friend_relationship small great m db =
      let (ok, db') = execute (sql_make_friends small great) db in
      let (found, m') = add_friend_to_user small great m in
      if not (slt small great)
      then (false, m, db)
      else if ok
      then (found, m', db')
      else (false, m, db')

  unfoldable pub release_friend_relationship : ℕ → ℕ → UserManager → Db → Bool × UserManager × Db
  release_friend_relationship small great m db =
      let (ok, db') = execute (sql_release_friends small great) db in
      let (found, m') = delete_friend_to_user small great m in
      if not (slt small great)
      then (false, m, db)
      else if ok
      then (found, m', db')
      else (false, m, db')

  unfoldable pub update_user_info : ℕ → User → UserManager → Db → Bool × UserManager × Db
  update_user_info id new m db =
      let (ok, db') = execute (sql_update_user id new) db in
      let (found, m') = update_cache id (with_info new) m in
      if ok then (found, m', db') else (false, m, db')

  unfoldable pub modify_user_password : ℕ → Bytes → UserManager → Db → Bool × UserManager × Db
  modify_user_password id password m db =
      let (ok, db') = execute (sql_modify_password id password) db in
      let (found, m') = update_cache id (λ u. record u { password = password }) m in
      if ok then (found, m', db') else (false, m, db')

  -- The id of the group comes with a success.
  unfoldable pub add_group : Bytes → ℕ → UserManager → Db → Option ℕ × UserManager × Db
  add_group groupname ownerid m db =
      let id = (m.base_group_id + 1) % 0x1_0000_0000 in
      let name = c_text groupname in
      let m1 = record m { base_group_id = id } in
      let (ok, db') = execute (sql_add_group id name ownerid) db in
      if ok
      then (
        some id,
        record m1 { cached_users = m.cached_users ++ new_group id groupname ownerid ∷ [] },
        db',
      )
      else (none, m1, db')

  unfoldable pub save_chat_msg_to_db : ℕ → ℕ → Bytes → Db → Bool × Db
  save_chat_msg_to_db sender target msg db = execute (sql_save_chat sender target msg) db
