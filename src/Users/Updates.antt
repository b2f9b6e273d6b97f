-- ===== src/Users/Updates.antt =====
-- UpdateUserInfo and ModifyUserPassword: one user changes, in the fields that were asked for.
use my_project_imserver.Base.{
  ℕ, ◌≡◌, refl, Bool, true, false, ◌&&◌, List, [], ◌∷◌, Option, none, some, ◌==◌, if◌then◌else◌,
  arith, Bytes,
}
use my_project_imserver.Users.Types.{User}
use my_project_imserver.Users.Sql.{sql_modify_password}
use my_project_imserver.Users.Friends.{present}
use my_project_imserver.Users.Manager.{
  DbApi, UserManager, find_by_id, update_by_id, update_cache, modify_user_password,
}

abbrev pub mapped : (User → User) → Option User → Option User
mapped f none = none
mapped f (some u) = some (f u)

abbrev updated : ℕ → (User → User) → List User → List User
updated id f us = elim (update_by_id id f us) [ none ↦ us | some us' ↦ us' ]

abbrev is_some : Option (List User) → Bool
is_some none = false
is_some (some us) = true

module _ (id : ℕ) (f : User → User) (keeps : (u : User) → (f u).userid ≡ u.userid) where
  find_by_id-updated :
      (k : ℕ) (us : List User)
      → find_by_id k (updated id f us)
        ≡ (if k == id then mapped f (find_by_id k us) else find_by_id k us)
  unfolding find_by_id update_by_id
  find_by_id-updated k [] = ground arith
  find_by_id-updated k (u ∷ us) = ground (arith, keeps u, find_by_id-updated k us)

  update_by_id-present : (us : List User) → is_some (update_by_id id f us) ≡ present id us
  unfolding update_by_id
  update_by_id-present [] = refl
  update_by_id-present (u ∷ us) = ground (arith, update_by_id-present us)

  update_cache_lem :
      (k : ℕ) (m : UserManager)
      → ((update_cache id f m).0 ≡ present id m.cached_users)
        × (find_by_id k (update_cache id f m).1.cached_users ≡ (
            if k == id
            then mapped f (find_by_id k m.cached_users)
            else find_by_id k m.cached_users))
  unfolding update_cache
  update_cache_lem k m =
      ground (arith, find_by_id-updated k m.cached_users, update_by_id-present m.cached_users)

module _ (api : DbApi) where
  open api use {Db}

  -- So does ModifyUserPassword, for the password.
  pub modify_user_password_lem :
      (id k : ℕ) (password : Bytes) (m : UserManager) (db : Db)
      → let stored = (api.execute (sql_modify_password id password) db).0 in
        let r = modify_user_password api id password m db in
        (r.0 ≡ (stored && present id m.cached_users))
        × (find_by_id k r.1.cached_users ≡ (
            if stored && (k == id)
            then mapped (λ u. record u { password = password }) (find_by_id k m.cached_users)
            else find_by_id k m.cached_users))
  unfolding modify_user_password
  modify_user_password_lem id k password m db =
      ground (arith, update_cache_lem id (λ u. record u { password = password }) (λ u. refl) k m)
