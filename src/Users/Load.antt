-- ===== src/Users/Load.antt =====
-- UserManager::Init, LoadUserFromDB and LoadRelationshipFromDB.
-- A result with no row has been ended by its constructor (EdoyumIMServer/QueryResult.cpp): `Fetch`
-- then gives a pointer to destroyed fields, so the loops read them; the model answers `none`, as it
-- does for a missing column. `atoi` is the C library's.
use my_project_imserver.Base.{
  ℕ, Bool, true, false, List, [], ◌∷◌, ◌++◌, Option, none, some, ◌==◌, slt, if◌then◌else◌, Bytes,
  get_elem?,
}
use my_project_imserver.Users.Types.{User, new_user, set_insert}
use my_project_imserver.Users.Sql.{sql_load_users, sql_load_relations}
use my_project_imserver.Users.Manager.{DbApi, UserManager}

infixl 5 ◌>>=◌
abbrev ◌>>=◌ {ℓ κ} : {A : Type ℓ} {B : Type κ} → Option A → (A → Option B) → Option B
none >>= f = none
some a >>= f = f a

-- `push_back`, and the largest id so far.
unfoldable pub add_loaded : User → UserManager → UserManager
add_loaded u m = record m {
  cached_users = m.cached_users ++ u ∷ [];
  base_user_id = if slt m.base_user_id u.userid then u.userid else m.base_user_id;
}

module _ (atoi : Bytes → ℕ) where
  -- One row of `sql_load_users`.
  unfoldable pub load_row : List Bytes → Option User
  load_row row = do
    id ← get_elem? row 0
    username ← get_elem? row 1
    nickname ← get_elem? row 2
    password ← get_elem? row 3
    facetype ← get_elem? row 4
    customface ← get_elem? row 5
    gender ← get_elem? row 6
    birthday ← get_elem? row 7
    signature ← get_elem? row 8
    address ← get_elem? row 9
    phonenumber ← get_elem? row 10
    mail ← get_elem? row 11
    some (record new_user {
      userid = atoi id;
      username = username;
      nickname = nickname;
      password = password;
      facetype = atoi facetype;
      customface = customface;
      gender = atoi gender;
      birthday = atoi birthday;
      signature = signature;
      address = address;
      phonenumber = phonenumber;
      mail = mail;
    })

  unfoldable pub load_rows : List (List Bytes) → UserManager → Option UserManager
  load_rows [] m = some m
  load_rows (row ∷ rows) m = load_row row >>= λ u. load_rows rows (add_loaded u m)

  -- The rows of `sql_load_relations` for a user: the other id of each.
  unfoldable pub load_relations : ℕ → List (List Bytes) → List ℕ → Option (List ℕ)
  load_relations userid [] friends = some friends
  load_relations userid (row ∷ rows) friends = do
    first ← get_elem? row 0
    second ← get_elem? row 1
    let other = if atoi first == userid then atoi second else atoi first
    load_relations userid rows (set_insert other friends)

  module _ (api : DbApi) where
    open api use {Db, query}

    unfoldable pub load_user_from_db : UserManager → Db → Option (Bool × UserManager × Db)
    load_user_from_db m db =
        let (rows, db') = query sql_load_users db in
        elim rows [
          | none ↦ some (false, m, db')
          | some [] ↦ none
          | some (row ∷ more) ↦ load_rows (row ∷ more) m >>= λ m'. some (true, m', db')
        ]

    unfoldable pub load_relationship_from_db : ℕ → List ℕ → Db → Option (Bool × List ℕ × Db)
    load_relationship_from_db userid friends db =
        let (rows, db') = query (sql_load_relations userid) db in
        elim rows [
          | none ↦ some (false, friends, db')
          | some [] ↦ none
          | some (row ∷ more) ↦
              load_relations userid (row ∷ more) friends >>= λ friends'. some (true, friends', db')
        ]

    -- A failed query for one user is only reported.
    unfoldable pub load_all_relations : List User → Db → Option (List User × Db)
    load_all_relations [] db = some ([], db)
    load_all_relations (u ∷ us) db = do
      (ok, friends, db1) ← load_relationship_from_db u.userid u.friends db
      (us', db2) ← load_all_relations us db1
      some (record u { friends = friends } ∷ us', db2)

    unfoldable pub init : UserManager → Db → Option (Bool × UserManager × Db)
    init m db = do
      (ok, m1, db1) ← load_user_from_db m db
      elim ok [
        | false ↦ some (false, m1, db1)
        | true ↦ do
          (us, db2) ← load_all_relations m1.cached_users db1
          some (true, record m1 { cached_users = us }, db2)
      ]
