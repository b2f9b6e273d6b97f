-- ===== src/Database/Refinement.antt =====
-- UserManager (EdoyumIMServer/UserManager.cpp) reads its rows through the cursor of QueryResult
-- (EdoyumIMServer/QueryResult.cpp): the functions of Users/Load, which take the rows as a list, say
-- what that comes to.
use my_project_imserver.Base.{
  ℕ, suc, ◌≤◌, ◌≡◌, refl, ◌∙◌, ap, Bool, true, List, [], ◌∷◌, map, Option, none, some, length,
  Bytes, Option-cases, inl, inr,
}
use my_project_imserver.Users.Types.{User}
use my_project_imserver.Users.Manager.{DbApi, UserManager}
use my_project_imserver.Users.Load.{
  add_loaded, load_row, load_rows, load_relations, load_user_from_db, load_relationship_from_db,
}
use my_project_imserver.Database.Client.{MysqlApi, ServesRows}
use my_project_imserver.Database.Cursor.{new_query_result}
use my_project_imserver.Database.Loading.{over_result, add_row, add_relation}
use my_project_imserver.Database.Rows.{texts, folded, drained, verdict, over_result-drained}

-- A database that answers every query with these rows.
abbrev pub answering : List (List Bytes) → DbApi
answering rows = record {
  Db = Unit {0};
  execute = λ sql db. (true, db);
  query = λ sql db. (some rows, db);
}

-- What is loaded, none for a crash.
abbrev pub loaded : {A : Type 0} → Option (Bool × A × Unit {0}) → Option A
loaded none = none
loaded (some (ok, a, db)) = some a

module _ (atoi : Bytes → ℕ) where
  add_row-none :
      (row : List Bytes) (m : UserManager) → load_row atoi row ≡ none → add_row atoi row m ≡ none
  unfolding add_row
  add_row-none row m e = rw (e, add_row) refl

  add_row-some :
      (row : List Bytes) (m : UserManager) (u : User)
      → load_row atoi row ≡ some u
      → add_row atoi row m ≡ some (add_loaded u m)
  unfolding add_row
  add_row-some row m u e = rw (e, add_row) refl

  folded-load_rows :
      (rows : List (List Bytes)) (m : UserManager)
      → folded (add_row atoi) (some m) rows ≡ load_rows atoi rows m
  unfolding load_rows
  folded-load_rows [] m = refl
  folded-load_rows (row ∷ rows) m = elim (Option-cases (load_row atoi row)) [
    | inl e ↦ ap (λ o. folded (add_row atoi) o rows) (add_row-none row m e) ∙ rw e refl
    | inr (u, e) ↦
        ap (λ o. folded (add_row atoi) o rows) (add_row-some row m u e)
        ∙ folded-load_rows rows (add_loaded u m)
        ∙ rw e refl
  ]

  drained-load_user_from_db :
      (rows : List (List Bytes)) (m : UserManager)
      → drained (add_row atoi) m rows ≡ loaded (load_user_from_db atoi (answering rows) m tt)
  unfolding load_user_from_db
  drained-load_user_from_db [] m = refl
  drained-load_user_from_db (row ∷ rows) m =
      folded-load_rows (row ∷ rows) m ∙ elim (Option-cases (load_rows atoi (row ∷ rows) m)) [
        | inl e ↦ e ∙ rw e refl
        | inr (m', e) ↦ e ∙ rw e refl
      ]

  add_row-[] : (m : UserManager) → add_row atoi [] m ≡ none
  unfolding add_row load_row
  add_row-[] m = refl

  folded-load_relations :
      (userid : ℕ) (rows : List (List Bytes)) (friends : List ℕ)
      → folded (add_relation atoi userid) (some friends) rows
        ≡ load_relations atoi userid rows friends
  unfolding load_relations add_relation
  folded-load_relations userid [] friends = refl
  folded-load_relations userid ([] ∷ rows) friends = refl
  folded-load_relations userid ((first ∷ []) ∷ rows) friends = refl
  folded-load_relations userid ((first ∷ second ∷ more) ∷ rows) friends =
      folded-load_relations userid rows _

  drained-load_relationship_from_db :
      (userid : ℕ) (rows : List (List Bytes)) (friends : List ℕ)
      → drained (add_relation atoi userid) friends rows
        ≡ loaded (load_relationship_from_db atoi (answering rows) userid friends tt)
  unfolding load_relationship_from_db
  drained-load_relationship_from_db userid [] friends = refl
  drained-load_relationship_from_db userid (row ∷ rows) friends =
      folded-load_relations userid (row ∷ rows) friends
      ∙ elim (Option-cases (load_relations atoi userid (row ∷ rows) friends)) [
        | inl e ↦ e ∙ rw e refl
        | inr (friends', e) ↦ e ∙ rw e refl
      ]

  add_relation-[] : (userid : ℕ) (friends : List ℕ) → add_relation atoi userid [] friends ≡ none
  unfolding add_relation
  add_relation-[] userid friends = refl

  -- Let the client library serve the rows of each stored result one after the other, each with a
  -- cell for each column of that result. Over a result of at least one column the loop of
  -- LoadUserFromDB over the cursor ends within one round more than there are rows, and loads what
  -- the function of Users/Load, which takes the rows as a list, makes of the texts of the cells;
  -- so does the loop of LoadRelationshipFromDB over any result, of its own number of columns, of
  -- which there is at least one. Where the functions crash the loops do, as they do on a result
  -- with no row.
  pub over_result-load :
      (api : MysqlApi) (serves : ServesRows api) (count count' userid : ℕ) (m : UserManager)
      (friends : List ℕ) (users relations : api.Result) (s s' : api.Server)
      → 1 ≤ serves.columns users
      → 1 ≤ serves.columns relations
      → (verdict (
            over_result api
              (add_row atoi)
              (suc (length (serves.rows users s)))
              m
              (new_query_result api users count (serves.columns users) s))
          ≡ some
              (loaded (load_user_from_db atoi (answering (map texts (serves.rows users s))) m tt)))
        × (verdict (
              over_result api
                (add_relation atoi userid)
                (suc (length (serves.rows relations s')))
                friends
                (new_query_result api relations count' (serves.columns relations) s'))
            ≡ some (
                loaded (
                  load_relationship_from_db atoi
                    (answering (map texts (serves.rows relations s')))
                    userid
                    friends
                    tt)))
  over_result-load api serves count count' userid m friends users relations s s' some_column
        some_column' =
      (
        over_result-drained api serves (serves.columns users) some_column (add_row atoi) count m
              users s (serves.rows users s) add_row-[] refl refl
            ∙ ap some (drained-load_user_from_db (map texts (serves.rows users s)) m),
        over_result-drained api serves (serves.columns relations) some_column'
              (add_relation atoi userid) count' friends relations s' (serves.rows relations s')
              (add_relation-[] userid) refl refl
            ∙ ap some (
                drained-load_relationship_from_db userid (map texts (serves.rows relations s'))
                  friends),
      )
