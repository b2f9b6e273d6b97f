-- ===== src/Database/Stuck.antt =====
-- Two things that MySqlManager (EdoyumIMServer/MySqlManager.cpp) does at the start.
use my_project_imserver.Base.{
  ℕ, zero, suc, ◌≡◌, refl, ◌∙◌, ap, true, false, List, ◌∷◌, ◌++◌, none, some, Bytes, codes, c_text,
}
use my_project_imserver.Server.{map_find}
use my_project_imserver.Database.Client.{MysqlApi}
use my_project_imserver.Database.Cursor.{Field, QueryResult, fetch}
use my_project_imserver.Database.Loading.{ended, out_of_rounds}
use my_project_imserver.Database.Tables.{FieldMap}
use my_project_imserver.Database.Tool.{Tool, tool_execute, execute_on}
use my_project_imserver.Database.Schema.{
  check_columns, column_row, column_declared, create_database,
}

module _ (api : MysqlApi) where
  open api use {Server, Result, Handle}

  passed_over :
      (n : ℕ) (fields change rest : FieldMap) (f g : Field) (fs : List Field)
      (q : QueryResult Result) (s : Server)
      → map_find f.value fields ≡ none
      → check_columns api n fields change rest q s ≡ out_of_rounds
      → column_row api
          (check_columns api n fields change)
          fields
          (some (f ∷ g ∷ fs))
          rest
          change
          q
          s
        ≡ out_of_rounds
  unfolding column_row column_declared
  passed_over n fields change rest f g fs q s undeclared stuck =
      ap
        (λ o.
          column_declared api (check_columns api n fields change) f.value g.value o rest change q s)
        undeclared
      ∙ stuck

  -- A table in the database with a column that the manager does not declare keeps CheckTable in its
  -- loop: no number of rounds is enough.
  pub check_columns_stuck :
      (n : ℕ) (fields change rest : FieldMap) (f g : Field) (fs : List Field)
      (q : QueryResult Result) (s : Server)
      → fetch q ≡ some (f ∷ g ∷ fs)
      → map_find f.value fields ≡ none
      → check_columns api n fields change rest q s ≡ out_of_rounds
  unfolding check_columns
  check_columns_stuck zero fields change rest f g fs q s shown undeclared = refl
  check_columns_stuck (suc n) fields change rest f g fs q s shown undeclared =
      ap (λ o. column_row api (check_columns api n fields change) fields o rest change q s) shown
      ∙ passed_over n fields change rest f g fs q s undeclared
          (check_columns_stuck n fields change rest f g fs q s shown undeclared)

  accepted_at_once :
      (sql : Bytes) (t : Tool api) (s s1 : Server) (h : Handle)
      → t.mysql ≡ some h
      → api.mysql_query h (c_text sql) s ≡ (0, s1)
      → tool_execute api sql t s ≡ some (true, none, t, s1)
  unfolding tool_execute execute_on
  accepted_at_once sql t s s1 h connected accepted =
      ap (λ o. execute_on api o sql t s) connected ∙ rw accepted refl

  -- CREATE DATABASE that succeeds at once is reported as a failure.
  pub create_database-false :
      (t : Tool api) (s s1 : Server) (h : Handle)
      → t.mysql ≡ some h
      → api.mysql_query h (c_text (codes " create database " ++ (t.dbname ++ codes ";"))) s
        ≡ (0, s1)
      → create_database api t s ≡ ended (false, t, s1)
  unfolding create_database
  create_database-false t s s1 h connected accepted =
      rw (accepted_at_once _ t s s1 h connected accepted) refl
