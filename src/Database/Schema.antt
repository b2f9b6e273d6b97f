-- ===== src/Database/Schema.antt =====
-- class MySqlManager (EdoyumIMServer/MySqlManager.h, MySqlManager.cpp): the check of the tables at the
-- start. `m_mysql` is not NULL behind the beginning of Init, which alone calls the checks.
use my_project_imserver.Base.{
  ℕ, zero, suc, Bool, true, false, List, [], ◌∷◌, ◌++◌, Option, none, some, ◌==◌, if◌then◌else◌,
  Bytes, bytes_eq, codes,
}
use my_project_imserver.Server.{map_find, map_insert, map_erase}
use my_project_imserver.Database.Client.{MysqlApi}
use my_project_imserver.Database.Cursor.{Field, QueryResult, fetch, next_row, end_query}
use my_project_imserver.Database.Loading.{LoopEnd, ended, broken, out_of_rounds}
use my_project_imserver.Database.Tool.{Tool, new_tool, connect, tool_query, tool_execute}
use my_project_imserver.Database.Tables.{FieldInfo, FieldMap, TableInfo, tables}

infixl 5 ◌>>=◌
abbrev ◌>>=◌ : {A B : Type 0} → LoopEnd A → (A → LoopEnd B) → LoopEnd B
ended a >>= f = f a
broken >>= f = broken
out_of_rounds >>= f = out_of_rounds

-- A crash of the connection.
abbrev safely : {A : Type 0} → Option A → LoopEnd A
safely none = broken
safely (some a) = ended a

abbrev affected_count : Option ℕ → ℕ
affected_count none = 0
affected_count (some n) = n

module _ (api : MysqlApi) where
  open api use {Server, Result}

  -- Execute, whose number of rows is not asked for.
  unfoldable pub run : Bytes → Tool api → Server → LoopEnd (Bool × Tool api × Server)
  run sql t s = do (ok, affected, t1, s1) ← safely (tool_execute api sql t s); ended (ok, t1, s1)

  -- CheckDatabase: the loop over the names of the databases.
  unfoldable pub database_found :
      (QueryResult Result → Server → LoopEnd (Bool × Server))
      → QueryResult Result
      → Option (Bool × QueryResult Result × Server)
      → LoopEnd (Bool × Server)
  database_found loop q none = broken
  database_found loop q (some (false, q', s)) = ended (false, (end_query api q' s).1)
  database_found loop q (some (true, q', s)) = loop q' s

  unfoldable pub database_row :
      (QueryResult Result → Server → LoopEnd (Bool × Server))
      → Bytes
      → Option (List Field)
      → QueryResult Result
      → Server
      → LoopEnd (Bool × Server)
  unfolding database_found
  database_row loop dbname none q s = ended (false, (end_query api q s).1)
  database_row loop dbname (some []) q s = broken
  database_row loop dbname (some (f ∷ fs)) q s =
      if bytes_eq f.value dbname
      then ended (true, (end_query api q s).1)
      else database_found loop q (next_row api q s)

  unfoldable pub find_database : ℕ → Bytes → QueryResult Result → Server → LoopEnd (Bool × Server)
  unfolding database_row
  find_database zero dbname q s = out_of_rounds
  find_database (suc n) dbname q s = database_row (find_database n dbname) dbname (fetch q) q s

  unfoldable pub check_database : ℕ → Tool api → Server → LoopEnd (Bool × Tool api × Server)
  unfolding find_database
  check_database fuel t s = do
    (result, t1, s1) ← safely (tool_query api (codes "show databases;") t s)
    elim result [
      | none ↦ ended (false, t1, s1)
      | some q ↦ do (found, s2) ← find_database fuel t1.dbname q s1; ended (found, t1, s2)
    ]

  -- The number of rows is looked at, and 0 where Execute does not set it.
  unfoldable pub create_database : Tool api → Server → LoopEnd (Bool × Tool api × Server)
  create_database t s = do
    (ok, affected, t1, s1) ←
        safely (tool_execute api (codes " create database " ++ (t.dbname ++ codes ";")) t s)
    ended ((if ok then affected_count affected == 1 else false), t1, s1)

  -- CheckTable: what a row of `desc` says of a column; `rest` are the columns that have not come yet,
  -- `change` those of another type. A column that is not declared is passed over without NextRow.
  abbrev pub Checked : Type 0
  Checked = FieldMap × FieldMap × QueryResult Result × Server

  unfoldable pub column_next :
      (FieldMap → QueryResult Result → Server → LoopEnd Checked)
      → FieldMap
      → FieldMap
      → Option (Bool × QueryResult Result × Server)
      → LoopEnd Checked
  column_next loop rest change none = broken
  column_next loop rest change (some (false, q, s)) = ended (rest, change, q, s)
  column_next loop rest change (some (true, q, s)) = loop rest q s

  unfoldable pub column_declared :
      (FieldMap → QueryResult Result → Server → LoopEnd Checked)
      → Bytes
      → Bytes
      → Option FieldInfo
      → FieldMap
      → FieldMap
      → QueryResult Result
      → Server
      → LoopEnd Checked
  unfolding column_next
  column_declared loop name type none rest change q s = loop rest q s
  column_declared loop name type (some f) rest change q s =
      let rest' = map_erase name rest in
      if bytes_eq f.desc type
      then column_next loop rest' change (next_row api q s)
      else ended (rest', map_insert name f change, q, s)

  unfoldable pub column_row :
      (FieldMap → QueryResult Result → Server → LoopEnd Checked)
      → FieldMap
      → Option (List Field)
      → FieldMap
      → FieldMap
      → QueryResult Result
      → Server
      → LoopEnd Checked
  unfolding column_declared
  column_row loop fields none rest change q s = ended (rest, change, q, s)
  column_row loop fields (some []) rest change q s = broken
  column_row loop fields (some (f ∷ [])) rest change q s = broken
  column_row loop fields (some (f ∷ g ∷ fs)) rest change q s =
      column_declared loop f.value g.value (map_find f.value fields) rest change q s

  unfoldable pub check_columns :
      ℕ → FieldMap → FieldMap → FieldMap → QueryResult Result → Server → LoopEnd Checked
  unfolding column_row
  check_columns zero fields change rest q s = out_of_rounds
  check_columns (suc n) fields change rest q s =
      column_row (check_columns n fields change) fields (fetch q) rest change q s

  -- The columns that are missing, and those of another type, one statement each.
  unfoldable pub alter :
      Bytes → Bytes → FieldMap → Tool api → Server → LoopEnd (Bool × Tool api × Server)
  unfolding run
  alter table how [] t s = ended (true, t, s)
  alter table how ((k, f) ∷ fs) t s = do
    (ok, t1, s1) ←
        run
          (codes " alter table "
            ++ (table ++ (how ++ (f.name ++ (codes " " ++ (f.type ++ codes ";"))))))
          t s
    elim ok [ false ↦ ended (false, t1, s1) | true ↦ alter table how fs t1 s1 ]

  -- The columns of a statement, with commas between them.
  unfoldable pub column_list : FieldMap → Bytes
  column_list [] = []
  column_list ((k, f) ∷ []) = f.name ++ (codes " " ++ f.type)
  column_list ((k, f) ∷ g ∷ fs) =
      f.name ++ (codes " " ++ (f.type ++ (codes "," ++ column_list (g ∷ fs))))

  unfoldable pub key_text : Bytes → Bytes
  key_text [] = []
  key_text (c ∷ cs) = codes "," ++ (c ∷ cs)

  unfoldable pub sql_create_table : TableInfo → Bytes
  unfolding column_list key_text
  sql_create_table info =
      codes " create table if not exists "
      ++ (info.name
          ++ (codes " ("
              ++ (column_list info.fields
                  ++ (key_text info.key ++ codes ") default charset=utf8,ENGINE=InnoDB;"))))

  unfoldable pub create_table : TableInfo → Tool api → Server → LoopEnd (Bool × Tool api × Server)
  unfolding run sql_create_table
  create_table info t s = elim info.fields [
    | [] ↦ ended (false, t, s)
    | f ∷ fs ↦ run (sql_create_table info) t s
  ]

  unfoldable pub repair_table : TableInfo → Tool api → Checked → LoopEnd (Bool × Tool api × Server)
  unfolding alter
  repair_table info t (rest, change, q, s) = do
    (ok, t1, s1) ← alter info.name (codes " add colum ") rest t (end_query api q s).1
    elim ok [
      | false ↦ ended (false, t1, s1)
      | true ↦ alter info.name (codes " modify column ") change t1 s1
    ]

  unfoldable pub check_table :
      ℕ → TableInfo → Tool api → Server → LoopEnd (Bool × Tool api × Server)
  unfolding check_columns repair_table create_table
  check_table fuel info t s = do
    (result, t1, s1) ← safely (tool_query api (codes " desc " ++ (info.name ++ codes ";")) t s)
    elim result [
      | none ↦ create_table info t1 s1
      | some q ↦ do
        checked ← check_columns fuel info.fields [] info.fields q s1
        repair_table info t1 checked
    ]

  unfoldable pub update_table :
      ℕ → TableInfo → Tool api → Server → LoopEnd (Bool × Tool api × Server)
  unfolding check_table create_table
  update_table fuel info t s = do
    (ok, t1, s1) ← check_table fuel info t s
    elim ok [ false ↦ create_table info t1 s1 | true ↦ ended (true, t1, s1) ]

  -- Init: the loop over the tables.
  unfoldable pub check_tables :
      ℕ → List TableInfo → Tool api → Server → LoopEnd (Bool × Tool api × Server)
  unfolding check_table create_table
  check_tables fuel [] t s = ended (true, t, s)
  check_tables fuel (info ∷ infos) t s = do
    (checked, t1, s1) ← check_table fuel info t s
    (ok, t2, s2) ← elim checked as (λ _. LoopEnd (Bool × Tool api × Server)) [
      | false ↦ create_table info t1 s1
      | true ↦ ended (true, t1, s1)
    ]
    elim ok [ false ↦ ended (false, t2, s2) | true ↦ check_tables fuel infos t2 s2 ]

  unfoldable pub ready_database : ℕ → Tool api → Server → LoopEnd (Bool × Tool api × Server)
  unfolding check_database create_database
  ready_database fuel t s = do
    (found, t1, s1) ← check_database fuel t s
    elim found [ true ↦ ended (true, t1, s1) | false ↦ create_database t1 s1 ]

  unfoldable pub init_manager :
      ℕ → Bytes → Bytes → Bytes → Bytes → ℕ → Server → LoopEnd (Bool × Tool api × Server)
  unfolding ready_database check_tables
  init_manager fuel host user passwd dbname port s = do
    (ok, t1, s1) ← safely (connect api host user passwd dbname port new_tool s)
    elim ok [
      | false ↦ ended (false, t1, s1)
      | true ↦ do
        (ready, t2, s2) ← ready_database fuel t1 s1
        elim ready [ false ↦ ended (false, t2, s2) | true ↦ check_tables fuel tables t2 s2 ]
    ]

  -- Query and Excute; `none` is a manager whose Init has not run.
  unfoldable pub manager_query :
      Bytes
      → Option (Tool api)
      → Server
      → Option (Option (QueryResult Result) × Option (Tool api) × Server)
  manager_query sql none s = some (none, none, s)
  manager_query sql (some t) s = elim (tool_query api sql t s) [
    | none ↦ none
    | some (q, t1, s1) ↦ some (q, some t1, s1)
  ]

  unfoldable pub manager_excute :
      Bytes → Option (Tool api) → Server → Option (Bool × Option (Tool api) × Server)
  manager_excute sql none s = some (false, none, s)
  manager_excute sql (some t) s = elim (tool_execute api sql t s) [
    | none ↦ none
    | some (ok, affected, t1, s1) ↦ some (ok, some t1, s1)
  ]
