-- ===== src/Examples/Database.antt =====
-- The cursor over two users and over one relationship.
use my_project_imserver.Base.{
  length-replicate, ℕ, Bool, true, false, ◌∙◌, ◌≡◌, refl, sym, ap, arith, List, [], ◌∷◌, map,
  Option, none, some, length, replicate, Bytes, codes, le_value,
}
use my_project_imserver.Users.Manager.{new_manager}
use my_project_imserver.Users.Load.{load_user_from_db, load_relationship_from_db}
use my_project_imserver.Database.Client.{MysqlApi, ServesRows}
use my_project_imserver.Database.Cursor.{new_query_result}
use my_project_imserver.Database.Loading.{over_result, add_row, add_relation}
use my_project_imserver.Database.Rows.{texts, verdict}
use my_project_imserver.Database.Refinement.{answering, loaded, over_result-load}

-- A row of users is an id and a name, and ten columns that are NULL; a row of relationships is two ids.
abbrev width : Bool → ℕ
width true = 12
width false = 2

abbrev cells : Bool → Bytes × Bytes → List (Option Bytes)
cells true (id, name) = some id ∷ some name ∷ replicate 10 none
cells false (id, friend) = some id ∷ some friend ∷ []

length-cells : (b : Bool) (row : Bytes × Bytes) → length (cells b row) ≡ width b
length-cells true row = refl
length-cells false row = refl

-- The rows that are left of the result of users and of the one of relationships.
abbrev Tables : Type 0
Tables = List (Bytes × Bytes) × List (Bytes × Bytes)

abbrev left_of : Bool → Tables → List (Bytes × Bytes)
left_of true t = t.0
left_of false t = t.1

abbrev behind : Bool → List (Bytes × Bytes) → Tables → Tables
behind true more t = (more, t.1)
behind false more t = (t.0, more)

abbrev fetched : Bool → List (Bytes × Bytes) → Tables → Option (List (Option Bytes)) × Tables
fetched b [] t = (none, t)
fetched b (row ∷ more) t = (some (cells b row), behind b more t)

abbrev two_tables : MysqlApi
two_tables = record {
  Server = Tables;
  Handle = Unit {0};
  Result = Bool;
  mysql_init = λ s. (some tt, s);
  mysql_real_connect = λ h host user passwd db port s. (some h, s);
  mysql_close = λ h s. s;
  mysql_real_query = λ h sql s. (0, s);
  mysql_query = λ h sql s. (0, s);
  cr_server_gone_error = 2006;
  mysql_errno = λ h s. 0;
  mysql_store_result = λ h s. (some true, s);
  mysql_affected_rows = λ h s. length s.0;
  mysql_field_count = λ h s. 12;
  mysql_fetch_fields = λ b. replicate (width b) [];
  mysql_fetch_row = λ b s. fetched b (left_of b s) s;
  mysql_free_result = λ b s. behind b [] s;
}

fetched-none :
    (b : Bool) (rows : List (Bytes × Bytes)) (s : Tables)
    → map (cells b) rows ≡ []
    → (s' : Tables) × (fetched b rows s ≡ (none, s'))
fetched-none b [] s h = (s, refl)
fetched-none b (row ∷ more) s h = absurd cc

left_of-behind :
    (b : Bool) (more : List (Bytes × Bytes)) (s : Tables) → left_of b (behind b more s) ≡ more
left_of-behind true more s = refl
left_of-behind false more s = refl

fetched-some :
    (b : Bool) (rows : List (Bytes × Bytes)) (s : Tables) (row : List (Option Bytes))
    (more : List (List (Option Bytes)))
    → map (cells b) rows ≡ row ∷ more
    → (s' : Tables) × (fetched b rows s ≡ (some row, s'))
      × (map (cells b) (left_of b s') ≡ more)
      × (length row ≡ width b)
fetched-some b [] s row more h = absurd cc
fetched-some b (first ∷ others) s row more h =
    let same : cells b first ≡ row = cc in
    let rest : map (cells b) others ≡ more = cc in
    (
      behind b others s,
      ap (λ r. (some r, behind b others s)) same,
      ap (map (cells b)) (left_of-behind b others s) ∙ rest,
      ap length (sym same) ∙ length-cells b first,
    )

abbrev two_tables-ServesRows : ServesRows two_tables
two_tables-ServesRows = record {
  columns = width;
  rows = λ b s. map (cells b) (left_of b s);
  fetch_end = λ b s h. fetched-none b (left_of b s) s h;
  fetch_next = λ b s row more h. fetched-some b (left_of b s) s row more h;
  fields = λ b. length-replicate (width b) [];
}

abbrev user_cells : List (List (Option Bytes))
user_cells =
    (some (codes "2") ∷ some (codes "bob") ∷ replicate 10 none)
    ∷ (some (codes "1") ∷ some (codes "amy") ∷ replicate 10 none)
    ∷ []

abbrev relation_cells : List (List (Option Bytes))
relation_cells = (some (codes "1") ∷ some (codes "2") ∷ []) ∷ []

abbrev tables : Tables
tables = ((codes "2", codes "bob") ∷ (codes "1", codes "amy") ∷ [], (codes "1", codes "2") ∷ [])

over_result-load_example :
    (verdict (
        over_result two_tables
          (add_row le_value)
          3
          new_manager
          (new_query_result two_tables true 2 12 tables))
      ≡ some
          (loaded (load_user_from_db le_value (answering (map texts user_cells)) new_manager tt)))
    × (verdict (
          over_result two_tables
            (add_relation le_value 1)
            2
            []
            (new_query_result two_tables false 1 2 tables))
        ≡ some (
            loaded
              (load_relationship_from_db le_value (answering (map texts relation_cells)) 1 [] tt)))
over_result-load_example =
    over_result-load le_value two_tables two_tables-ServesRows 2 1 1 new_manager [] true false
      tables tables (omega arith) (omega arith)
