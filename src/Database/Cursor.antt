-- ===== src/Database/Cursor.antt =====
-- class Field (EdoyumIMServer/Field.h, Field.cpp) and class QueryResult (EdoyumIMServer/QueryResult.h,
-- QueryResult.cpp). The type of a field, which nothing reads, is left out.
use my_project_imserver.Base.{
  ℕ, zero, suc, Bool, true, false, List, [], ◌∷◌, Option, none, some, ◌==◌, if◌then◌else◌,
  replicate, take, Bytes,
}
use my_project_imserver.Database.Client.{MysqlApi}

pub record Field : Type 0 where
  pub value : Bytes
  pub name : Bytes
  pub is_null : Bool

unfoldable pub new_field : Field
new_field = record { value = []; name = []; is_null = true }

unfoldable pub set_name : Bytes → Field → Field
set_name name f = record f { name = name }

-- An empty text counts as NULL.
unfoldable pub set_value : Option Bytes → Field → Field
set_value none f = record f { value = []; is_null = true }
set_value (some []) f = record f { value = []; is_null = true }
set_value (some (b ∷ bs)) f = record f { value = b ∷ bs; is_null = false }

-- The loops over the columns; `none` is a read behind the end of an array.
unfoldable pub set_names : ℕ → List Bytes → List Field → Option (List Field)
set_names zero names fields = some fields
set_names (suc n) [] fields = none
set_names (suc n) (name ∷ names) [] = none
set_names (suc n) (name ∷ names) (f ∷ fs) = elim (set_names n names fs) [
  | none ↦ none
  | some rest ↦ some (set_name name f ∷ rest)
]

unfoldable pub set_values : ℕ → List (Option Bytes) → List Field → Option (List Field)
set_values zero row fields = some fields
set_values (suc n) [] fields = none
set_values (suc n) (cell ∷ row) [] = none
set_values (suc n) (cell ∷ row) (f ∷ fs) = elim (set_values n row fs) [
  | none ↦ none
  | some rest ↦ some (set_value cell f ∷ rest)
]

-- `result` is none where m_result is NULL. `capacity` is what the vector of fields was made with: it
-- keeps that memory when it is cleared.
pub record QueryResult (Result : Type 0) : Type 0 where
  pub current : List Field
  pub names : List Bytes
  pub result : Option Result
  pub rowcount : ℕ
  pub columns : ℕ
  pub capacity : ℕ

-- `m_CurrentRow.data()`: NULL only where there never was a field.
unfoldable pub fetch : {Result : Type 0} → QueryResult Result → Option (List Field)
fetch q = if q.capacity == 0 then none else some q.current

module _ (api : MysqlApi) where
  open api use {Server, Result, mysql_fetch_fields, mysql_fetch_row, mysql_free_result}

  free_result : Option Result → Server → Server
  free_result none s = s
  free_result (some r) s = mysql_free_result r s

  unfoldable pub end_query : QueryResult Result → Server → QueryResult Result × Server
  unfolding free_result
  end_query q s = (
    record q { current = []; names = []; result = none; rowcount = 0; columns = 0 },
    free_result q.result s,
  )

  unfoldable pub first_row :
      QueryResult Result
      → List Bytes
      → Option (List (Option Bytes)) × Server
      → Option (QueryResult Result × Server)
  first_row q names (none, s) = some (end_query q s)
  first_row q names (some row, s) = elim (set_names q.columns names q.current) [
    | none ↦ none
    | some fs ↦ elim (set_values q.columns row fs) [
      | none ↦ none
      | some fs' ↦ some (record q { current = fs'; names = take q.columns names }, s)
    ]
  ]

  -- The constructor, on a result that is not NULL.
  unfoldable pub new_query_result : Result → ℕ → ℕ → Server → Option (QueryResult Result × Server)
  unfolding first_row
  new_query_result r rowcount columns s =
      first_row
        (record {
          current = replicate columns new_field;
          names = replicate columns [];
          result = some r;
          rowcount = rowcount;
          columns = columns;
          capacity = columns;
        })
        (mysql_fetch_fields r) (mysql_fetch_row r s)

  unfoldable pub fetched_row :
      QueryResult Result
      → Option (List (Option Bytes)) × Server
      → Option (Bool × QueryResult Result × Server)
  unfolding end_query
  fetched_row q (none, s) = let (q', s') = end_query q s in some (false, q', s')
  fetched_row q (some row, s) = elim (set_values q.columns row q.current) [
    | none ↦ none
    | some fs ↦ some (true, record q { current = fs }, s)
  ]

  unfoldable pub next_from :
      Option Result → QueryResult Result → Server → Option (Bool × QueryResult Result × Server)
  unfolding fetched_row
  next_from none q s = some (false, q, s)
  next_from (some r) q s = fetched_row q (mysql_fetch_row r s)

  unfoldable pub next_row :
      QueryResult Result → Server → Option (Bool × QueryResult Result × Server)
  unfolding next_from
  next_row q s = next_from q.result q s
