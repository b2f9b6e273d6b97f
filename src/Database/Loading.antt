-- ===== src/Database/Loading.antt =====
-- The loops of UserManager::LoadUserFromDB and LoadRelationshipFromDB (EdoyumIMServer/UserManager.cpp)
-- over the rows of a QueryResult.
use my_project_imserver.Base.{
  ℕ, zero, suc, Bool, true, false, List, map, Option, none, some, ◌==◌, if◌then◌else◌, get_elem?,
  Bytes,
}
use my_project_imserver.Users.Types.{set_insert}
use my_project_imserver.Users.Manager.{UserManager}
use my_project_imserver.Users.Load.{load_row, add_loaded}
use my_project_imserver.Database.Client.{MysqlApi}
use my_project_imserver.Database.Cursor.{Field, QueryResult, fetch, next_row}

-- How a loop ends: with a result, at a read of memory that is not there, or with no fuel left.
pub data LoopEnd (A : Type 0) : Type 0 where
  ended : A → LoopEnd A
  broken out_of_rounds : LoopEnd A

module _ (api : MysqlApi) {A : Type 0} (body : List Bytes → A → Option A) where
  open api use {Server, Result}

  abbrev pub State : Type 0
  State = A × QueryResult Result × Server

  -- What NextRow tells, and what `body` makes of the row; `loop` is the rest of the loop.
  unfoldable pub after_next :
      (A → QueryResult Result → Server → LoopEnd State)
      → A
      → Option (Bool × QueryResult Result × Server)
      → LoopEnd State
  after_next loop a none = broken
  after_next loop a (some (false, q, s)) = ended (a, q, s)
  after_next loop a (some (true, q, s)) = loop a q s

  unfoldable pub after_body :
      (A → QueryResult Result → Server → LoopEnd State)
      → Option A
      → QueryResult Result
      → Server
      → LoopEnd State
  unfolding after_next
  after_body loop none q s = broken
  after_body loop (some a) q s = after_next loop a (next_row api q s)

  unfoldable pub after_fetch :
      (A → QueryResult Result → Server → LoopEnd State)
      → Option (List Field)
      → A
      → QueryResult Result
      → Server
      → LoopEnd State
  unfolding after_body
  after_fetch loop none a q s = ended (a, q, s)
  after_fetch loop (some fields) a q s = after_body loop (body (map Field.value fields) a) q s

  -- The loop over the rows: Fetch, the body, NextRow.
  unfoldable pub each_row : ℕ → A → QueryResult Result → Server → LoopEnd State
  unfolding after_fetch
  each_row zero a q s = out_of_rounds
  each_row (suc n) a q s = after_fetch (each_row n) (fetch q) a q s

  -- The loop over a result that mysql_store_result gave.
  unfoldable pub over_result : ℕ → A → Option (QueryResult Result × Server) → LoopEnd State
  unfolding each_row
  over_result fuel a none = broken
  over_result fuel a (some (q, s)) = each_row fuel a q s

-- The bodies of the two loops.
unfoldable pub add_row : (Bytes → ℕ) → List Bytes → UserManager → Option UserManager
add_row atoi row m = elim (load_row atoi row) [ none ↦ none | some u ↦ some (add_loaded u m) ]

unfoldable pub add_relation : (Bytes → ℕ) → ℕ → List Bytes → List ℕ → Option (List ℕ)
add_relation atoi userid row friends = elim (get_elem? row 0) [
  | none ↦ none
  | some first ↦ elim (get_elem? row 1) [
    | none ↦ none
    | some second ↦
        some (set_insert (if atoi first == userid then atoi second else atoi first) friends)
  ]
]
