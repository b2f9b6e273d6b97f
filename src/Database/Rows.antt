-- ===== src/Database/Rows.antt =====
-- What a loop over the rows of a QueryResult (EdoyumIMServer/QueryResult.cpp) comes to.
use my_project_imserver.Base.{
  ℕ, zero, suc, ◌≤◌, ◌≡◌, refl, ◌∙◌, ap, true, false, List, [], ◌∷◌, map, Option, none, some, arith,
  ◌==◌, length, length-replicate, replicate, Bytes,
}
use my_project_imserver.Database.Client.{MysqlApi, ServesRows}
use my_project_imserver.Database.Cursor.{
  Field, QueryResult, new_field, set_name, set_value, set_names, set_values, fetch, end_query,
  first_row, new_query_result, fetched_row, next_from, next_row,
}
use my_project_imserver.Database.Loading.{
  LoopEnd, ended, broken, out_of_rounds, after_next, after_body, after_fetch, each_row, over_result,
}

-- The text of a cell; NULL is empty.
abbrev pub text : Option Bytes → Bytes
text none = []
text (some bytes) = bytes

abbrev pub texts : List (Option Bytes) → List Bytes
texts row = map text row

set_value-text : (cell : Option Bytes) (f : Field) → (set_value cell f).value ≡ text cell
unfolding set_value
set_value-text none f = refl
set_value-text (some []) f = refl
set_value-text (some (b ∷ bs)) f = refl

-- As many fields as cells: the fields get the texts of the cells.
abbrev Filled : List (Option Bytes) → List Field → Option (List Field) → Type 0
Filled row fields result =
    (fs : List Field) × (result ≡ some fs)
    × (map Field.value fs ≡ texts row)
    × (length fs ≡ length fields)

set_values-Filled :
    (n : ℕ) (row : List (Option Bytes)) (fields : List Field)
    → length row ≡ n
    → length fields ≡ n
    → Filled row fields (set_values n row fields)
unfolding set_values
set_values-Filled zero [] [] h k = ([], refl, refl, refl)
set_values-Filled zero (cell ∷ row) fields h k = absurd (omega arith)
set_values-Filled zero [] (f ∷ fs) h k = absurd (omega arith)
set_values-Filled (suc n) [] fields h k = absurd (omega arith)
set_values-Filled (suc n) (cell ∷ row) [] h k = absurd (omega arith)
set_values-Filled (suc n) (cell ∷ row) (f ∷ fs) h k =
    let (rest, e, t, l) = set_values-Filled n row fs (omega arith) (omega arith) in
    rw e (set_value cell f ∷ rest, refl, rw (set_value-text cell f, t) refl, ap suc l)

set_names-some :
    (n : ℕ) (names : List Bytes) (fields : List Field)
    → length names ≡ n
    → length fields ≡ n
    → (fs : List Field) × (set_names n names fields ≡ some fs) × (length fs ≡ n)
unfolding set_names
set_names-some zero names fields h k = (fields, refl, k)
set_names-some (suc n) [] fields h k = absurd (omega arith)
set_names-some (suc n) (name ∷ names) [] h k = absurd (omega arith)
set_names-some (suc n) (name ∷ names) (f ∷ fs) h k =
    let (rest, e, l) = set_names-some n names fs (omega arith) (omega arith) in
    rw e (set_name name f ∷ rest, refl, ap suc l)

-- What a loop over rows comes to: the body on one row after the other.
abbrev pub folded :
    {A : Type 0} → (List Bytes → A → Option A) → Option A → List (List Bytes) → Option A
folded body none rows = none
folded body (some a) [] = some a
folded body (some a) (row ∷ rows) = folded body (body row a) rows

-- Where the body refuses the row with no cells, no row at all is a read of memory that is not there.
abbrev pub drained : {A : Type 0} → (List Bytes → A → Option A) → A → List (List Bytes) → Option A
drained body a [] = none
drained body a (row ∷ rows) = folded body (body row a) rows

-- None where the fuel was too short; otherwise how the loop ended, none for a crash.
abbrev pub verdict : {A B C : Type 0} → LoopEnd (A × B × C) → Option (Option A)
verdict (ended (a, q, s)) = some (some a)
verdict broken = some none
verdict out_of_rounds = none

module _ (api : MysqlApi) (serves : ServesRows api) (columns : ℕ) (some_column : 1 ≤ columns)
    {A : Type 0} (body : List Bytes → A → Option A) where
  open api use {Server, Result}
  open serves use {rows}

  -- The cursor shows a row, and these are the rows behind it.
  record Stands (q : QueryResult Result) (s : Server) (rest : List (List (Option Bytes)))
      : Type 0 where
    r : Result
    on : q.result ≡ some r
    left : rows r s ≡ rest
    width_of : serves.columns r ≡ columns
    wide : q.columns ≡ columns
    room : q.capacity ≡ columns
    full : length q.current ≡ columns

  one_round :
      (n : ℕ) (a : A) (row : List (Option Bytes)) (q : QueryResult Result) (s : Server)
      → q.capacity ≡ columns
      → map Field.value q.current ≡ texts row
      → each_row api body (suc n) a q s
        ≡ after_body api body (each_row api body n) (body (texts row) a) q s
  unfolding each_row after_fetch fetch
  one_round n a row q s room shows =
      let not_empty : (columns == 0) ≡ false = ground arith in rw (room, not_empty, shows) refl

  fetched_row-some :
      (q : QueryResult Result) (s : Server) (row : List (Option Bytes)) (fs : List Field)
      → q.columns ≡ columns
      → set_values columns row q.current ≡ some fs
      → fetched_row api q (some row, s) ≡ some (true, record q { current = fs }, s)
  unfolding fetched_row
  fetched_row-some q s row fs wide filled =
      rw (ap (λ (n : ℕ). set_values n row q.current) wide ∙ filled, fetched_row) refl

  next_row-some :
      (q : QueryResult Result) (s s' : Server) (r : Result) (row : List (Option Bytes))
      (fs : List Field)
      → q.result ≡ some r
      → api.mysql_fetch_row r s ≡ (some row, s')
      → q.columns ≡ columns
      → set_values columns row q.current ≡ some fs
      → next_row api q s ≡ some (true, record q { current = fs }, s')
  unfolding next_row next_from
  next_row-some q s s' r row fs on e wide filled =
      ap (λ o. next_from api o q s) on
      ∙ ap (fetched_row api q) e
      ∙ fetched_row-some q s' row fs wide filled

  all_rows :
      (rest : List (List (Option Bytes))) (n : ℕ) (o : Option A) (q : QueryResult Result)
      (s : Server)
      → Stands q s rest
      → length rest ≤ n
      → verdict (after_body api body (each_row api body n) o q s)
        ≡ some (folded body o (map texts rest))
  unfolding after_body after_next next_row next_from fetched_row
  all_rows rest n none q s h enough = refl
  all_rows [] n (some a) q s h enough =
      let (s', e) = serves.fetch_end h.r s h.left in rw (h.on, e) refl
  all_rows (row ∷ more) zero (some a) q s h enough = absurd (omega arith)
  all_rows (row ∷ more) (suc n) (some a) q s h enough =
      let (s', e, left, width) = serves.fetch_next h.r s row more h.left in
      let (fs, filled, shows, full) =
        set_values-Filled columns row q.current (width ∙ h.width_of) h.full in
      rw (next_row-some q s s' h.r row fs h.on e h.wide filled, after_next)
        (ap verdict (one_round n a row (record q { current = fs }) s' h.room shows)
          ∙ all_rows more n (body (texts row) a) (record q { current = fs }) s'
              (record {
                r = h.r;
                on = h.on;
                left = left;
                width_of = h.width_of;
                wide = h.wide;
                room = h.room;
                full = full ∙ h.full;
              })
              (omega arith))

  -- The constructor on a result with no row, and on one with rows.
  over_result-none :
      (n rowcount : ℕ) (a : A) (r : Result) (s : Server)
      → body [] a ≡ none
      → rows r s ≡ []
      → verdict (over_result api body (suc n) a (new_query_result api r rowcount columns s))
        ≡ some none
  unfolding over_result new_query_result first_row end_query each_row after_fetch after_body fetch
  over_result-none n rowcount a r s refuses none_left =
      let (s', e) = serves.fetch_end r s none_left in
      let not_empty : (columns == 0) ≡ false = ground arith in rw (e, not_empty, refuses) refl

  new_query_result-some :
      (rowcount : ℕ) (r : Result) (s : Server) (row : List (Option Bytes))
      (more : List (List (Option Bytes)))
      → serves.columns r ≡ columns
      → rows r s ≡ row ∷ more
      → (q : QueryResult Result) × (s' : Server) × (new_query_result api r rowcount columns s
          ≡ some (q, s'))
        × Stands q s' more
        × (map Field.value q.current ≡ texts row)
  unfolding new_query_result first_row
  new_query_result-some rowcount r s row more of_width some_left =
      let (s', e, left, width) = serves.fetch_next r s row more some_left in
      let (named, n, wide) =
        set_names-some columns (api.mysql_fetch_fields r) (replicate columns new_field)
          (serves.fields r ∙ of_width) (length-replicate columns new_field) in
      let (fs, filled, shows, full) = set_values-Filled columns row named (width ∙ of_width) wide in
      rw (e, first_row, n, filled)
        (
          _,
          s',
          refl,
          record {
            r = r;
            on = refl;
            left = left;
            width_of = of_width;
            wide = refl;
            room = refl;
            full = full ∙ wide;
          },
          shows,
        )

  pub over_result-drained :
      (rowcount : ℕ) (a : A) (r : Result) (s : Server) (rs : List (List (Option Bytes)))
      → ((b : A) → body [] b ≡ none)
      → serves.columns r ≡ columns
      → rows r s ≡ rs
      → verdict
          (over_result api body (suc (length rs)) a (new_query_result api r rowcount columns s))
        ≡ some (drained body a (map texts rs))
  unfolding over_result
  over_result-drained rowcount a r s [] refuses of_width left =
      over_result-none 0 rowcount a r s (refuses a) left
  over_result-drained rowcount a r s (row ∷ more) refuses of_width left =
      let (q, s', made, stands, shows) =
        new_query_result-some rowcount r s row more of_width left in
      ap (λ o. verdict (over_result api body (suc (length (row ∷ more))) a o)) made
      ∙ ap verdict (one_round (suc (length more)) a row q s' stands.room shows)
      ∙ all_rows more (suc (length more)) (body (texts row) a) q s' stands (omega arith)
