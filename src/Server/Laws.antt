-- ===== src/Server/Laws.antt =====
-- The session map under connections and disconnections, and the searches in it.
use my_project_imserver.Base.{
  ℕ, ap, ◌≡◌, refl, Bool, true, false, List, [], ◌∷◌, All, Option, none, some, ◌==◌, if◌then◌else◌,
  arith, Bytes, bytes_eq, bytes_eq→eq, bytes_eq_refl, bytes_eq_sym, Bool-cases, inl, inr,
}
use my_project_imserver.Server.{
  Session, SessionMap, new_session, user_id, bytes_lt, map_find, map_insert, map_erase, on_close,
  on_connection, get_session_by_id, is_user_session_exsit,
}

bytes_lt_trans :
    (xs ys zs : Bytes) → bytes_lt xs ys ≡ true → bytes_lt ys zs ≡ true → bytes_lt xs zs ≡ true
unfolding bytes_lt
bytes_lt_trans xs ys [] h k = cc
bytes_lt_trans [] [] (z ∷ zs) h k = cc
bytes_lt_trans [] (y ∷ ys) (z ∷ zs) h k = refl
bytes_lt_trans (x ∷ xs) [] (z ∷ zs) h k = cc
bytes_lt_trans (x ∷ xs) (y ∷ ys) (z ∷ zs) h k = ground (arith, bytes_lt_trans xs ys zs)

bytes_lt_total :
    (xs ys : Bytes) → bytes_eq ys xs ≡ false → bytes_lt xs ys ≡ false → bytes_lt ys xs ≡ true
unfolding bytes_lt bytes_eq
bytes_lt_total [] [] h k = cc
bytes_lt_total [] (y ∷ ys) h k = cc
bytes_lt_total (x ∷ xs) [] h k = refl
bytes_lt_total (x ∷ xs) (y ∷ ys) h k = ground (arith, bytes_lt_total xs ys)

bytes_lt_irrefl : (xs ys : Bytes) → bytes_lt xs ys ≡ true → bytes_eq xs ys ≡ false
unfolding bytes_lt bytes_eq
bytes_lt_irrefl xs [] h = cc
bytes_lt_irrefl [] (y ∷ ys) h = refl
bytes_lt_irrefl (x ∷ xs) (y ∷ ys) h = ground (arith, bytes_lt_irrefl xs ys)

abbrev pub Above : {A : Type 0} → Bytes → List (Bytes × A) → Type 0
Above {A} j m = All (λ (p : Bytes × A). bytes_lt j p.0 ≡ true) m

-- A std::map: the keys ascend.
abbrev pub IsSorted : {A : Type 0} → List (Bytes × A) → Type 0
IsSorted [] = Unit {0}
IsSorted ((j, t) ∷ m) = Above j m × IsSorted m

Above-trans :
    {A : Type 0} (i j : Bytes) (m : List (Bytes × A)) → bytes_lt i j ≡ true → Above j m → Above i m
Above-trans i j [] h p = tt
Above-trans i j ((k, t) ∷ m) h (p, ps) = (bytes_lt_trans i j k h p, Above-trans i j m h ps)

Above-insert :
    {A : Type 0} (j k : Bytes) (s : A) (m : List (Bytes × A))
    → bytes_lt j k ≡ true
    → Above j m
    → Above j (map_insert k s m)
unfolding map_insert
Above-insert j k s [] h p = (h, tt)
Above-insert j k s ((i, t) ∷ m) h (p, ps) = ground (arith, Above-insert j k s m h ps)

pub map_insert-IsSorted :
    {A : Type 0} (k : Bytes) (s : A) (m : List (Bytes × A))
    → IsSorted m
    → IsSorted (map_insert k s m)
unfolding map_insert
map_insert-IsSorted k s [] h = (tt, tt)
map_insert-IsSorted k s ((j, t) ∷ m) (p, ps) = ground (
  arith,
  map_insert-IsSorted k s m ps,
  Above-trans k j m,
  bytes_lt_total k j,
  λ (h : bytes_lt j k ≡ true). Above-insert j k s m h p,
)

Above-erase :
    {A : Type 0} (j k : Bytes) (m : List (Bytes × A)) → Above j m → Above j (map_erase k m)
unfolding map_erase
Above-erase j k [] p = tt
Above-erase j k ((i, t) ∷ m) (p, ps) = ground (arith, Above-erase j k m ps)

pub map_erase-IsSorted :
    {A : Type 0} (k : Bytes) (m : List (Bytes × A)) → IsSorted m → IsSorted (map_erase k m)
unfolding map_erase
map_erase-IsSorted k [] h = tt
map_erase-IsSorted k ((j, t) ∷ m) (p, ps) =
    ground (arith, map_erase-IsSorted k m ps, Above-erase j k m p)

map_find-Above : {A : Type 0} (k : Bytes) (m : List (Bytes × A)) → Above k m → map_find k m ≡ none
unfolding map_find
map_find-Above k [] p = refl
map_find-Above k ((j, t) ∷ m) (p, ps) =
    ground (arith, bytes_lt_irrefl k j p, bytes_eq_sym j k, map_find-Above k m ps)

map_find_eq :
    {A : Type 0} (j k : Bytes) (m : List (Bytes × A))
    → bytes_eq j k ≡ true
    → map_find j m ≡ map_find k m
map_find_eq j k m h = ap (λ (i : Bytes). map_find i m) (bytes_eq→eq j k h)

-- Equal keys compare alike.
pub bytes_eq_left : (j k i : Bytes) → bytes_eq j k ≡ true → bytes_eq j i ≡ bytes_eq k i
bytes_eq_left j k i h = ap (λ (l : Bytes). bytes_eq l i) (bytes_eq→eq j k h)

abbrev pub or_else : {A : Type 0} → Option A → A → Option A
or_else none s = some s
or_else (some t) s = some t

pub map_find-insert :
    {A : Type 0} (i k : Bytes) (s : A) (m : List (Bytes × A))
    → IsSorted m
    → map_find i (map_insert k s m)
      ≡ (if bytes_eq k i then or_else (map_find k m) s else map_find i m)
unfolding map_find map_insert
map_find-insert i k s [] h = refl
map_find-insert i k s ((j, t) ∷ m) (p, ps) = ground (
  arith,
  map_find-insert i k s m ps,
  bytes_eq_left j k i,
  bytes_eq_left i k j,
  bytes_eq_sym k j,
  bytes_eq_sym i j,
  bytes_eq_sym i k,
  bytes_lt_irrefl k j,
  bytes_eq_sym k j,
  map_find-Above k m,
  Above-trans k j m,
  map_find_eq k i m,
)

pub map_find-erase :
    {A : Type 0} (i k : Bytes) (m : List (Bytes × A))
    → IsSorted m
    → map_find i (map_erase k m) ≡ (if bytes_eq k i then none else map_find i m)
unfolding map_find map_erase
map_find-erase i k [] h = ground arith
map_find-erase i k ((j, t) ∷ m) (p, ps) = ground (
  arith,
  map_find-erase i k m ps,
  bytes_eq_left j k i,
  bytes_eq_left i k j,
  bytes_eq_sym k j,
  bytes_eq_sym i j,
  bytes_eq_sym i k,
  map_find-Above j m p,
  map_find_eq j i m,
)

-- Whether a connection has a session.
abbrev pub has : {A : Type 0} → Bytes → List (Bytes × A) → Bool
has k m = elim (map_find k m) [ none ↦ false | some s ↦ true ]

-- In a map in ascending order, OnConnection keeps the order; a new connection gets a fresh
-- session unless its key is taken; a closed one has none any more; and every other session stays
-- as it was.
pub on_connection_lem :
    (i conn : Bytes) (connected : Bool) (memory : ℕ) (m : SessionMap)
    → IsSorted m
    → IsSorted (on_connection conn connected memory m)
      × (map_find i (on_connection conn connected memory m) ≡ (
          if bytes_eq conn i
          then (if connected then or_else (map_find conn m) (new_session memory) else none)
          else map_find i m))
unfolding on_connection on_close
on_connection_lem i conn true memory m h = (
  map_insert-IsSorted conn (new_session memory) m h,
  map_find-insert i conn (new_session memory) m h,
)
on_connection_lem i conn false memory m h = (map_erase-IsSorted conn m h, map_find-erase i conn m h)

-- GetSessionByID answers a session of the map whose user has the id.
pub get_session_by_id_sound :
    (id : ℕ) (m : SessionMap) (k : Bytes)
    → IsSorted m
    → get_session_by_id id m ≡ some k
    → (s : Session) × (map_find k m ≡ some s) × (user_id s ≡ id)
unfolding get_session_by_id map_find
get_session_by_id_sound id [] k h e = cc
get_session_by_id_sound id ((j, t) ∷ m) k (p, ps) e = elim (Bool-cases (user_id t == id)) [
  | inl hit ↦ (t, ground (arith, bytes_eq_refl j), ground arith)
  | inr miss ↦ later (get_session_by_id_sound id m k ps (ground arith))
]
  where
    later :
        ((s : Session) × (map_find k m ≡ some s) × (user_id s ≡ id))
        → (s : Session) × ((if bytes_eq j k then some t else map_find k m) ≡ some s)
          × (user_id s ≡ id)
    later (s, f, u) = (s, ground (arith, map_find-Above j m p, map_find_eq j k m), u)

-- IsUserSessionExsit says whether GetSessionByID finds one.
pub is_user_session_exsit_lem :
    (id : ℕ) (m : SessionMap)
    → is_user_session_exsit id m ≡ elim (get_session_by_id id m) [ none ↦ false | some k ↦ true ]
unfolding is_user_session_exsit get_session_by_id
is_user_session_exsit_lem id [] = refl
is_user_session_exsit_lem id ((k, s) ∷ m) = ground (arith, is_user_session_exsit_lem id m)
