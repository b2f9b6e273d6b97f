-- ===== src/Server/Update.antt =====
-- A change of one session object of the map of EdoyumIMServer/IMServer.h.
use my_project_imserver.Base.{ℕ, ◌≡◌, refl, [], ◌∷◌, some, arith, Bytes, List, bytes_eq, false}
use my_project_imserver.Server.Laws.{has, Above, IsSorted, bytes_eq_left}
use my_project_imserver.Server.{Session, SessionMap, map_find, map_set, user_id, get_session_by_id}

pub map_find-set :
    {A : Type 0} (k : Bytes) (s t : A) (m : List (Bytes × A))
    → map_find k m ≡ some t
    → map_find k (map_set k s m) ≡ some s
unfolding map_find map_set
map_find-set k s t [] e = cc
map_find-set k s t ((j, x) ∷ m) e = ground (arith, map_find-set k s t m)

-- A change of one session object keeps the others.
pub map_find-set_ne :
    {A : Type 0} (j k : Bytes) (s : A) (m : List (Bytes × A))
    → bytes_eq j k ≡ false
    → map_find k (map_set j s m) ≡ map_find k m
unfolding map_find map_set
map_find-set_ne j k s [] h = refl
map_find-set_ne j k s ((i, t) ∷ m) h =
    ground (arith, map_find-set_ne j k s m h, bytes_eq_left i j k)

-- The second of two changes is what stays.
pub map_set-set :
    (k : Bytes) (s t : Session) (m : SessionMap) → map_set k s (map_set k t m) ≡ map_set k s m
unfolding map_set
map_set-set k s t [] = refl
map_set-set k s t ((j, x) ∷ m) = ground (arith, map_set-set k s t m)

-- A change that keeps the session's user keeps who is found.
pub get_session_by_id-set :
    (k : Bytes) (s t : Session) (id : ℕ) (m : SessionMap)
    → map_find k m ≡ some t
    → user_id s ≡ user_id t
    → get_session_by_id id (map_set k s m) ≡ get_session_by_id id m
unfolding map_find map_set get_session_by_id
get_session_by_id-set k s t id [] e h = refl
get_session_by_id-set k s t id ((j, x) ∷ m) e h = ground (arith, get_session_by_id-set k s t id m)

map_set-Above :
    {A : Type 0} (j k : Bytes) (s : A) (m : List (Bytes × A)) → Above j m → Above j (map_set k s m)
unfolding map_set
map_set-Above j k s [] h = h
map_set-Above j k s ((i, x) ∷ m) h = ground (arith, map_set-Above j k s m)

pub map_set-IsSorted :
    {A : Type 0} (k : Bytes) (s : A) (m : List (Bytes × A)) → IsSorted m → IsSorted (map_set k s m)
unfolding map_set
map_set-IsSorted k s [] h = h
map_set-IsSorted k s ((j, x) ∷ m) (p, ps) =
    ground (arith, map_set-IsSorted k s m ps, map_set-Above j k s m p)

pub has-map_set :
    {A : Type 0} (k j : Bytes) (a : A) (m : List (Bytes × A)) → has k (map_set j a m) ≡ has k m
unfolding map_find map_set
has-map_set k j a [] = refl
has-map_set k j a ((i, x) ∷ m) = ground (arith, has-map_set k j a m)
