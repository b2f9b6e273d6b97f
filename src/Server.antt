-- ===== src/Server.antt =====
-- EdoyumIMServer/IMServer.h and IMServer.cpp: the sessions of the open connections. A connection is
-- named by the text of its address, which is the key of its session in the map.
pub mod Laws
pub mod Update
use my_project_imserver.Base.{
  ℕ, ◌≡◌, Bool, true, false, List, [], ◌∷◌, Option, none, some, ltb, ◌==◌, if◌then◌else◌, Bytes,
  bytes_eq,
}
use my_project_imserver.Users.Types.{User, new_user}

-- The class ClientSession: `m_conn` and `m_sessionid` are the key.
pub record Session : Type 0 where
  pub seq : ℕ
  pub user : User
  pub target : ℕ
  pub targets : Bytes

-- The constructor does not set `m_target`: it holds whatever the memory held.
unfoldable pub new_session : ℕ → Session
new_session memory = record { seq = 0; user = new_user; target = memory; targets = [] }

unfoldable pub user_id : Session → ℕ
user_id s = s.user.userid

-- `operator<` of std::string.
unfoldable pub bytes_lt : Bytes → Bytes → Bool
bytes_lt xs [] = false
bytes_lt [] (y ∷ ys) = true
bytes_lt (x ∷ xs) (y ∷ ys) =
    let rest = bytes_lt xs ys in if ltb x y then true else if x == y then rest else false

-- std::map<string, ClientSessionPtr>, in the order of its keys; the four functions below serve the
-- sessions of the file server, too.
abbrev pub SessionMap : Type 0
SessionMap = List (Bytes × Session)

unfoldable pub map_find : {A : Type 0} → Bytes → List (Bytes × A) → Option A
map_find k [] = none
map_find k ((j, s) ∷ m) = if bytes_eq j k then some s else map_find k m

-- `insert` leaves a key that is there as it is.
unfoldable pub map_insert : {A : Type 0} → Bytes → A → List (Bytes × A) → List (Bytes × A)
map_insert k s [] = (k, s) ∷ []
map_insert k s ((j, t) ∷ m) =
    if bytes_eq j k
    then (j, t) ∷ m
    else if bytes_lt k j
    then (k, s) ∷ (j, t) ∷ m
    else (j, t) ∷ map_insert k s m

unfoldable pub map_erase : {A : Type 0} → Bytes → List (Bytes × A) → List (Bytes × A)
map_erase k [] = []
map_erase k ((j, t) ∷ m) = if bytes_eq j k then m else (j, t) ∷ map_erase k m

-- A change of the session object that a key names.
unfoldable pub map_set : {A : Type 0} → Bytes → A → List (Bytes × A) → List (Bytes × A)
map_set k s [] = []
map_set k s ((j, t) ∷ m) = if bytes_eq j k then (j, s) ∷ m else (j, t) ∷ map_set k s m

-- OnConnection and OnClose: `conn->connected()` chooses between them.
unfoldable pub on_close : Bytes → SessionMap → SessionMap
on_close conn m = map_erase conn m

unfoldable pub on_connection : Bytes → Bool → ℕ → SessionMap → SessionMap
on_connection conn connected memory m =
    if connected then map_insert conn (new_session memory) m else on_close conn m

-- The first session in the map whose user has the id.
unfoldable pub get_session_by_id : ℕ → SessionMap → Option Bytes
unfolding user_id
get_session_by_id id [] = none
get_session_by_id id ((k, s) ∷ m) = if user_id s == id then some k else get_session_by_id id m

unfoldable pub is_user_session_exsit : ℕ → SessionMap → Bool
unfolding user_id
is_user_session_exsit id [] = false
is_user_session_exsit id ((k, s) ∷ m) = if user_id s == id then true else is_user_session_exsit id m
