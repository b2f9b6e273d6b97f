-- ===== src/Runs.antt =====
-- A server over time (EdoyumIMServer/IMServer.cpp, EdoyumIMServer/FileServer/FileServer.cpp): the network
-- library calls OnConnection where a connection opens or closes, and OnRead of its session where it has
-- received something. In which order, on which connections and with which bytes is up to the clients.
pub mod Reachable
use my_project_imserver.Base.{
  ℕ, ◌≡◌, Bool, true, false, not, ◌&&◌, ◌||◌, List, [], ◌∷◌, Bytes, bytes_eq,
}
use my_project_imserver.Frame.Receive.{Outcome, done}

-- A server: its state with its map of sessions, and its two callbacks. The number stands for what
-- uninitialised memory holds in a call.
pub record ServerApi : Type 1 where
  pub State : Type 0
  pub Item : Type 0
  pub Buf : Type 0
  pub sessions : State → List (Bytes × Item)
  pub change : Bytes → Bool → ℕ → State → State
  pub read : Bytes → ℕ → Buf → State → Outcome Buf State

-- A callback, with the connection that it is for.
pub data Event : Type 0 where
  connected disconnected received : Bytes → Event

abbrev pub conn_of : Event → Bytes
conn_of (connected j) = j
conn_of (disconnected j) = j
conn_of (received j) = j

module _ (server : ServerApi) where
  open server use {State, Buf, change, read}

  -- What a callback does to the server where it returns; the input buffer of the connection is
  -- whatever it is by then.
  pub data Step : Event → State → State → Type 0 where
    opening :
        (conn : Bytes) (memory : ℕ) (v : State)
        → Step (connected conn) v (change conn true memory v)
    closing :
        (conn : Bytes) (memory : ℕ) (v : State)
        → Step (disconnected conn) v (change conn false memory v)
    reading :
        (conn : Bytes) (memory : ℕ) (b b' : Buf) (v v' : State)
        → read conn memory b v ≡ done b' v'
        → Step (received conn) v v'

  -- The server after some callbacks, the last of them first in the list.
  pub data Run (v : State) : List Event → State → Type 0 where
    start : Run v [] v
    later : {es : List Event} {e : Event} {u w : State} → Run v es u → Step e u w → Run v (e ∷ es) w

-- Whether a connection is open behind some callbacks, none being open before them.
abbrev pub is_open : List Event → Bytes → Bool
is_open [] k = false
is_open (connected j ∷ es) k = bytes_eq j k || is_open es k
is_open (disconnected j ∷ es) k = not (bytes_eq j k) && is_open es k
is_open (received j ∷ es) k = is_open es k

-- Whether none of the callbacks is for a connection.
abbrev pub is_idle : List Event → Bytes → Bool
is_idle [] k = true
is_idle (e ∷ es) k = not (bytes_eq (conn_of e) k) && is_idle es k
