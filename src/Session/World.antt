-- ===== src/Session/World.antt =====
-- The state that the handlers share, and what they do to it: the singletons IMServer, UserManager and
-- MsgCacheManager, the database, and what was handed to the network. One event loop runs the
-- handlers one after the other.
use my_project_imserver.Base.{
  ℕ, List, [], ◌∷◌, ◌++◌, Option, none, some, if◌then◌else◌, ◌==◌, Bytes,
}
use my_project_imserver.Wire.Writer.{Writer, new_writer, write_net, write_string}
use my_project_imserver.Frame.Send.{chat_send}
use my_project_imserver.Cache.{MsgCache}
use my_project_imserver.Users.Types.{User}
use my_project_imserver.Users.Manager.{UserManager}
use my_project_imserver.Server.{Session, SessionMap, map_find, map_set, get_session_by_id}
use my_project_imserver.Session.Json.{JsonApi, put_int}

-- `sent` and `closed` list the calls of `send` and `forceClose` on the connections, oldest first.
pub record World (Db : Type 0) : Type 0 where
  pub sessions : SessionMap
  pub manager : UserManager
  pub cache : MsgCache
  pub db : Db
  pub sent : List (Bytes × Bytes)
  pub closed : List Bytes

-- `none` is an exception that nothing catches, or undefined behaviour.
abbrev pub M : Type 0 → Type 0 → Type 0
M Db A = World Db → Option (A × World Db)

infixl 5 ◌>>=◌ ◌>>◌
abbrev pub ◌>>=◌ : {Db A B : Type 0} → M Db A → (A → M Db B) → M Db B
◌>>=◌ m f w = elim (m w) [ none ↦ none | some (a, w') ↦ f a w' ]

abbrev pub ◌>>◌ : {Db B : Type 0} → M Db (Unit {0}) → M Db B → M Db B
◌>>◌ m k w = elim (m w) [ none ↦ none | some (_, w') ↦ k w' ]

abbrev pub return : {Db A : Type 0} → A → M Db A
return a w = some (a, w)

abbrev pub lift : {Db A : Type 0} → Option A → M Db A
lift none w = none
lift (some a) w = some (a, w)

abbrev pub throw : {Db A : Type 0} → M Db A
throw w = none

-- Calls of the singletons.
abbrev pub of_manager : {Db A : Type 0} → (UserManager → A) → M Db A
of_manager f w = some (f w.manager, w)

abbrev pub run_manager : {Db A : Type 0} → (UserManager → Db → A × UserManager × Db) → M Db A
run_manager f w = let (a, m, d) = f w.manager w.db in some (a, record w { manager = m; db = d })

abbrev pub run_db : {Db A : Type 0} → (Db → A × Db) → M Db A
run_db f w = let (a, d) = f w.db in some (a, record w { db = d })

abbrev pub run_cache : {Db A : Type 0} → (MsgCache → A × MsgCache) → M Db A
run_cache f w = let (a, c) = f w.cache in some (a, record w { cache = c })

abbrev pub change_cache : {Db : Type 0} → (MsgCache → MsgCache) → M Db (Unit {0})
change_cache f w = some (tt, record w { cache = f w.cache })

-- The session object of a connection. A handler runs on one that is in the map.
unfoldable pub session_of : {Db : Type 0} → Bytes → M Db Session
session_of k w = elim (map_find k w.sessions) [ none ↦ none | some s ↦ some (s, w) ]

unfoldable pub put_session : {Db : Type 0} → Bytes → Session → M Db (Unit {0})
put_session k s w = some (tt, record w { sessions = map_set k s w.sessions })

-- `GetSessionByID`.
unfoldable pub target_session : {Db : Type 0} → ℕ → M Db (Option Bytes)
target_session id w = some (get_session_by_id id w.sessions, w)

-- `Send(writer)` of the session of a connection, which leaves the header in the writer.
unfoldable pub send : {Db : Type 0} → Bytes → Writer → M Db Writer
send k writer w =
    let (bytes, writer') = chat_send writer in
    some (writer', record w { sent = w.sent ++ (k, bytes) ∷ [] })

-- `Send` where the writer is not used again.
abbrev pub send_last : {Db : Type 0} → Bytes → Writer → M Db (Unit {0})
send_last k writer = do writer' ← send k writer; return tt

-- The command, the session's number and a text.
unfoldable pub reply : ℕ → ℕ → Bytes → Writer
reply cmd seq text = write_string text (write_net seq (write_net cmd new_writer))

-- The message types of EdoyumIMServer/ClientSession.h.
abbrev pub msg_type_headerbeart : ℕ
msg_type_headerbeart = 1000

abbrev pub msg_type_register : ℕ
msg_type_register = 1001

abbrev pub msg_type_login : ℕ
msg_type_login = 1002

abbrev pub msg_type_getofriendlist : ℕ
msg_type_getofriendlist = 1003

abbrev pub msg_type_finduser : ℕ
msg_type_finduser = 1004

abbrev pub msg_type_operatefriend : ℕ
msg_type_operatefriend = 1005

abbrev pub msg_type_userstatuschange : ℕ
msg_type_userstatuschange = 1006

abbrev pub msg_type_updateuserinfo : ℕ
msg_type_updateuserinfo = 1007

abbrev pub msg_type_modifypassword : ℕ
msg_type_modifypassword = 1008

abbrev pub msg_type_creategroup : ℕ
msg_type_creategroup = 1009

abbrev pub msg_type_getgroupmembers : ℕ
msg_type_getgroupmembers = 1010

abbrev pub msg_type_chat : ℕ
msg_type_chat = 1100

abbrev pub msg_type_multichat : ℕ
msg_type_multichat = 1101

-- The body of SendUserStatusChangeMsg.
unfoldable pub status_data : (json : JsonApi) → ℕ → json.Value
status_data json type =
    if type == 1
    then put_int json "onlinestatus" 1 (put_int json "type" 1 json.null)
    else if type == 2
    then put_int json "onlinestatus" 0 (put_int json "type" 2 json.null)
    else if type == 3
    then put_int json "type" 3 json.null
    else json.null

module _ {Db : Type 0} (json : JsonApi) where
  unfoldable pub send_user_status_change_msg : Bytes → ℕ → ℕ → M Db (Unit {0})
  unfolding status_data reply
  send_user_status_change_msg k userid type = do
    s ← session_of k
    send_last k (
        write_net userid
          (reply msg_type_userstatuschange s.seq (json.styled (status_data json type))))

  -- The loops that tell the friends who are online.
  unfoldable pub tell_online : List User → ℕ → ℕ → M Db (Unit {0})
  tell_online [] userid type = return tt
  tell_online (u ∷ us) userid type = do
    target ← target_session u.userid
    elim target [ none ↦ return tt | some k ↦ send_user_status_change_msg k userid type ]
    tell_online us userid type
