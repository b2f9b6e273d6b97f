-- ===== src/Examples/Runs.antt =====
-- The chat server over a few callbacks.
use my_project_imserver.Frame.Receive.{receive}
use my_project_imserver.Frame.Receive.{next_package}
use my_project_imserver.Frame.Receive.{chat_size}
use my_project_imserver.Frame.Receive.{handle}
use my_project_imserver.Cache.{get_chat}
use my_project_imserver.Session.World.{tell_online}
use my_project_imserver.Users.Manager.{get_friend_info_by_user_id}
use my_project_imserver.Users.Manager.{find_by_id}
use my_project_imserver.Users.Manager.{collect_users}
use my_project_imserver.Session.World.{target_session}
use my_project_imserver.Server.{get_session_by_id}
use my_project_imserver.Wire.Reader.{read_data}
use my_project_imserver.Wire.Reader.{new_reader}
use my_project_imserver.Wire.Compress.{compress}
use my_project_imserver.Session.World.{session_of}
use my_project_imserver.Base.{bytes_eq}
use my_project_imserver.Session.World.{put_session}
use my_project_imserver.Wire.Reader.{read_string}
use my_project_imserver.Wire.Compress.{length_loop}
use my_project_imserver.Session.Account.{on_login_response}
use my_project_imserver.Users.Manager.{get_user_info_by_username}
use my_project_imserver.Users.Manager.{find_by_name}
use my_project_imserver.Server.{map_set}
use my_project_imserver.Session.World.{send}
use my_project_imserver.Cache.{get_notify}
use my_project_imserver.Cache.{take_out}
use my_project_imserver.Base.{
  ◌≡◌, ◌⊎◌, refl, Bool, true, false, List, [], ◌∷◌, Option, none, some, if◌then◌else◌, ◌==◌, Bytes,
  codes,
}
use my_project_imserver.Frame.Buffer.{byte_buffer}
use my_project_imserver.Frame.Receive.{Outcome, done, crashed, out_of_fuel}
use my_project_imserver.Frame.Send.{package_of}
use my_project_imserver.Server.{new_session, map_find, on_connection, map_insert}
use my_project_imserver.Server.Laws.{IsSorted}
use my_project_imserver.Session.Json.{JsonApi}
use my_project_imserver.Session.World.{World, msg_type_login}
use my_project_imserver.Session.Process.{process, on_read}
use my_project_imserver.Session.Request.{request}
use my_project_imserver.Session.Keeping.{whose}
use my_project_imserver.Session.Isolation.Admission.{Granted}
use my_project_imserver.Session.Isolation.Requests.{LoginRequest, process_login}
use my_project_imserver.Server.Laws.{has}
use my_project_imserver.Runs.{
  connected, disconnected, received, opening, closing, reading, start, later, is_open,
}
use my_project_imserver.Session.Runs.Owners.{Owned}
use my_project_imserver.Session.Runs.{chat_server_lem, chat_server_others}
use my_project_imserver.Examples.Setting.{
  log_database, text_json, Value, text, object, key_a, key_b, world, sessions-IsSorted,
}

-- A text up to a colon, and behind it.
abbrev before_colon : Bytes → Bytes
before_colon [] = []
before_colon (c ∷ cs) = let rest = before_colon cs in if c == 58 then [] else c ∷ rest

abbrev behind_colon : Bytes → Bytes
behind_colon [] = []
behind_colon (c ∷ cs) = let rest = behind_colon cs in if c == 58 then cs else rest

-- An object is written as its name, a colon and its password; its other members are 1.
abbrev login_json : JsonApi
login_json = record {
  Value = Value;
  parse = λ s.
      some (object ((codes "username", before_colon s) ∷ (codes "password", behind_colon s) ∷ []));
  member = text_json.member;
  is_string = text_json.is_string;
  is_int = text_json.is_string;
  is_array = λ v. false;
  as_string = text_json.as_string;
  as_int = λ v. some 1;
  items = λ v. [];
  null = object [];
  clear = λ v. object [];
  of_int = text_json.of_int;
  of_string = text;
  set = text_json.set;
  append = λ k v w. w;
  styled = text_json.styled;
}

abbrev login_bob : Bytes
login_bob = request msg_type_login 7 (codes "bob:secret") []

abbrev empty : World (List Bytes)
empty = record world { sessions = [] }

abbrev opened : World (List Bytes)
opened = record world { sessions = (key_a, new_session 5) ∷ [] }

abbrev state_of : Option (Bool × World (List Bytes)) → World (List Bytes)
state_of none = world
state_of (some (ok, w)) = w

abbrev logged_in : World (List Bytes)
logged_in = state_of (process log_database login_json 0 key_a login_bob opened)

process_login_example :
    (whose logged_in.sessions ≡ whose opened.sessions)
    ⊎ ((text : Bytes) × LoginRequest login_bob text
        × Granted log_database login_json key_a text opened logged_in)
unfolding process read_data new_reader compress session_of map_find bytes_eq put_session read_string
    length_loop on_login_response get_user_info_by_username find_by_name map_set send get_notify
    take_out get_chat tell_online get_friend_info_by_user_id find_by_id collect_users target_session
    get_session_by_id
process_login_example =
    process_login log_database login_json 0 key_a login_bob opened logged_in true refl

-- One connection opens, sends a login and is closed; the other stays.
abbrev end_of : Outcome Bytes (World (List Bytes)) → World (List Bytes)
end_of (done b w) = w
end_of crashed = world
end_of out_of_fuel = world

abbrev served : World (List Bytes)
served =
    end_of (on_read log_database login_json 0 key_a byte_buffer (package_of 4 login_bob) opened)

login_read :
    on_read log_database login_json 0 key_a byte_buffer (package_of 4 login_bob) opened
    ≡ done [] served
unfolding on_read receive next_package compress chat_size handle read_data new_reader session_of
    map_find bytes_eq put_session read_string length_loop on_login_response
    get_user_info_by_username my_project_imserver.Frame.Receive.on_read find_by_name map_set send
    get_notify take_out get_chat tell_online get_friend_info_by_user_id find_by_id collect_users
    target_session get_session_by_id
login_read = refl

chat_server_lem_example :
    IsSorted served.sessions
    × ((k : Bytes) → has k served.sessions ≡ is_open (received key_a ∷ connected key_a ∷ []) k)
    × Owned served.manager served.sessions
unfolding on_connection map_insert
chat_server_lem_example = chat_server_lem log_database login_json byte_buffer {w0 = empty} refl (
    later (later start (opening key_a 5 empty))
      (reading key_a 0 (package_of 4 login_bob) [] opened served login_read))

abbrev left : World (List Bytes)
left = record world { sessions = on_connection key_b false 0 world.sessions }

chat_server_others_example : map_find key_a left.sessions ≡ map_find key_a world.sessions
unfolding bytes_eq
chat_server_others_example =
    chat_server_others log_database login_json byte_buffer {w = world} {w' = left} key_a
      (later {es = []} {e = disconnected key_b} start (closing key_b 0 world)) refl
      sessions-IsSorted
