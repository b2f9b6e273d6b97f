-- ===== src/Examples/Session.antt =====
-- Requests on the server at concrete inputs.
use my_project_imserver.Cache.Laws.{owed}
use my_project_imserver.Base.{
  ℕ, ◌++◌, be_word, if◌then◌else◌, ◌==◌, List, if◌then◌else◌, ◌==◌, ◌≡◌, refl, arith, true, [], ◌∷◌,
  ◌++◌, none, some, ◌+◌, length, Bytes, IsWord, bytes_eq, be_word, codes, IsWord,
}
use my_project_imserver.Wire.Writer.{Writer, Holds}
use my_project_imserver.Frame.Send.{package_of, header_of, chat_send}
use my_project_imserver.Cache.{MsgCache, get_notify, get_chat, take_out}
use my_project_imserver.Users.Types.{User}
use my_project_imserver.Users.Manager.{
  get_friend_info_by_user_id, get_user_info_by_username, find_by_name,
}
use my_project_imserver.Server.{map_find, map_set, get_session_by_id}
use my_project_imserver.Session.World.{World, reply, msg_type_chat, msg_type_login}
use my_project_imserver.Session.Account.{login_user, check_login}
use my_project_imserver.Session.Chat.{chat_writer, deliver_group}
use my_project_imserver.Session.Chat.Delivery.{
  chat_body, length-chat_body, chat_writer-Holds, delivered, delivered_all, deliver_group_lem,
  deliver_group_online,
}
use my_project_imserver.Session.Process.{dispatch, process}
use my_project_imserver.Wire.Strings.{string_body}
use my_project_imserver.Session.Request.{request, handled, numbered, process-request}
use my_project_imserver.Server.Laws.{IsSorted}
use my_project_imserver.Session.Isolation.Requests.{process_others}
use my_project_imserver.Session.Exchange.{
  stored, process_chat, process_chat_owed, process_login_crash,
}
use my_project_imserver.Session.Notices.{sending, notices}
use my_project_imserver.Session.Login.{
  strings, first, refusal, logged_in, check_login_refused, login_user_lem,
}
use my_project_imserver.Examples.Setting.{
  log_database, text_json, Value, text, object, user, manager, key_a, key_b, sessions, cache, world,
  sessions-IsSorted, ann, ann-found,
}

process-request_example :
    process log_database text_json 0 key_a (request 1003 7 (codes "x") []) world
    ≡ handled (
        dispatch log_database text_json 0 key_a 1003
          (codes "x")
          (record {
            buffer = request 1003 7 (codes "x") [];
            index = 8 + length (string_body (codes "x"));
          })
          (numbered key_a 7 ann world))
process-request_example =
    process-request log_database text_json 0 key_a 1003 7 (codes "x") [] ann world (omega arith)
      (omega arith) (omega arith) ann-found

process_chat_example :
    process log_database text_json 0 key_a
      (request msg_type_chat 7 (codes "hi") (be_word 2 ++ []))
      world
    ≡ some (
      true,
      delivered 2
          (chat_body 7 (codes "hi") 1 2)
          (stored log_database text_json 0 key_a 7 (codes "hi") 2 ann world),
    )
process_chat_example =
    process_chat log_database text_json 0 key_a 7 2 (codes "hi") [] ann world (omega arith)
      (omega arith) (omega arith) (omega arith) refl ann-found

process_login_crash_example :
    process log_database text_json 0 key_a (request msg_type_login 7 (codes "[]") []) world ≡ none
process_login_crash_example =
    process_login_crash log_database text_json 0 key_a 7 (codes "[]") [] (text (codes "[]")) ann
      world (omega arith) (omega arith) ann-found refl refl

abbrev hello : Writer
hello = chat_writer 7 (codes "hi") 1 0x1000_0000

abbrev hello_body : Bytes
hello_body = chat_body 7 (codes "hi") 1 0x1000_0000

hello-Holds : Holds hello hello_body
hello-Holds =
    chat_writer-Holds 7 (codes "hi") 1 0x1000_0000 (omega arith) (omega arith) (omega arith)
      (omega arith)

hello-fits : IsWord (length hello_body)
hello-fits = omega (arith, length-chat_body 7 (codes "hi") 1 0x1000_0000 (omega arith))

abbrev bob : User
bob = user 2 (codes "bob") []

abbrev cy : User
cy = user 3 (codes "cy") []

deliver_group_lem_example :
    deliver_group (cy ∷ bob ∷ []) hello world
    ≡ some (tt, delivered_all (cy ∷ bob ∷ []) hello_body world)
deliver_group_lem_example =
    deliver_group_lem (cy ∷ bob ∷ []) hello hello_body world hello-Holds hello-fits

deliver_group_online_example :
    deliver_group (user 1 (codes "ann") [] ∷ bob ∷ []) hello world
    ≡ some (
      tt,
      record world {
        sent = (key_a, package_of 4 hello_body) ∷ (key_b, package_of 4 (header_of hello_body)) ∷ [];
      },
    )
unfolding get_session_by_id
deliver_group_online_example =
    deliver_group_online (user 1 (codes "ann") []) bob key_a key_b hello hello_body world
      hello-Holds hello-fits refl refl

abbrev wrong_login : Value
wrong_login = object ((codes "username", codes "bob") ∷ (codes "password", codes "guess") ∷ [])

check_login_refused_example :
    check_login log_database text_json key_a wrong_login world
    ≡ some (
      tt,
      sending
          ((
            key_a,
            (chat_send (
                reply msg_type_login 0 (
                  text_json.styled (
                    refusal log_database text_json key_a
                      (get_user_info_by_username (codes "bob") manager))))).0,
          )
            ∷ [])
          world,
    )
unfolding get_user_info_by_username find_by_name bytes_eq
check_login_refused_example =
    check_login_refused log_database text_json key_a wrong_login (codes "bob") (codes "guess") ann
      world refl refl refl ann-found

-- Bob is owed a notification and two messages.
abbrev waiting : MsgCache
waiting = record {
  notify_msgs =
      record { userid = 1; text = codes "n" } ∷ record { userid = 2; text = codes "p" } ∷ [];
  chat_msgs =
      record { userid = 2; text = codes "m" }
      ∷ record { userid = 3; text = codes "k" }
      ∷ record { userid = 2; text = codes "q" }
      ∷ [];
}

abbrev awaited : World (List Bytes)
awaited = record world { cache = waiting }

login_user_lem_example :
    login_user log_database text_json key_a bob (codes "bob") (codes "secret") 1 awaited
    ≡ some (
      tt,
      sending
          (first log_database text_json key_a bob (codes "bob") ann
            ∷ (strings log_database text_json key_a (get_notify 2 waiting).0
                ++ (strings log_database text_json key_a (get_chat 2 (get_notify 2 waiting).1).0
                    ++ notices text_json 2 1
                        (map_set key_a
                          (logged_in log_database text_json key_a bob
                            (codes "bob")
                            (codes "secret")
                            1
                            ann)
                          sessions)
                        (get_friend_info_by_user_id 2 manager))))
          (record awaited {
            sessions =
                map_set key_a
                  (logged_in log_database text_json key_a bob (codes "bob") (codes "secret") 1 ann)
                  sessions;
            cache = (get_chat 2 (get_notify 2 waiting).1).1;
          }),
    )
unfolding get_notify get_chat take_out
login_user_lem_example =
    login_user_lem log_database text_json key_a bob (codes "bob") (codes "secret") 1 ann awaited
      ann-found sessions-IsSorted (omega arith, tt) (omega arith, (omega arith, tt))

process_chat_owed_example :
    (w' : World (List Bytes)) × (process log_database text_json 0 key_a
        (request msg_type_chat 7 (codes "hi") (be_word 3 ++ []))
        world
      ≡ some (true, w'))
    × ((v : ℕ)
        → owed v w'.cache.chat_msgs ≡ (
            if 3 == v
            then owed v cache.chat_msgs ++ chat_body 7 (codes "hi") 1 3 ∷ []
            else owed v cache.chat_msgs))
    × (w'.sent ≡ [])
    × (get_session_by_id 3 w'.sessions ≡ none)
unfolding get_session_by_id
process_chat_owed_example =
    process_chat_owed log_database text_json 0 key_a 7 3 (codes "hi") [] ann world (omega arith)
      (omega arith) (omega arith) (omega arith) refl ann-found refl

process_others_example :
    (map_find key_b
        (delivered 2
          (chat_body 7 (codes "hi") 1 2)
          (stored log_database text_json 0 key_a 7 (codes "hi") 2 ann world)).sessions
      ≡ map_find key_b sessions)
    × IsSorted
        (delivered 2
          (chat_body 7 (codes "hi") 1 2)
          (stored log_database text_json 0 key_a 7 (codes "hi") 2 ann world)).sessions
    × ((delivered 2
          (chat_body 7 (codes "hi") 1 2)
          (stored log_database text_json 0 key_a 7 (codes "hi") 2 ann world)).closed
        ≡ [])
unfolding bytes_eq
process_others_example =
    process_others log_database text_json 0 key_a
      (request msg_type_chat 7 (codes "hi") (be_word 2 ++ [])) key_b world
      (delivered 2 (chat_body 7 (codes "hi") 1 2)
        (stored log_database text_json 0 key_a 7 (codes "hi") 2 ann world))
      true refl sessions-IsSorted
      (process_chat log_database text_json 0 key_a 7 2 (codes "hi") [] ann world (omega arith)
        (omega arith) (omega arith) (omega arith) refl ann-found)
