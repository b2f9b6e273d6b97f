-- ===== src/Session/Login.antt =====
-- What a login of EdoyumIMServer/ClientSession.cpp does to the sessions, the caches and the connections.
use my_project_imserver.Base.{
  ℕ, ◌≡◌, refl, ap, ◌∙◌, Bool, false, not, List, [], ◌∷◌, ◌++◌, Option, none, some, if◌then◌else◌,
  arith, append_assoc, append-nil, All, map, Bytes, bytes_eq,
}
use my_project_imserver.Wire.Writer.{write_string, new_writer}
use my_project_imserver.Frame.Send.{package_of, chat_send}
use my_project_imserver.Cache.{Cached, get_notify, get_chat}
use my_project_imserver.Users.Types.{User}
use my_project_imserver.Users.Manager.{DbApi, get_user_info_by_username, get_friend_info_by_user_id}
use my_project_imserver.Server.{Session, map_find, map_set}
use my_project_imserver.Server.Laws.{IsSorted}
use my_project_imserver.Server.Update.{map_find-set, map_set-IsSorted}
use my_project_imserver.Session.Json.{JsonApi, string_at, int_at, status}
use my_project_imserver.Session.World.{
  World, M, ◌>>=◌, ◌>>◌, run_cache, of_manager, lift, session_of, put_session, send_last, reply,
  tell_online, msg_type_login, send,
}
use my_project_imserver.Session.Account.{answer, login_data, send_cached, login_user, check_login}
use my_project_imserver.Wire.Strings.{IsText, string_body, string-Holds, length-string_body}
use my_project_imserver.Session.Sending.{send_last_lem, bind-some, next-some, session_of-found}
use my_project_imserver.Session.Notices.{sending, sending_then, notices, tell_online_lem}

module _ (database : DbApi) (json : JsonApi) (this : Bytes) where
  open database use {Db}

  -- Cached messages below 2^31 - 65536 bytes are sent in order, each as a package whose body is
  -- the message behind its length: a body that has been cached whole arrives with a prefix that
  -- the same message has not where it is delivered at once.
  pub send_cached_lem :
      (cs : List Cached) (w : World Db)
      → All (λ c. IsText c.text) cs
      → send_cached database json this cs w
        ≡ some (tt, sending (map (λ (c : Cached). (this, package_of 4 (string_body c.text))) cs) w)
  unfolding send_cached
  send_cached_lem [] w h = rw append-nil refl
  send_cached_lem (c ∷ cs) w (p, ps) =
      let item : Bytes × Bytes = (this, package_of 4 (string_body c.text)) in
      sending_then (send_last this (write_string c.text new_writer))
        (send_cached database json this cs) (item ∷ [])
        (map (λ (c : Cached). (this, package_of 4 (string_body c.text))) cs) w
        (send_last_lem this _ (string_body c.text) w (string-Holds c.text p)
          (omega (arith, length-string_body c.text p)))
        (send_cached_lem cs (sending (item ∷ []) w) ps)

  pub answer_lem :
      (cmd : ℕ) (response : json.Value) (s : Session) (w : World Db)
      → map_find this w.sessions ≡ some s
      → answer database json this cmd response w
        ≡ some (tt, sending ((this, (chat_send (reply cmd s.seq (json.styled response))).0) ∷ []) w)
  unfolding answer send
  answer_lem cmd response s w found =
      bind-some (session_of this) _ s w w (session_of-found this s w found)

  -- Whether a login is let in: the user is known and has the password.
  abbrev pub admits : Option User → Bytes → Bool
  admits none password = false
  admits (some user) password = bytes_eq password user.password

  -- Why it is not.
  abbrev pub refusal : Option User → json.Value
  refusal none = status json 103 "user is not exist or password is incorrest!" json.null
  refusal (some user) = status json 104 "user is not exist or password is incorrest!" json.null

  -- A login of an unknown user or with a wrong password is answered by the code 103 or 104 on the
  -- session's own connection, and changes no session, no cache, no user and no table.
  pub check_login_refused :
      (root : json.Value) (username password : Bytes) (s : Session) (w : World Db)
      → string_at json "username" root ≡ some username
      → string_at json "password" root ≡ some password
      → admits (get_user_info_by_username username w.manager) password ≡ false
      → map_find this w.sessions ≡ some s
      → check_login database json this root w
        ≡ some (
          tt,
          sending
              ((
                this,
                (chat_send (
                    reply msg_type_login s.seq
                      (json.styled (refusal (get_user_info_by_username username w.manager))))).0,
              )
                ∷ [])
              w,
        )
  unfolding check_login
  check_login_refused root username password s w hu hp refuse found =
      rw (hu, hp) (by_lookup (get_user_info_by_username username w.manager) refuse)
    where
      by_lookup :
          (user : Option User)
          → admits user password ≡ false
          → (elim user as (λ _. M Db (Unit {0})) [
            | none ↦ answer database json this msg_type_login (refusal none)
            | some u ↦
                if not (bytes_eq password u.password)
                then answer database json this msg_type_login (refusal (some u))
                else do
                  clienttype ← lift (int_at json "clienttype" root)
                  login_user database json this u username password clienttype
          ])
              w
            ≡ some (
              tt,
              sending
                  ((this, (chat_send (reply msg_type_login s.seq (json.styled (refusal user)))).0)
                    ∷ [])
                  w,
            )
      by_lookup none denied = answer_lem msg_type_login (refusal none) s w found
      by_lookup (some u) denied = rw denied (answer_lem msg_type_login (refusal (some u)) s w found)

  abbrev pub strings : List Cached → List (Bytes × Bytes)
  strings = map (λ (c : Cached). (this, package_of 4 (string_body c.text)))

  -- The session of a user who has logged in.
  abbrev pub logged_in : User → Bytes → Bytes → ℕ → Session → Session
  logged_in user username password clienttype s = record s {
    user = record s.user {
      userid = user.userid;
      username = username;
      nickname = user.nickname;
      password = password;
      clienttype = clienttype;
      status = 1;
    };
  }

  -- The response that it gets.
  abbrev pub first : User → Bytes → Session → Bytes × Bytes
  first user username s =
      let response = login_data database json this user username in
      (this, (chat_send (reply msg_type_login s.seq (json.styled response))).0)

  -- What follows the response.
  after_response :
      (userid : ℕ) (w : World Db)
      → IsSorted w.sessions
      → All (λ c. IsText c.text) (get_notify userid w.cache).0
      → All (λ c. IsText c.text) (get_chat userid (get_notify userid w.cache).1).0
      → (do
        notifications ← run_cache (get_notify userid)
        send_cached database json this notifications
        chats ← run_cache (get_chat userid)
        send_cached database json this chats
        friends ← of_manager (get_friend_info_by_user_id userid)
        tell_online json friends userid 1)
          w
        ≡ some (
          tt,
          sending
              (strings (get_notify userid w.cache).0
                ++ (strings (get_chat userid (get_notify userid w.cache).1).0
                    ++ notices json userid 1 w.sessions
                        (get_friend_info_by_user_id userid w.manager)))
              (record w { cache = (get_chat userid (get_notify userid w.cache).1).1 }),
        )
  after_response userid w sorted hn hc =
      let (notifications, c1) = get_notify userid w.cache in
      let (chats, c2) = get_chat userid c1 in
      let v1 : World Db = record w { cache = c1 } in
      let v2 : World Db = sending (strings notifications) v1 in
      let v3 : World Db = record v2 { cache = c2 } in
      let v4 : World Db = sending (strings chats) v3 in
      next-some (send_cached database json this notifications) _ v1 v2
        (send_cached_lem notifications v1 hn)
      ∙ next-some (send_cached database json this chats) _ v3 v4 (send_cached_lem chats v3 hc)
      ∙ tell_online_lem json (get_friend_info_by_user_id userid w.manager) userid 1 v4 sorted
      ∙ ap (λ out. some (tt, record w { cache = c2; sent = out }))
          (append_assoc (w.sent ++ strings notifications) (strings chats) _
            ∙ append_assoc w.sent (strings notifications) _)

  -- A login that is let in gives the session the user, sends the response, then every cached
  -- notification and every cached chat message of the user in the order of caching, each as a
  -- string behind its length, then a notice to each friend who is online; the user is taken out
  -- of both caches, and nothing else changes. The map of sessions is in order, the session is in
  -- it, and the cached texts are below 2^31 - 65536 bytes.
  pub login_user_lem :
      (user : User) (username password : Bytes) (clienttype : ℕ) (s : Session) (w : World Db)
      → map_find this w.sessions ≡ some s
      → IsSorted w.sessions
      → All (λ c. IsText c.text) (get_notify user.userid w.cache).0
      → All (λ c. IsText c.text) (get_chat user.userid (get_notify user.userid w.cache).1).0
      → let (notifications, cache) = get_notify user.userid w.cache in
        let (chats, cache') = get_chat user.userid cache in
        let s' = logged_in user username password clienttype s in
        let sessions = map_set this s' w.sessions in
        let friends = get_friend_info_by_user_id user.userid w.manager in
        login_user database json this user username password clienttype w
        ≡ some (
          tt,
          sending
              (first user username s
                ∷ (strings notifications
                    ++ (strings chats ++ notices json user.userid 1 sessions friends)))
              (record w { sessions = sessions; cache = cache' }),
        )
  unfolding login_user put_session
  login_user_lem user username password clienttype s w found sorted hn hc =
      let s' = logged_in user username password clienttype s in
      let w1 : World Db = record w { sessions = map_set this s' w.sessions } in
      let w2 : World Db = sending (first user username s ∷ []) w1 in
      bind-some (session_of this) _ s w w (session_of-found this s w found)
      ∙ next-some
          (answer database json this msg_type_login (login_data database json this user username)) _
          w1 w2
          (answer_lem msg_type_login (login_data database json this user username) s' w1
            (map_find-set this s' s w.sessions found))
      ∙ after_response user.userid w2 (map_set-IsSorted this s' w.sessions sorted) hn hc
      ∙ ap
          (λ out. some (
            tt,
            record w {
              sessions = w1.sessions;
              cache = (get_chat user.userid (get_notify user.userid w.cache).1).1;
              sent = out;
            },
          ))
          (append_assoc w.sent (first user username s ∷ []) _)
