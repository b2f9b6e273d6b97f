-- ===== src/Session/Exchange.antt =====
-- Requests of EdoyumIMServer/ClientSession.cpp from their bytes to what the server does.
use my_project_imserver.Base.{
  none, if◌then◌else◌, ◌==◌, codes, none, refl, ℕ, ◌+◌, ◌<◌, ◌≡◌, ap, ◌∙◌, true, false, [], ◌∷◌,
  ◌++◌, some, arith, length, Bytes, IsWord, be_word,
}
use my_project_imserver.Wire.Reader.{read_data-be_word}
use my_project_imserver.Frame.Send.{package_of}
use my_project_imserver.Users.Types.{is_group}
use my_project_imserver.Users.Manager.{DbApi, save_chat_msg_to_db}
use my_project_imserver.Cache.{add_chat}
use my_project_imserver.Cache.Laws.{owed, add_chat_lem}
use my_project_imserver.Server.{get_session_by_id, user_id, Session, map_find, map_set}
use my_project_imserver.Server.Update.{get_session_by_id-set, map_find-set, map_set-set}
use my_project_imserver.Session.Json.{JsonApi}
use my_project_imserver.Session.World.{
  World, session_of, put_session, msg_type_headerbeart, msg_type_login, msg_type_chat,
}
use my_project_imserver.Session.Account.{on_heartbeat_response, on_login_response}
use my_project_imserver.Session.Chat.{chat_writer, deliver_to, on_chat_response}
use my_project_imserver.Session.Chat.Delivery.{
  chat_body, length-chat_body, chat_writer-Holds, delivered, delivered-offline, deliver_to_lem,
}
use my_project_imserver.Session.Process.{read_target, dispatch, process}
use my_project_imserver.Wire.Strings.{IsText, string_body, length-string_body}
use my_project_imserver.Session.Sending.{
  reply_body, reply-Holds, send_last_lem, bind-some, next-some, session_of-found,
}
use my_project_imserver.Session.Request.{request, handled, numbered, process-request}

module _ (database : DbApi) (json : JsonApi) (memory : ℕ) (this : Bytes) where
  open database use {Db}

  -- A heartbeat on a session that the server has is answered on the same connection by a package
  -- of the same command, the number of the request and an empty string, whatever its text below
  -- 2^31 - 65536 bytes is, and changes the session's number only.
  pub process_heartbeat :
      (seq : ℕ) (text rest : Bytes) (s : Session) (w : World Db)
      → IsWord seq
      → IsText text
      → map_find this w.sessions ≡ some s
      → process database json memory this (request msg_type_headerbeart seq text rest) w
        ≡ some (
          true,
          record (numbered this seq s w) {
            sent = w.sent ++ (this, package_of 4 (reply_body msg_type_headerbeart seq [])) ∷ [];
          },
        )
  unfolding dispatch on_heartbeat_response
  process_heartbeat seq text rest s w hs ht found =
      let s' : Session = record s { seq = seq } in
      process-request database json memory this msg_type_headerbeart seq text rest s w (omega arith)
        hs ht found
      ∙ ap handled (
          bind-some (session_of this) _ s' (numbered this seq s w) (numbered this seq s w) (
            session_of-found this s' (numbered this seq s w)
              (map_find-set this s' s w.sessions found))
          ∙ send_last_lem this _ (reply_body msg_type_headerbeart seq []) (numbered this seq s w)
              (reply-Holds msg_type_headerbeart seq [] (omega arith) hs (omega arith))
              (omega (arith, length-string_body [] (omega arith))))

  -- The session aims at a target, and the message is in the database.
  abbrev pub stored : ℕ → Bytes → ℕ → Session → World Db → World Db
  stored seq text target s w = record w {
    sessions = map_set this (record s { seq = seq; target = target }) w.sessions;
    db = (save_chat_msg_to_db database s.user.userid target text w.db).1;
  }

  read_target_lem :
      (target i : ℕ) (front rest : Bytes) (s : Session) (w : World Db)
      → i ≡ length front
      → IsWord target
      → length front + 4 < 0x1_0000_0000
      → map_find this w.sessions ≡ some s
      → read_target database json memory this
          (record { buffer = front ++ (be_word target ++ rest); index = i })
          w
        ≡ some (tt, record w { sessions = map_set this (record s { target = target }) w.sessions })
  unfolding read_target put_session
  read_target_lem target i front rest s w hi ht fits found =
      rw (hi, read_data-be_word target front rest ht fits, read_target)
        (bind-some (session_of this) _ s w w (session_of-found this s w found))

  chat_single :
      (text : Bytes) (s : Session) (w : World Db)
      → IsWord s.seq
      → IsWord s.user.userid
      → IsWord s.target
      → IsText text
      → is_group s.target ≡ false
      → map_find this w.sessions ≡ some s
      → on_chat_response database json this text w
        ≡ some (
          tt,
          delivered s.target
              (chat_body s.seq text s.user.userid s.target)
              (record w { db = (save_chat_msg_to_db database s.user.userid s.target text w.db).1 }),
        )
  unfolding on_chat_response
  chat_single text s w hq hu ht h single found =
      let saved : World Db = record w {
        db = (save_chat_msg_to_db database s.user.userid s.target text w.db).1;
      } in
      let body = chat_body s.seq text s.user.userid s.target in
      let writer = chat_writer s.seq text s.user.userid s.target in
      let (writer', e, _) =
        deliver_to_lem s.target writer body saved
          (chat_writer-Holds s.seq text s.user.userid s.target hq h hu ht)
          (omega (arith, length-chat_body s.seq text s.user.userid s.target h)) in
      bind-some (session_of this) _ s w w (session_of-found this s w found)
      ∙ rw (single, on_chat_response)
          (bind-some (deliver_to s.target writer) _ writer' saved (delivered s.target body saved) e)

  -- A chat request to a single user, whose text is below 2^31 - 65536 bytes, on a session that
  -- the server has, is processed: the session takes the number and the target, the message is
  -- stored, and the body of text, sender and target is put as one package on the connection of
  -- the session that the target is found under, or is cached for the target where no session is
  -- found.
  pub process_chat :
      (seq target : ℕ) (text rest : Bytes) (s : Session) (w : World Db)
      → IsWord seq
      → IsWord s.user.userid
      → IsWord target
      → IsText text
      → is_group target ≡ false
      → map_find this w.sessions ≡ some s
      → process database json memory this
          (request msg_type_chat seq text (be_word target ++ rest))
          w
        ≡ some (
          true,
          delivered target (chat_body seq text s.user.userid target) (stored seq text target s w),
        )
  unfolding dispatch
  process_chat seq target text rest s w hq hu ht h single found =
      let s' : Session = record s { seq = seq } in
      let w' : World Db = numbered this seq s w in
      let s'' : Session = record s' { target = target } in
      let aimed : World Db = record w { sessions = map_set this s'' w.sessions } in
      let front = be_word msg_type_chat ++ (be_word seq ++ string_body text) in
      let found' = map_find-set this s' s w.sessions found in
      process-request database json memory this msg_type_chat seq text (be_word target ++ rest) s w
        (omega arith) hq h found
      ∙ ap handled (
          next-some (read_target database json memory this _) _ w' aimed (
            read_target_lem target (8 + length (string_body text)) front rest s' w' (omega arith) ht
              (omega (arith, length-string_body text h)) found'
            ∙ ap (λ m. some (tt, record w' { sessions = m })) (map_set-set this s'' s' w.sessions))
          ∙ chat_single text s'' aimed hq hu ht h single (map_find-set this s'' s w.sessions found))

  login_crash :
      (text : Bytes) (root : json.Value) (w : World Db)
      → json.parse text ≡ some root
      → json.member (codes "username") root ≡ none
      → on_login_response database json this text w ≡ none
  unfolding on_login_response
  login_crash text root w parsed missing = rw (parsed, on_login_response, missing) refl

  -- A login request whose text is JSON with a root in which the library cannot look up a member
  -- ends in an exception that nothing catches.
  pub process_login_crash :
      (seq : ℕ) (text rest : Bytes) (root : json.Value) (s : Session) (w : World Db)
      → IsWord seq
      → IsText text
      → map_find this w.sessions ≡ some s
      → json.parse text ≡ some root
      → json.member (codes "username") root ≡ none
      → process database json memory this (request msg_type_login seq text rest) w ≡ none
  unfolding dispatch
  process_login_crash seq text rest root s w hs ht found parsed missing =
      process-request database json memory this msg_type_login seq text rest s w (omega arith) hs ht
        found
      ∙ ap handled (login_crash text root (numbered this seq s w) parsed missing)

  -- A chat request to a single user for whom no session is found, otherwise as in process_chat,
  -- is processed to a world in which the receiver is owed the body of the message behind what was
  -- owed before, all others are owed what they were, nothing is sent, and the receiver still has
  -- no session.
  pub process_chat_owed :
      (seq target : ℕ) (text rest : Bytes) (s : Session) (w : World Db)
      → IsWord seq
      → IsWord s.user.userid
      → IsWord target
      → IsText text
      → is_group target ≡ false
      → map_find this w.sessions ≡ some s
      → get_session_by_id target w.sessions ≡ none
      → (w' : World Db) × (process database json memory this
            (request msg_type_chat seq text (be_word target ++ rest))
            w
          ≡ some (true, w'))
        × ((v : ℕ)
            → owed v w'.cache.chat_msgs ≡ (
                if target == v
                then owed v w.cache.chat_msgs ++ chat_body seq text s.user.userid target ∷ []
                else owed v w.cache.chat_msgs))
        × (w'.sent ≡ w.sent)
        × (get_session_by_id target w'.sessions ≡ none)
  unfolding user_id
  process_chat_owed seq target text rest s w hq hu ht h single found offline =
      let s' : Session = record s { seq = seq; target = target } in
      let body = chat_body seq text s.user.userid target in
      let aimed = stored seq text target s w in
      let still = get_session_by_id-set this s' s target w.sessions found refl ∙ offline in
      (
        record aimed { cache = add_chat target body w.cache },
        process_chat seq target text rest s w hq hu ht h single found
            ∙ ap (λ v. some (true, v)) (delivered-offline target body aimed still),
        (λ v. (add_chat_lem target v body w.cache).0),
        refl,
        still,
      )
