-- ===== src/Session/Isolation/Accounts.antt =====
-- The handlers of EdoyumIMServer/ClientSession.cpp for accounts leave the sessions of other connections
-- alone.
use my_project_imserver.Base.{ℕ, bytes_eq, if◌then◌else◌, not, List, [], ◌∷◌, Bytes}
use my_project_imserver.Cache.{Cached}
use my_project_imserver.Users.Types.{User}
use my_project_imserver.Users.Growing.{growing, modify_user_password-Growing}
use my_project_imserver.Users.Manager.{DbApi, get_user_info_by_user_id}
use my_project_imserver.Session.Json.{JsonApi, string_at, status}
use my_project_imserver.Session.World.{
  msg_type_modifypassword, send_user_status_change_msg, tell_online,
}
use my_project_imserver.Session.Account.{
  answer, register_user, on_register_response, on_heartbeat_response, send_cached, read_info,
  update_info, on_update_user_info_response, change_password, on_modify_password_response,
}
use my_project_imserver.Session.Isolation.{
  Isolated, isolation, bind-Isolated, session_of-Isolated, send_last-Isolated, option-Isolated,
  next-Isolated, if-Isolated, return-Isolated, of_manager-Isolated, run_manager-Isolated,
  lift-Isolated, target_session-Isolated,
}

module _ (database : DbApi) (json : JsonApi) (this : Bytes) where
  open database use {Db}

  pub status_change-Isolated :
      (k : Bytes) (userid type : ℕ)
      → Isolated {Db = Db} this (send_user_status_change_msg json k userid type)
  unfolding send_user_status_change_msg
  status_change-Isolated k userid type =
      bind-Isolated this (session_of-Isolated this k) (λ s. send_last-Isolated this k _)

  pub answer-Isolated : (cmd : ℕ) (v : json.Value) → Isolated this (answer database json this cmd v)
  unfolding answer
  answer-Isolated cmd v = search isolation depth 40

  pub tell_online-Isolated :
      (us : List User) (userid type : ℕ) → Isolated {Db = Db} this (tell_online json us userid type)
  unfolding tell_online
  tell_online-Isolated [] userid type = search isolation depth 40
  tell_online-Isolated (u ∷ us) userid type =
      bind-Isolated this (target_session-Isolated this u.userid) (λ found.
        next-Isolated this
          (option-Isolated this found (return-Isolated this tt)
            (λ k. status_change-Isolated k userid type))
          (tell_online-Isolated us userid type))

  pub heartbeat-Isolated :
      (text : Bytes) → Isolated this (on_heartbeat_response database json this text)
  unfolding on_heartbeat_response
  heartbeat-Isolated text = search isolation depth 40

  register_user-Isolated :
      (root : json.Value) → Isolated this (register_user database json this root)
  unfolding register_user
  register_user-Isolated root = search (isolation, growing, answer-Isolated) depth 40

  pub register-Isolated :
      (text : Bytes) → Isolated this (on_register_response database json this text)
  unfolding on_register_response
  register-Isolated text =
      option-Isolated this (json.parse text) (answer-Isolated _ _)
        (λ root. search (isolation, answer-Isolated, register_user-Isolated) depth 40)

  pub send_cached-Isolated : (cs : List Cached) → Isolated this (send_cached database json this cs)
  unfolding send_cached
  send_cached-Isolated [] = search isolation depth 40
  send_cached-Isolated (c ∷ cs) =
      next-Isolated this (send_last-Isolated this this _) (send_cached-Isolated cs)

  read_info-Isolated : (root : json.Value) → Isolated this (read_info database json this root)
  unfolding read_info
  read_info-Isolated root = search isolation depth 40

  update_info-Isolated : (root : json.Value) → Isolated this (update_info database json this root)
  unfolding update_info
  update_info-Isolated root =
      search (isolation, growing, answer-Isolated, read_info-Isolated, tell_online-Isolated) depth
        40

  pub update-Isolated :
      (text : Bytes) → Isolated this (on_update_user_info_response database json this text)
  unfolding on_update_user_info_response
  update-Isolated text =
      option-Isolated this (json.parse text) (return-Isolated this tt)
        (λ root. search (isolation, update_info-Isolated) depth 40)

  change_password-Isolated :
      (root : json.Value) → Isolated this (change_password database json this root)
  unfolding change_password
  change_password-Isolated root =
      bind-Isolated this (lift-Isolated this (string_at json "oldpassword" root)) (λ old.
        bind-Isolated this (lift-Isolated this (string_at json "newpassword" root)) (λ new.
          bind-Isolated this (session_of-Isolated this this) (λ s.
            bind-Isolated this (of_manager-Isolated this (get_user_info_by_user_id s.user.userid))
              (λ found. option-Isolated this found (return-Isolated this tt) (λ u.
                if-Isolated this (not (bytes_eq u.password old))
                  (answer-Isolated msg_type_modifypassword
                    (status json 103 "incorrect old password" (json.clear root)))
                  (bind-Isolated this
                    (run_manager-Isolated this
                      (modify_user_password-Growing database s.user.userid new))
                    (λ ok. answer-Isolated msg_type_modifypassword (
                      if ok
                      then status json 0 "ok" (json.clear root)
                      else status json 105 "modify password error" (json.clear root)))))))))

  pub password-Isolated :
      (text : Bytes) → Isolated this (on_modify_password_response database json this text)
  unfolding on_modify_password_response
  password-Isolated text =
      option-Isolated this (json.parse text) (return-Isolated this tt)
        (λ root. search (isolation, change_password-Isolated) depth 40)
