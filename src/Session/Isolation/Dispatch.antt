-- ===== src/Session/Isolation/Dispatch.antt =====
-- What the handler of a command of EdoyumIMServer/ClientSession.cpp does to the sessions.
use my_project_imserver.Base.{
  ℕ, ◌≡◌, ◌⊎◌, inl, inr, refl, Bool, true, false, if◌then◌else◌, ◌==◌, arith, some, Bytes,
}
use my_project_imserver.Wire.Reader.{
  Reader, ReadResult, refused, fault, got, read_data, read_string,
}
use my_project_imserver.Users.Manager.{DbApi}
use my_project_imserver.Session.Json.{JsonApi}
use my_project_imserver.Session.World.{
  World, M, ◌>>=◌, ◌>>◌, return, throw, session_of, put_session, msg_type_headerbeart,
  msg_type_register, msg_type_login, msg_type_getofriendlist, msg_type_finduser,
  msg_type_operatefriend, msg_type_updateuserinfo, msg_type_modifypassword, msg_type_creategroup,
  msg_type_getgroupmembers, msg_type_chat, msg_type_multichat,
}
use my_project_imserver.Session.Account.{
  on_login_response, on_update_user_info_response, on_modify_password_response,
}
use my_project_imserver.Session.Friend.{
  on_get_friend_list_response, on_find_user_response, on_operate_friend_response,
}
use my_project_imserver.Session.Group.{on_create_group_response, on_get_group_member_response}
use my_project_imserver.Session.Chat.{on_chat_response, on_multi_chat_response}
use my_project_imserver.Session.Process.{read_target, read_targets, dispatch}
use my_project_imserver.Session.Keeping.{whose, Bounded}
use my_project_imserver.Session.Isolation.{
  Isolated, next-Isolated, if-Isolated, return-Isolated, throw-Isolated, edit_last-Isolated,
}
use my_project_imserver.Session.Isolation.Accounts.{
  heartbeat-Isolated, register-Isolated, update-Isolated, password-Isolated,
}
use my_project_imserver.Session.Isolation.Admission.{Access, Granted}
use my_project_imserver.Session.Isolation.Login.{on_login_response-Access}
use my_project_imserver.Session.Isolation.Friends.{
  friend_list-Isolated, find-Isolated, operate-Isolated, create-Isolated, members-Isolated,
  chat-Isolated, multi_chat-Isolated,
}

module _ (database : DbApi) (json : JsonApi) (memory : ℕ) (this : Bytes) where
  open database use {Db}

  read_target-Isolated : (r : Reader) → Isolated this (read_target database json memory this r)
  unfolding read_target
  read_target-Isolated r = by_read (read_data 4 r)
    where
      by_read :
          (o : ReadResult ℕ)
          → Isolated {Db = Db} this (elim o as (λ _. M Db (Unit {0})) [
            | refused ↦ return tt
            | fault ↦ throw
            | got target r' ↦ do
              s ← session_of this
              put_session this (record s { target = target })
          ])
      by_read refused = return-Isolated this tt
      by_read fault = throw-Isolated this
      by_read (got target r') =
          edit_last-Isolated this (λ s. record s { target = target }) (λ s. refl)

  read_targets-Isolated : (r : Reader) → Isolated this (read_targets database json memory this r)
  unfolding read_targets
  read_targets-Isolated r = by_read (read_string r)
    where
      by_read :
          (o : ReadResult Bytes)
          → Isolated {Db = Db} this (elim o as (λ _. M Db (Unit {0})) [
            | refused ↦ return tt
            | fault ↦ throw
            | got targets r' ↦ do
              s ← session_of this
              put_session this (record s { targets = targets })
          ])
      by_read refused = return-Isolated this tt
      by_read fault = throw-Isolated this
      by_read (got targets r') =
          edit_last-Isolated this (λ s. record s { targets = targets }) (λ s. refl)

  -- What the handler of a command does to the session: nothing that changes its user, unless the
  -- command is the login and the login is let in.
  pub record Allowed (cmd : ℕ) (text : Bytes) (m : M Db (Unit {0})) : Type 0 where
    pub result :
        (w w' : World Db)
        → m w ≡ some (tt, w')
        → Bounded this w w'
          × ((whose w'.sessions ≡ whose w.sessions)
              ⊎ ((cmd ≡ msg_type_login) × Granted database json this text w w'))

  Isolated-Allowed :
      (cmd : ℕ) (text : Bytes) {m : M Db (Unit {0})} → Isolated this m → Allowed cmd text m
  Isolated-Allowed cmd text p = record {
    result = λ w w' e. let kept = p.keeps w w' tt e in (kept.bounded, inl kept.owners);
  }

  if-Allowed :
      (cmd : ℕ) (text : Bytes) (b : Bool) {m k : M Db (Unit {0})}
      → (b ≡ true → Allowed cmd text m)
      → Allowed cmd text k
      → Allowed cmd text (if b then m else k)
  if-Allowed cmd text true p q = p refl
  if-Allowed cmd text false p q = q

  login-Allowed :
      (cmd : ℕ) (text : Bytes)
      → cmd ≡ msg_type_login
      → Allowed cmd text (on_login_response database json this text)
  login-Allowed cmd text h = record {
    result = λ w w' e. admit w w' (on_login_response-Access database json this text w w' e);
  }
    where
      admit :
          (w w' : World Db)
          → Access database json this text w w'
          → Bounded this w w'
            × ((whose w'.sessions ≡ whose w.sessions)
                ⊎ ((cmd ≡ msg_type_login) × Granted database json this text w w'))
      admit w w' (bounded, inl same) = (bounded, inl same)
      admit w w' (bounded, inr granted) = (bounded, inr (h, granted))

  -- The commands behind the login.
  later-Isolated :
      (cmd : ℕ) (text : Bytes) (r : Reader)
      → Isolated this (
          if cmd == msg_type_getofriendlist
          then on_get_friend_list_response database json this text
          else if cmd == msg_type_finduser
          then on_find_user_response database json this text
          else if cmd == msg_type_operatefriend
          then on_operate_friend_response database json this text
          else if cmd == msg_type_updateuserinfo
          then on_update_user_info_response database json this text
          else if cmd == msg_type_modifypassword
          then on_modify_password_response database json this text
          else if cmd == msg_type_creategroup
          then on_create_group_response database json this memory text
          else if cmd == msg_type_getgroupmembers
          then on_get_group_member_response database json this text
          else if cmd == msg_type_chat
          then (do
            read_target database json memory this r
            on_chat_response database json this text)
          else if cmd == msg_type_multichat
          then (do
            read_targets database json memory this r
            on_multi_chat_response database json this text)
          else return tt)
  later-Isolated cmd text r = if-Isolated this _ (friend_list-Isolated database json this text) (
      if-Isolated this _ (find-Isolated database json this text) (
        if-Isolated this _ (operate-Isolated database json this text) (
          if-Isolated this _ (update-Isolated database json this text) (
            if-Isolated this _ (password-Isolated database json this text) (
              if-Isolated this _ (create-Isolated database json this memory text) (
                if-Isolated this _ (members-Isolated database json this text) (
                  if-Isolated this _
                    (next-Isolated this (read_target-Isolated r)
                      (chat-Isolated database json this text))
                    (if-Isolated this _
                      (next-Isolated this (read_targets-Isolated r)
                        (multi_chat-Isolated database json this text))
                      (return-Isolated this tt)))))))))

  pub dispatch-Allowed :
      (cmd : ℕ) (text : Bytes) (r : Reader)
      → Allowed cmd text (dispatch database json memory this cmd text r)
  unfolding dispatch
  dispatch-Allowed cmd text r =
      if-Allowed cmd text (cmd == msg_type_headerbeart)
        (λ h. Isolated-Allowed cmd text (heartbeat-Isolated database json this text))
        (if-Allowed cmd text (cmd == msg_type_register)
          (λ h. Isolated-Allowed cmd text (register-Isolated database json this text))
          (if-Allowed cmd text (cmd == msg_type_login) (λ h. login-Allowed cmd text (ground arith))
            (Isolated-Allowed cmd text (later-Isolated cmd text r))))
