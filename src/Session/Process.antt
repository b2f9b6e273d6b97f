-- ===== src/Session/Process.antt =====
-- ClientSession::Process of EdoyumIMServer/ClientSession.cpp: the request is decoded and handed to its
-- handler. Also the server as a whole: what it does with bytes on a connection.
use my_project_imserver.Base.{ℕ, Bool, true, false, [], ◌∷◌, ◌++◌, if◌then◌else◌, ◌==◌, Bytes}
use my_project_imserver.Wire.Reader.{
  Reader, refused, fault, got, new_reader, read_data, read_string,
}
use my_project_imserver.Frame.Buffer.{BufferApi}
use my_project_imserver.Frame.Receive.{Outcome, receive, chat_size}
use my_project_imserver.Users.Manager.{DbApi}
use my_project_imserver.Session.Json.{JsonApi}
use my_project_imserver.Session.World.{
  World, M, ◌>>=◌, ◌>>◌, return, throw, session_of, put_session, msg_type_headerbeart,
  msg_type_register, msg_type_login, msg_type_getofriendlist, msg_type_finduser,
  msg_type_operatefriend, msg_type_updateuserinfo, msg_type_modifypassword, msg_type_creategroup,
  msg_type_getgroupmembers, msg_type_chat, msg_type_multichat,
}
use my_project_imserver.Session.Account.{
  on_heartbeat_response, on_register_response, on_login_response, on_update_user_info_response,
  on_modify_password_response,
}
use my_project_imserver.Session.Friend.{
  on_get_friend_list_response, on_find_user_response, on_operate_friend_response,
}
use my_project_imserver.Session.Group.{on_create_group_response, on_get_group_member_response}
use my_project_imserver.Session.Chat.{on_chat_response, on_multi_chat_response}

module _ (database : DbApi) (json : JsonApi) (memory : ℕ) (this : Bytes) where
  open database use {Db}

  -- `reader.ReadData<int>(m_target)`, whose result is not looked at.
  unfoldable pub read_target : Reader → M Db (Unit {0})
  read_target r = elim (read_data 4 r) [
    | refused ↦ return tt
    | fault ↦ throw
    | got target r' ↦ do s ← session_of this; put_session this (record s { target = target })
  ]

  -- `reader.ReadData(m_targets)`.
  unfoldable pub read_targets : Reader → M Db (Unit {0})
  read_targets r = elim (read_string r) [
    | refused ↦ return tt
    | fault ↦ throw
    | got targets r' ↦ do s ← session_of this; put_session this (record s { targets = targets })
  ]

  -- The switch over the command.
  unfoldable pub dispatch : ℕ → Bytes → Reader → M Db (Unit {0})
  unfolding read_target read_targets
  dispatch cmd text r =
      if cmd == msg_type_headerbeart
      then on_heartbeat_response database json this text
      else if cmd == msg_type_register
      then on_register_response database json this text
      else if cmd == msg_type_login
      then on_login_response database json this text
      else if cmd == msg_type_getofriendlist
      then on_get_friend_list_response database json this text
      else if cmd == msg_type_finduser
      then on_find_user_response database json this text
      else if cmd == msg_type_operatefriend
      then on_operate_friend_response database json this text
      else if cmd == msg_type_updateuserinfo
      then on_update_user_info_response database json this text
      else if cmd == msg_type_modifypassword
      then on_modify_password_response database json this text
      else if cmd == msg_type_creategroup
      then on_create_group_response database json this memory text
      else if cmd == msg_type_getgroupmembers
      then on_get_group_member_response database json this text
      else if cmd == msg_type_chat
      then (do read_target r; on_chat_response database json this text)
      else if cmd == msg_type_multichat
      then (do read_targets r; on_multi_chat_response database json this text)
      else return tt

  -- Process behind the sequence number.
  unfoldable pub process_text : ℕ → Reader → M Db Bool
  unfolding dispatch
  process_text cmd r = elim (read_string r) [
    | refused ↦ return false
    | fault ↦ throw
    | got text r' ↦ do dispatch cmd text r'; return true
  ]

  -- Process behind the command; `m_seq` takes the sequence number.
  unfoldable pub process_seq : ℕ → Reader → M Db Bool
  unfolding process_text
  process_seq cmd r = elim (read_data 4 r) [
    | refused ↦ return false
    | fault ↦ throw
    | got seq r' ↦ do
      s ← session_of this
      put_session this (record s { seq = seq })
      process_text cmd r'
  ]

  unfoldable pub process : Bytes → M Db Bool
  unfolding process_seq
  process msgbuff = elim (read_data 4 (new_reader msgbuff)) [
    | refused ↦ return false
    | fault ↦ throw
    | got cmd r ↦ process_seq cmd r
  ]

  unfoldable pub force_close : World Db → World Db
  force_close w = record w { closed = w.closed ++ this ∷ [] }

  -- The callback that the constructor sets.
  unfoldable pub on_read : (api : BufferApi) → api.Buf → World Db → Outcome api.Buf (World Db)
  unfolding process force_close
  on_read api b w = receive api 4 chat_size process force_close b w
