-- ===== src/Session/Chat.antt =====
-- OnChatResponse and OnMultiChatResponse of EdoyumIMServer/ClientSession.cpp. The log is left out.
pub mod Delivery
use my_project_imserver.Base.{
  ℕ, Bool, true, false, not, List, [], ◌∷◌, Option, none, some, if◌then◌else◌, Bytes, codes,
}
use my_project_imserver.Wire.Writer.{Writer, new_writer, write_net, write_string, to_string}
use my_project_imserver.Cache.{add_chat}
use my_project_imserver.Users.Types.{User, is_group}
use my_project_imserver.Users.Manager.{DbApi, get_friend_info_by_user_id, save_chat_msg_to_db}
use my_project_imserver.Server.{Session}
use my_project_imserver.Session.Json.{JsonApi, member_is}
use my_project_imserver.Session.World.{
  M, ◌>>=◌, ◌>>◌, return, lift, of_manager, run_db, change_cache, session_of, put_session,
  target_session, send, send_last, reply, msg_type_chat,
}

-- A chat message: the text, its sender and its receiver.
unfoldable pub chat_writer : ℕ → Bytes → ℕ → ℕ → Writer
unfolding reply
chat_writer seq text sender target =
    write_net target (write_net sender (reply msg_type_chat seq text))

-- One receiver: the session is sent the message, and where there is none the message is cached. The
-- writer that is left goes on to the next receiver.
unfoldable pub deliver_to : {Db : Type 0} → ℕ → Writer → M Db Writer
deliver_to userid writer = do
  session ← target_session userid
  elim session [
    | none ↦ do change_cache (add_chat userid (to_string writer)); return writer
    | some k ↦ send k writer
  ]

-- The loop over the members of a group, with one writer for all.
unfoldable pub deliver_group : {Db : Type 0} → List User → Writer → M Db (Unit {0})
unfolding deliver_to
deliver_group [] writer = return tt
deliver_group (u ∷ us) writer = do writer' ← deliver_to u.userid writer; deliver_group us writer'

module _ (database : DbApi) (json : JsonApi) (this : Bytes) where
  open database use {Db}
  open json use {Value}

  unfoldable pub on_chat_response : Bytes → M Db (Unit {0})
  unfolding chat_writer deliver_to deliver_group
  on_chat_response text = do
    s ← session_of this
    let writer = chat_writer s.seq text s.user.userid s.target
    saved ← run_db (save_chat_msg_to_db database s.user.userid s.target text)
    if not (is_group s.target) then (do writer' ← deliver_to s.target writer; return tt) else do
      members ← of_manager (get_friend_info_by_user_id s.target)
      deliver_group members writer

  -- `m_target` takes each of the targets in turn.
  unfoldable pub chat_each : List Value → Bytes → M Db (Unit {0})
  unfolding on_chat_response
  chat_each [] text = return tt
  chat_each (v ∷ vs) text = do
    target ← lift (json.as_int v)
    s ← session_of this
    put_session this (record s { target = target })
    on_chat_response text
    chat_each vs text

  unfoldable pub on_multi_chat_response : Bytes → M Db (Unit {0})
  unfolding chat_each
  on_multi_chat_response text = do
    s ← session_of this
    elim (json.parse s.targets) [
      | none ↦ return tt
      | some root ↦ do
        typed ← lift (member_is json json.is_array "targets" root)
        targets ← lift (json.member (codes "targets") root)
        if typed then chat_each (json.items targets) text else return tt
    ]
