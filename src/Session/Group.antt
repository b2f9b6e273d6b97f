-- ===== src/Session/Group.antt =====
-- OnCreateGroupResponse and OnGetGroupMemberResponse of EdoyumIMServer/ClientSession.cpp. The log is
-- left out.
use my_project_imserver.Base.{ℕ, false, not, none, some, if◌then◌else◌, Bytes, codes}
use my_project_imserver.Users.Manager.{
  DbApi, get_friend_info_by_user_id, make_friend_relationship, add_group,
}
use my_project_imserver.Session.Json.{
  JsonApi, member_is, string_at, int_at, put_int, put_string, status,
}
use my_project_imserver.Session.World.{
  M, ◌>>=◌, ◌>>◌, return, lift, of_manager, run_manager, session_of, msg_type_operatefriend,
  msg_type_creategroup, msg_type_getgroupmembers,
}
use my_project_imserver.Session.Account.{answer}
use my_project_imserver.Session.Friend.{append_friends, sessions_now, operate_data}

module _ (database : DbApi) (json : JsonApi) (this : Bytes) where
  open database use {Db}
  open json use {Value}

  -- `groupid` is not set where AddGroup fails: `memory` is what the memory held.
  unfoldable pub create_group : ℕ → Value → M Db (Unit {0})
  unfolding answer operate_data
  create_group memory root = do
    groupname ← lift (string_at json "groupname" root)
    s ← session_of this
    added ← run_manager (add_group database groupname s.user.userid)
    let base = json.clear root
    let groupid : ℕ = elim added [ none ↦ memory | some id ↦ id ]
    let response : Value = elim added [
      | none ↦ status json 106 "create group error" base
      | some id ↦
          put_string json "groupname" groupname
            (put_int json "groupid" id (status json 0 "ok" base))
    ]
    joined ← run_manager (make_friend_relationship database s.user.userid groupid)
    if not joined then return tt else do
      answer database json this msg_type_creategroup response
      answer database json this msg_type_operatefriend
          (operate_data database json this groupid 3 groupname)

  unfoldable pub on_create_group_response : ℕ → Bytes → M Db (Unit {0})
  unfolding create_group
  on_create_group_response memory text = elim (json.parse text) [
    | none ↦ return tt
    | some root ↦ do
      typed ← lift (member_is json json.is_string "groupname" root)
      if typed then create_group memory root else return tt
  ]

  unfoldable pub group_members : Value → M Db (Unit {0})
  unfolding answer append_friends
  group_members root = do
    groupid ← lift (int_at json "groupid" root)
    members ← of_manager (get_friend_info_by_user_id groupid)
    sessions ← sessions_now
    answer database json this msg_type_getgroupmembers (
        append_friends json false (codes "members") members sessions
          (put_int json "groupid" groupid (status json 0 "ok" (json.clear root))))

  unfoldable pub on_get_group_member_response : Bytes → M Db (Unit {0})
  unfolding group_members
  on_get_group_member_response text = elim (json.parse text) [
    | none ↦ return tt
    | some root ↦ do
      typed ← lift (member_is json json.is_int "groupid" root)
      if typed then group_members root else return tt
  ]
