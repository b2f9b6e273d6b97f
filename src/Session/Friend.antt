-- ===== src/Session/Friend.antt =====
-- OnGetFriendListResponse, OnFindUserResponse, OnOperateFriendResponse, DeleteFriend and
-- OnAddGroupResponse of EdoyumIMServer/ClientSession.cpp. The log is left out.
use my_project_imserver.Base.{
  ℕ, Bool, true, false, not, List, [], ◌∷◌, none, some, if◌then◌else◌, ◌==◌, slt, Bytes, codes,
}
use my_project_imserver.Cache.{add_notify}
use my_project_imserver.Users.Types.{User, is_group}
use my_project_imserver.Users.Manager.{
  DbApi, get_user_info_by_username, get_user_info_by_user_id, get_friend_info_by_user_id,
  make_friend_relationship, release_friend_relationship,
}
use my_project_imserver.Server.{SessionMap, is_user_session_exsit}
use my_project_imserver.Session.Json.{
  JsonApi, member_is, every, string_at, int_at, put_int, put_string, status,
}
use my_project_imserver.Session.World.{
  M, ◌>>=◌, ◌>>◌, return, lift, of_manager, run_manager, change_cache, session_of, target_session,
  send_last, reply, tell_online, msg_type_getofriendlist, msg_type_finduser, msg_type_operatefriend,
}
use my_project_imserver.Session.Account.{answer}

module _ (json : JsonApi) where
  open json use {Value}

  -- The entry of a user in a list of friends. That of a group's members has no address.
  unfoldable pub friend_data : Bool → User → Bool → Value
  friend_data with_address u online =
      let head =
        put_string json "nickname" u.nickname
          (put_string json "username" u.username (put_int json "userid" u.userid json.null)) in
      let face =
        put_string json "customface" u.customface (put_int json "facetype" u.facetype head) in
      let life =
        put_string json "signature" u.signature
          (put_int json "birthday" u.birthday (put_int json "gender" u.gender face)) in
      let home = if with_address then put_string json "address" u.address life else life in
      let contact =
        put_string json "mail" u.mail (put_string json "phonenumber" u.phonenumber home) in
      put_int json "status" (if online then 1 else 0) (put_int json "clienttype" 1 contact)

  -- `response[key].append(re)` for each friend.
  unfoldable pub append_friends : Bool → Bytes → List User → SessionMap → Value → Value
  unfolding friend_data
  append_friends with_address key [] sessions response = response
  append_friends with_address key (u ∷ us) sessions response =
      append_friends with_address key us sessions (
        json.append key (friend_data with_address u (is_user_session_exsit u.userid sessions))
          response)

abbrev pub sessions_now : {Db : Type 0} → M Db SessionMap
sessions_now w = some (w.sessions, w)

module _ (database : DbApi) (json : JsonApi) (this : Bytes) where
  open database use {Db}
  open json use {Value}

  unfoldable pub on_get_friend_list_response : Bytes → M Db (Unit {0})
  unfolding answer append_friends
  on_get_friend_list_response text = do
    s ← session_of this
    friends ← of_manager (get_friend_info_by_user_id s.user.userid)
    sessions ← sessions_now
    answer database json this msg_type_getofriendlist (
        append_friends json true (codes "userinfo") friends sessions (status json 0 "ok" json.null))

  -- OnFindUserResponse, from the reading of the name on.
  unfoldable pub find_user : Value → M Db (Unit {0})
  unfolding answer
  find_user root = do
    username ← lift (string_at json "username" root)
    found ← of_manager (get_user_info_by_username username)
    let base = status json 0 "ok" (json.clear root)
    answer database json this msg_type_finduser (elim found [
      | none ↦ put_string json "userinfo" (codes "[]") base
      | some u ↦
          json.append (codes "userinfo")
            (put_int json "facetype" u.facetype (
              put_string json "nickname" u.nickname
                (put_string json "username" u.username (put_int json "userid" u.userid json.null))))
            base
    ])

  unfoldable pub on_find_user_response : Bytes → M Db (Unit {0})
  unfolding find_user
  on_find_user_response text = elim (json.parse text) [
    | none ↦ return tt
    | some root ↦ do
      typed ← lift (
          every json (
            member_is json json.is_int "type" root
            ∷ member_is json json.is_string "username" root
            ∷ []))
      if typed then find_user root else return tt
  ]

  -- The data of a message about an operation on a friend.
  unfoldable pub operate_data : ℕ → ℕ → Bytes → Value
  operate_data userid type username =
      put_string json "username" username
        (put_int json "type" type (put_int json "userid" userid json.null))

  unfoldable pub delete_friend : ℕ → M Db (Unit {0})
  unfolding answer operate_data
  delete_friend friendid = do
    s ← session_of this
    let me = s.user.userid
    ok ← run_manager (λ m d.
        if slt me friendid
        then release_friend_relationship database me friendid m d
        else release_friend_relationship database friendid me m d)
    if not ok then return tt else do
      found ← of_manager (get_user_info_by_user_id friendid)
      elim found [
        | none ↦ return tt
        | some u ↦ do
          answer database json this msg_type_operatefriend (operate_data friendid 5 u.username)
          elim (is_group friendid) [
            | true ↦ do
              members ← of_manager (get_friend_info_by_user_id friendid)
              tell_online json members friendid 3
            | false ↦ do
              target ← target_session friendid
              elim target [
                | none ↦ return tt
                | some k ↦ send_last k (
                    reply msg_type_operatefriend s.seq
                      (json.styled (operate_data me 5 s.user.username)))
              ]
          ]
      ]

  unfoldable pub on_add_group_response : ℕ → M Db (Unit {0})
  unfolding answer operate_data
  on_add_group_response groupid = do
    s ← session_of this
    ok ← run_manager (make_friend_relationship database s.user.userid groupid)
    if not ok then return tt else do
      found ← of_manager (get_user_info_by_user_id groupid)
      elim found [
        | none ↦ return tt
        | some group ↦ do
          answer database json this msg_type_operatefriend
              (put_int json "accept" 3 (operate_data group.userid 3 group.username))
          members ← of_manager (get_friend_info_by_user_id groupid)
          tell_online json members groupid 3
      ]

  -- The end of OnOperateFriendResponse: the other user is told, now or at the next login.
  unfoldable pub tell_other : ℕ → Value → M Db (Unit {0})
  tell_other target root = do
    s ← session_of this
    session ← target_session target
    elim session [
      | none ↦ change_cache (add_notify target (json.styled root))
      | some k ↦ send_last k (reply msg_type_operatefriend s.seq (json.styled root))
    ]

  -- The branch `type == 3`, from the reading of `accept` on.
  unfoldable pub answer_request : ℕ → ℕ → M Db (Unit {0})
  unfolding answer operate_data tell_other
  answer_request target accept = do
    s ← session_of this
    let me = s.user.userid
    ok ← run_manager (λ m d.
        if not (accept == 1)
        then (true, m, d)
        else if slt target me
        then make_friend_relationship database target me m d
        else make_friend_relationship database me target m d)
    if not ok then return tt else do
      found ← of_manager (get_user_info_by_user_id target)
      elim found [
        | none ↦ return tt
        | some u ↦ do
          answer database json this msg_type_operatefriend
              (put_int json "accept" accept (operate_data u.userid 3 u.username))
          tell_other target (put_int json "accept" accept (operate_data me 3 s.user.username))
      ]

  -- OnOperateFriendResponse, from the reading of `type` on.
  unfoldable pub operate_friend : Value → M Db (Unit {0})
  unfolding delete_friend on_add_group_response operate_data tell_other answer_request
  operate_friend root = do
    type ← lift (int_at json "type" root)
    target ← lift (int_at json "userid" root)
    s ← session_of this
    if type == 4
        then delete_friend target
        else if is_group target
        then on_add_group_response target
        else if type == 1
        then tell_other target (operate_data s.user.userid 2 s.user.username)
        else if type == 3
        then (do
          typed ← lift (member_is json json.is_int "accept" root)
          accept ← lift (if typed then int_at json "accept" root else some 0)
          if typed then answer_request target accept else return tt)
        else tell_other target json.null

  unfoldable pub on_operate_friend_response : Bytes → M Db (Unit {0})
  unfolding operate_friend
  on_operate_friend_response text = elim (json.parse text) [
    | none ↦ return tt
    | some root ↦ do
      typed ← lift (
          every json (
            member_is json json.is_int "type" root ∷ member_is json json.is_int "userid" root ∷ []))
      if typed then operate_friend root else return tt
  ]
