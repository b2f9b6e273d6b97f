-- ===== src/Session/Account.antt =====
-- OnHeartbeatResponse, OnRegisterResponse, OnLoginResponse, OnUpdateUserInfoResponse and
-- OnModifyPasswordResponse of EdoyumIMServer/ClientSession.cpp. The log is left out.
use my_project_imserver.Base.{
  ℕ, Bool, not, List, [], ◌∷◌, Option, none, some, if◌then◌else◌, Bytes, bytes_eq,
}
use my_project_imserver.Wire.Writer.{new_writer, write_string}
use my_project_imserver.Cache.{Cached, get_notify, get_chat}
use my_project_imserver.Users.Types.{User, new_user}
use my_project_imserver.Users.Manager.{
  DbApi, get_user_info_by_username, get_user_info_by_user_id, get_friend_info_by_user_id, add_user,
  update_user_info, modify_user_password,
}
use my_project_imserver.Session.Json.{
  JsonApi, member_is, every, string_at, int_at, put_int, put_string, status,
}
use my_project_imserver.Session.World.{
  M, ◌>>=◌, ◌>>◌, return, lift, of_manager, run_manager, run_cache, session_of, put_session,
  send_last, reply, tell_online, msg_type_headerbeart, msg_type_register, msg_type_login,
  msg_type_updateuserinfo, msg_type_modifypassword,
}

module _ (database : DbApi) (json : JsonApi) (this : Bytes) where
  open database use {Db}
  open json use {Value}

  -- The end that most handlers share: the reply to the session itself.
  unfoldable pub answer : ℕ → Value → M Db (Unit {0})
  answer cmd response = do
    s ← session_of this
    send_last this (reply cmd s.seq (json.styled response))

  unfoldable pub on_heartbeat_response : Bytes → M Db (Unit {0})
  on_heartbeat_response text = do
    s ← session_of this
    send_last this (reply msg_type_headerbeart s.seq [])

  -- OnRegisterResponse, from `User user` on.
  unfoldable pub register_user : Value → M Db (Unit {0})
  unfolding answer
  register_user root = do
    username ← lift (string_at json "username" root)
    nickname ← lift (string_at json "nickname" root)
    password ← lift (string_at json "password" root)
    let user = record new_user { username = username; nickname = nickname; password = password }
    ok ← run_manager (add_user database user)
    answer msg_type_register
        (if ok then status json 0 "ok" json.null else status json 100 "register failed!" json.null)

  unfoldable pub on_register_response : Bytes → M Db (Unit {0})
  unfolding answer register_user
  on_register_response text = elim (json.parse text) [
    | none ↦ answer msg_type_register (status json 101 "json pares failed!" json.null)
    | some root ↦ do
      typed ← lift (
          every json (
            member_is json json.is_string "username" root
            ∷ member_is json json.is_string "nickname" root
            ∷ member_is json json.is_string "password" root
            ∷ []))
      if typed
          then register_user root
          else answer msg_type_register (status json 102 "json data type error!" json.null)
  ]

  -- The response to a login that succeeds.
  unfoldable pub login_data : User → Bytes → Value
  login_data user username =
      let head = put_int json "userid" user.userid (status json 0 "ok" json.null) in
      let face =
        put_string json "customface" user.customface
          (put_int json "facetype" user.facetype (put_string json "nickname" user.nickname head)) in
      let life =
        put_string json "signature" user.signature
          (put_int json "birthday" user.birthday (put_int json "gender" user.gender face)) in
      let contact = put_string json "mail" user.mail (
        put_string json "phonenumber" user.phonenumber
          (put_string json "address" user.address life)) in
      put_string json "username" username contact

  -- A cached message is sent as a string, behind its length.
  unfoldable pub send_cached : List Cached → M Db (Unit {0})
  send_cached [] = return tt
  send_cached (c ∷ cs) = do send_last this (write_string c.text new_writer); send_cached cs

  -- OnLoginResponse, from the success on.
  unfoldable pub login_user : User → Bytes → Bytes → ℕ → M Db (Unit {0})
  unfolding answer login_data send_cached
  login_user user username password clienttype = do
    s ← session_of this
    let logged_in = record s.user {
      userid = user.userid;
      username = username;
      nickname = user.nickname;
      password = password;
      clienttype = clienttype;
      status = 1;
    }
    put_session this (record s { user = logged_in })
    answer msg_type_login (login_data user username)
    notifications ← run_cache (get_notify user.userid)
    send_cached notifications
    chats ← run_cache (get_chat user.userid)
    send_cached chats
    friends ← of_manager (get_friend_info_by_user_id user.userid)
    tell_online json friends user.userid 1

  -- OnLoginResponse, from the reading of the user's name on.
  unfoldable pub check_login : Value → M Db (Unit {0})
  unfolding answer login_user
  check_login root = do
    username ← lift (string_at json "username" root)
    password ← lift (string_at json "password" root)
    found ← of_manager (get_user_info_by_username username)
    elim found [
      | none ↦
          answer msg_type_login
            (status json 103 "user is not exist or password is incorrest!" json.null)
      | some user ↦
          if not (bytes_eq password user.password)
          then answer msg_type_login
              (status json 104 "user is not exist or password is incorrest!" json.null)
          else do
            clienttype ← lift (int_at json "clienttype" root)
            login_user user username password clienttype
    ]

  unfoldable pub on_login_response : Bytes → M Db (Unit {0})
  unfolding answer check_login
  on_login_response text = elim (json.parse text) [
    | none ↦ answer msg_type_login (status json 101 "json pares failed!" json.null)
    | some root ↦ do
      typed ← lift (
          every json (
            member_is json json.is_string "username" root
            ∷ member_is json json.is_string "password" root
            ∷ member_is json json.is_int "clienttype" root
            ∷ member_is json json.is_int "status" root
            ∷ []))
      if typed
          then check_login root
          else answer msg_type_login (status json 102 "json data type error!" json.null)
  ]

  -- The members that OnUpdateUserInfoResponse reads, in a fresh User.
  unfoldable pub read_info : Value → M Db User
  read_info root = do
    nickname ← lift (string_at json "nickname" root)
    facetype ← lift (int_at json "facetype" root)
    customface ← lift (string_at json "customface" root)
    gender ← lift (int_at json "gender" root)
    birthday ← lift (int_at json "birthday" root)
    signature ← lift (string_at json "signature" root)
    address ← lift (string_at json "address" root)
    phonenumber ← lift (string_at json "phonenumber" root)
    mail ← lift (string_at json "mail" root)
    return (record new_user {
      nickname = nickname;
      facetype = facetype;
      customface = customface;
      gender = gender;
      birthday = birthday;
      signature = signature;
      address = address;
      phonenumber = phonenumber;
      mail = mail;
    })

  unfoldable pub info_typed : Value → Option Bool
  info_typed root = every json (
      member_is json json.is_string "nickname" root
      ∷ member_is json json.is_int "facetype" root
      ∷ member_is json json.is_string "customface" root
      ∷ member_is json json.is_int "gender" root
      ∷ member_is json json.is_int "birthday" root
      ∷ member_is json json.is_string "signature" root
      ∷ member_is json json.is_string "address" root
      ∷ member_is json json.is_string "phonenumber" root
      ∷ member_is json json.is_string "mail" root
      ∷ [])

  -- The response to a change that succeeds.
  unfoldable pub info_data : User → User → Value → Value
  info_data me new base =
      let head =
        put_string json "username" me.username
          (put_int json "userid" me.userid (status json 0 "ok" base)) in
      let face =
        put_string json "customface" new.customface
          (put_int json "facetype" new.facetype (put_string json "nickname" new.nickname head)) in
      let life =
        put_string json "signature" new.signature
          (put_int json "birthday" new.birthday (put_int json "gender" new.gender face)) in
      put_string json "mail" new.mail
        (put_string json "phonenumber" new.phonenumber (put_string json "address" new.address life))

  -- OnUpdateUserInfoResponse, from `User newuserinfo` on.
  unfoldable pub update_info : Value → M Db (Unit {0})
  unfolding answer read_info info_data
  update_info root = do
    new ← read_info root
    s ← session_of this
    ok ← run_manager (update_user_info database s.user.userid new)
    answer msg_type_updateuserinfo (
        if ok
        then info_data s.user new (json.clear root)
        else status json 104 "update user info failed" (json.clear root))
    friends ← of_manager (get_friend_info_by_user_id s.user.userid)
    tell_online json friends s.user.userid 3

  unfoldable pub on_update_user_info_response : Bytes → M Db (Unit {0})
  unfolding info_typed update_info
  on_update_user_info_response text = elim (json.parse text) [
    | none ↦ return tt
    | some root ↦ do typed ← lift (info_typed root); if typed then update_info root else return tt
  ]

  -- OnModifyPasswordResponse, from the reading of the old password on.
  unfoldable pub change_password : Value → M Db (Unit {0})
  unfolding answer
  change_password root = do
    old ← lift (string_at json "oldpassword" root)
    new ← lift (string_at json "newpassword" root)
    s ← session_of this
    found ← of_manager (get_user_info_by_user_id s.user.userid)
    elim found [
      | none ↦ return tt
      | some user ↦
          if not (bytes_eq user.password old)
          then answer msg_type_modifypassword
              (status json 103 "incorrect old password" (json.clear root))
          else do
            ok ← run_manager (modify_user_password database s.user.userid new)
            answer msg_type_modifypassword (
                if ok
                then status json 0 "ok" (json.clear root)
                else status json 105 "modify password error" (json.clear root))
    ]

  unfoldable pub on_modify_password_response : Bytes → M Db (Unit {0})
  unfolding change_password
  on_modify_password_response text = elim (json.parse text) [
    | none ↦ return tt
    | some root ↦ do
      typed ← lift (
          every json (
            member_is json json.is_string "oldpassword" root
            ∷ member_is json json.is_string "newpassword" root
            ∷ []))
      if typed then change_password root else return tt
  ]
