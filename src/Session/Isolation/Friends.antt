-- ===== src/Session/Isolation/Friends.antt =====
-- The handlers of EdoyumIMServer/ClientSession.cpp for friends, groups and messages leave the sessions of
-- other connections alone.
use my_project_imserver.Base.{
  slt, ◌==◌, ℕ, codes, refl, Bool, true, false, not, List, [], ◌∷◌, Bytes,
}
use my_project_imserver.Wire.Writer.{Writer}
use my_project_imserver.Users.Types.{User, is_group}
use my_project_imserver.Users.Growing.{
  growing, same-Growing, if-Growing, make_friend_relationship-Growing,
  release_friend_relationship-Growing,
}
use my_project_imserver.Users.Manager.{DbApi, get_user_info_by_user_id, get_friend_info_by_user_id}
use my_project_imserver.Session.Json.{JsonApi, put_int, member_is}
use my_project_imserver.Session.World.{M, reply, msg_type_operatefriend}
use my_project_imserver.Session.Friend.{
  operate_data, sessions_now, on_get_friend_list_response, find_user, on_find_user_response,
  delete_friend, on_add_group_response, tell_other, answer_request, operate_friend,
  on_operate_friend_response,
}
use my_project_imserver.Session.Group.{
  create_group, on_create_group_response, group_members, on_get_group_member_response,
}
use my_project_imserver.Session.Chat.{
  deliver_to, deliver_group, on_chat_response, chat_each, on_multi_chat_response,
}
use my_project_imserver.Session.Isolation.{
  Isolated, isolation, bind-Isolated, session_of-Isolated, send_last-Isolated, quiet-Isolated,
  option-Isolated, next-Isolated, if-Isolated, return-Isolated, of_manager-Isolated,
  run_manager-Isolated, lift-Isolated, target_session-Isolated, change_cache-Isolated,
  send-Isolated, edit-Isolated,
}
use my_project_imserver.Session.Isolation.Accounts.{answer-Isolated, tell_online-Isolated}

module _ (database : DbApi) (json : JsonApi) (this : Bytes) where
  open database use {Db}

  sessions_now-Isolated : Isolated {Db = Db} this sessions_now
  sessions_now-Isolated =
      quiet-Isolated this (λ w. w.sessions) (λ w. w) (λ w. refl) (λ w. refl) (λ w. refl)

  pub friend_list-Isolated :
      (text : Bytes) → Isolated this (on_get_friend_list_response database json this text)
  unfolding on_get_friend_list_response
  friend_list-Isolated text =
      search (isolation, sessions_now-Isolated, answer-Isolated database json this) depth 40

  find_user-Isolated : (root : json.Value) → Isolated this (find_user database json this root)
  unfolding find_user
  find_user-Isolated root = search (isolation, answer-Isolated database json this) depth 40

  pub find-Isolated : (text : Bytes) → Isolated this (on_find_user_response database json this text)
  unfolding on_find_user_response
  find-Isolated text =
      option-Isolated this (json.parse text) (return-Isolated this tt)
        (λ root. search (isolation, find_user-Isolated) depth 40)

  told-Isolated :
      (b : Bool) (m k : M Db (Unit {0}))
      → Isolated this m
      → Isolated this k
      → Isolated this (elim b as (λ _. M Db (Unit {0})) [ true ↦ m | false ↦ k ])
  told-Isolated true m k p q = p
  told-Isolated false m k p q = q

  delete_friend-Isolated : (id : ℕ) → Isolated this (delete_friend database json this id)
  unfolding delete_friend
  delete_friend-Isolated id = bind-Isolated this (session_of-Isolated this this) (λ s.
      bind-Isolated this
        (run_manager-Isolated this (
          if-Growing (slt s.user.userid id)
            (release_friend_relationship-Growing database s.user.userid id)
            (release_friend_relationship-Growing database id s.user.userid)))
        (λ ok. if-Isolated this (not ok) (return-Isolated this tt) (
          bind-Isolated this (of_manager-Isolated this (get_user_info_by_user_id id)) (λ found.
            option-Isolated this found (return-Isolated this tt) (λ u.
              next-Isolated this
                (answer-Isolated database json this msg_type_operatefriend
                  (operate_data database json this id 5 u.username))
                (told-Isolated (is_group id) _ _
                  (bind-Isolated this (of_manager-Isolated this (get_friend_info_by_user_id id))
                    (λ us. tell_online-Isolated database json this us id 3))
                  (bind-Isolated this (target_session-Isolated this id) (λ target.
                    option-Isolated this target (return-Isolated this tt) (λ k.
                      send_last-Isolated this k (
                        reply msg_type_operatefriend s.seq (
                          json.styled (
                            operate_data database json this s.user.userid 5
                              s.user.username))))))))))))

  add_group-Isolated : (id : ℕ) → Isolated this (on_add_group_response database json this id)
  unfolding on_add_group_response
  add_group-Isolated id = bind-Isolated this (session_of-Isolated this this) (λ s.
      bind-Isolated this
        (run_manager-Isolated this (make_friend_relationship-Growing database s.user.userid id))
        (λ ok. if-Isolated this (not ok) (return-Isolated this tt) (
          bind-Isolated this (of_manager-Isolated this (get_user_info_by_user_id id)) (λ found.
            option-Isolated this found (return-Isolated this tt) (λ u.
              next-Isolated this
                (answer-Isolated database json this msg_type_operatefriend
                  (put_int json "accept" 3 (operate_data database json this u.userid 3 u.username)))
                (bind-Isolated this (of_manager-Isolated this (get_friend_info_by_user_id id))
                  (λ us. tell_online-Isolated database json this us id 3)))))))

  tell_other-Isolated :
      (id : ℕ) (v : json.Value) → Isolated this (tell_other database json this id v)
  unfolding tell_other
  tell_other-Isolated id v = bind-Isolated this (session_of-Isolated this this) (λ s.
      bind-Isolated this (target_session-Isolated this id) (λ found.
        option-Isolated this found (change_cache-Isolated this _)
          (λ k. send_last-Isolated this k _)))

  answer_request-Isolated :
      (id accept : ℕ) → Isolated this (answer_request database json this id accept)
  unfolding answer_request
  answer_request-Isolated id accept = bind-Isolated this (session_of-Isolated this this) (λ s.
      bind-Isolated this
        (run_manager-Isolated this (
          if-Growing (not (accept == 1)) (same-Growing true) (
            if-Growing (slt id s.user.userid)
              (make_friend_relationship-Growing database id s.user.userid)
              (make_friend_relationship-Growing database s.user.userid id))))
        (λ ok. if-Isolated this (not ok) (return-Isolated this tt) (
          bind-Isolated this (of_manager-Isolated this (get_user_info_by_user_id id)) (λ found.
            option-Isolated this found (return-Isolated this tt) (λ u.
              next-Isolated this
                (answer-Isolated database json this msg_type_operatefriend (
                  put_int json "accept" accept
                    (operate_data database json this u.userid 3 u.username)))
                (tell_other-Isolated id (
                  put_int json "accept" accept
                    (operate_data database json this s.user.userid 3 s.user.username))))))))

  operate_friend-Isolated :
      (root : json.Value) → Isolated this (operate_friend database json this root)
  unfolding operate_friend
  operate_friend-Isolated root =
      search
        (
          isolation, delete_friend-Isolated, add_group-Isolated, tell_other-Isolated,
          answer_request-Isolated,
        )
        depth 40

  pub operate-Isolated :
      (text : Bytes) → Isolated this (on_operate_friend_response database json this text)
  unfolding on_operate_friend_response
  operate-Isolated text =
      option-Isolated this (json.parse text) (return-Isolated this tt)
        (λ root. search (isolation, operate_friend-Isolated) depth 40)

  create_group-Isolated :
      (memory : ℕ) (root : json.Value) → Isolated this (create_group database json this memory root)
  unfolding create_group
  create_group-Isolated memory root =
      search (isolation, growing, answer-Isolated database json this) depth 40

  pub create-Isolated :
      (memory : ℕ) (text : Bytes)
      → Isolated this (on_create_group_response database json this memory text)
  unfolding on_create_group_response
  create-Isolated memory text =
      option-Isolated this (json.parse text) (return-Isolated this tt)
        (λ root. search (isolation, create_group-Isolated) depth 40)

  group_members-Isolated :
      (root : json.Value) → Isolated this (group_members database json this root)
  unfolding group_members
  group_members-Isolated root =
      search (isolation, sessions_now-Isolated, answer-Isolated database json this) depth 40

  pub members-Isolated :
      (text : Bytes) → Isolated this (on_get_group_member_response database json this text)
  unfolding on_get_group_member_response
  members-Isolated text =
      option-Isolated this (json.parse text) (return-Isolated this tt)
        (λ root. search (isolation, group_members-Isolated) depth 40)

  deliver_to-Isolated : (id : ℕ) (writer : Writer) → Isolated {Db = Db} this (deliver_to id writer)
  unfolding deliver_to
  deliver_to-Isolated id writer =
      bind-Isolated this (target_session-Isolated this id)
        (λ found. option-Isolated this found (search isolation) (λ k. send-Isolated this k writer))

  deliver_group-Isolated :
      (us : List User) (writer : Writer) → Isolated {Db = Db} this (deliver_group us writer)
  unfolding deliver_group
  deliver_group-Isolated [] writer = search isolation depth 40
  deliver_group-Isolated (u ∷ us) writer =
      search (isolation, deliver_to-Isolated, deliver_group-Isolated us) depth 40

  pub chat-Isolated : (text : Bytes) → Isolated this (on_chat_response database json this text)
  unfolding on_chat_response
  chat-Isolated text = search (isolation, deliver_to-Isolated, deliver_group-Isolated) depth 40

  chat_each-Isolated :
      (vs : List json.Value) (text : Bytes) → Isolated this (chat_each database json this vs text)
  unfolding chat_each
  chat_each-Isolated [] text = search isolation depth 40
  chat_each-Isolated (v ∷ vs) text =
      bind-Isolated this (lift-Isolated this (json.as_int v)) (λ target.
        edit-Isolated this (λ s. record s { target = target }) (λ s. refl)
          (next-Isolated this (chat-Isolated text) (chat_each-Isolated vs text)))

  pub multi_chat-Isolated :
      (text : Bytes) → Isolated this (on_multi_chat_response database json this text)
  unfolding on_multi_chat_response
  multi_chat-Isolated text = bind-Isolated this (session_of-Isolated this this) (λ s.
      option-Isolated this (json.parse s.targets) (return-Isolated this tt) (λ root.
        bind-Isolated this (lift-Isolated this (member_is json json.is_array "targets" root))
          (λ typed.
            bind-Isolated this (lift-Isolated this (json.member (codes "targets") root)) (λ targets.
              if-Isolated this typed (chat_each-Isolated (json.items targets) text)
                (return-Isolated this tt)))))
