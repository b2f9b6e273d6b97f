-- ===== src/Session/Relations/Groups.antt =====
-- The creation of a group in EdoyumIMServer/ClientSession.cpp.
use my_project_imserver.Base.{
  ℕ, ◌≡◌, refl, ap, ◌∙◌, Bool, true, not, ◌||◌, List, [], ◌∷◌, ◌++◌, Option, none, some,
  if◌then◌else◌, arith, Bytes,
}
use my_project_imserver.Frame.Send.{chat_send}
use my_project_imserver.Users.Types.{User, new_user, is_group}
use my_project_imserver.Users.Sql.{sql_make_friends}
use my_project_imserver.Users.Manager.{DbApi, UserManager, find_by_id, make_friend_relationship}
use my_project_imserver.Users.Friends.{present, is_friend, is_pair, make_friend_relationship_lem}
use my_project_imserver.Server.{Session, map_find}
use my_project_imserver.Session.Json.{JsonApi, put_int}
use my_project_imserver.Session.World.{
  World, M, ◌>>=◌, ◌>>◌, return, session_of, run_manager, reply, msg_type_operatefriend,
}
use my_project_imserver.Session.Account.{answer}
use my_project_imserver.Session.Friend.{operate_data}
use my_project_imserver.Session.Sending.{bind-some, session_of-found}
use my_project_imserver.Session.Notices.{sending}
use my_project_imserver.Session.Login.{answer_lem}
use my_project_imserver.Users.Growing.{add_group-Growing}
use my_project_imserver.Users.Sql.{sql_add_group}
use my_project_imserver.Users.Manager.{new_group, add_group}
use my_project_imserver.Users.Ids.{IsValid, next_group_id, add_group_lem}
use my_project_imserver.Base.{c_text, ◌<◌, ◌+◌}
use my_project_imserver.Session.World.{msg_type_creategroup}
use my_project_imserver.Session.Json.{string_at, status, put_string}
use my_project_imserver.Session.Group.{create_group}
use my_project_imserver.Session.Notices.{sending_then}
use my_project_imserver.Session.Relations.{connected}
use my_project_imserver.Users.Ordered.{find_by_id-name_of}

module _ (database : DbApi) (json : JsonApi) (this : Bytes) where
  open database use {Db}
  open json use {Value}

  -- The two replies to the session.
  abbrev pub group_replies : ℕ → Bytes → Value → Session → List (Bytes × Bytes)
  group_replies id name root s =
      (
        this,
        (chat_send (
            reply msg_type_creategroup s.seq (
              json.styled (
                put_string json "groupname" name
                  (put_int json "groupid" id (status json 0 "ok" (json.clear root))))))).0,
      )
      ∷ (
        this,
        (chat_send (reply msg_type_operatefriend s.seq (json.styled (connected json id name)))).0,
      )
      ∷ []

  run_manager-some :
      {A : Type 0} (f : UserManager → Db → A × UserManager × Db) (a : A) (w : World Db)
      → (f w.manager w.db).0 ≡ a
      → run_manager f w
        ≡ some (a, record w { manager = (f w.manager w.db).1; db = (f w.manager w.db).2 })
  run_manager-some f a w e =
      ap (λ x. some (x, record w { manager = (f w.manager w.db).1; db = (f w.manager w.db).2 })) e

  -- The cache and the database behind the two calls of the manager.
  abbrev added : Bytes → Session → World Db → Option ℕ × UserManager × Db
  added name s w = add_group database name s.user.userid w.manager w.db

  abbrev joined : Bytes → Session → World Db → Bool × UserManager × Db
  joined name s w =
      make_friend_relationship database s.user.userid (next_group_id w.manager) (added name s w).1
        (added name s w).2

  abbrev pub founded : Bytes → Value → Session → World Db → World Db
  founded name root s w =
      sending (group_replies (next_group_id w.manager) name root s)
        (record w { manager = (joined name s w).1; db = (joined name s w).2 })

  create_group-group_replies :
      (memory : ℕ) (root : Value) (name : Bytes) (s : Session) (w : World Db)
      → string_at json "groupname" root ≡ some name
      → map_find this w.sessions ≡ some s
      → (added name s w).0 ≡ some (next_group_id w.manager)
      → (joined name s w).0 ≡ true
      → create_group database json this memory root w ≡ some (tt, founded name root s w)
  unfolding create_group operate_data
  create_group-group_replies memory root name s w hn found ha hj =
      let id = next_group_id w.manager in
      let w1 : World Db = record w { manager = (added name s w).1; db = (added name s w).2 } in
      let w2 : World Db = record w { manager = (joined name s w).1; db = (joined name s w).2 } in
      rw hn (
        bind-some (session_of this) _ s w w (session_of-found this s w found)
        ∙ bind-some (run_manager (add_group database name s.user.userid)) join (some id) w w1
            (run_manager-some (add_group database name s.user.userid) (some id) w ha)
        ∙ bind-some (run_manager (make_friend_relationship database s.user.userid id))
            (replies id (response id)) true w1 w2
            (run_manager-some (make_friend_relationship database s.user.userid id) true w1 hj)
        ∙ sending_then (answer database json this msg_type_creategroup _)
            (answer database json this msg_type_operatefriend _) (_ ∷ []) (_ ∷ []) w2
            (answer_lem database json this msg_type_creategroup _ s w2 found)
            (answer_lem database json this msg_type_operatefriend _ s (sending _ w2) found))
    where
      refused : Value
      refused = status json 106 "create group error" (json.clear root)

      response : ℕ → Value
      response n =
          put_string json "groupname" name
            (put_int json "groupid" n (status json 0 "ok" (json.clear root)))

      replies : ℕ → Value → Bool → M Db (Unit {0})
      replies groupid v ok = if not ok then return tt else do
        answer database json this msg_type_creategroup v
        answer database json this msg_type_operatefriend
            (operate_data database json this groupid 3 name)

      join : Option ℕ → M Db (Unit {0})
      join o =
          run_manager (
            make_friend_relationship database s.user.userid
              (elim o as (λ _. ℕ) [ none ↦ memory | some n ↦ n ]))
          >>= replies (elim o as (λ _. ℕ) [ none ↦ memory | some n ↦ n ])
              (elim o as (λ _. Value) [ none ↦ refused | some n ↦ response n ])

  is_friend-snoc :
      (x y : ℕ) (us : List User) (u : User)
      → u.friends ≡ []
      → is_friend x y (us ++ u ∷ []) ≡ is_friend x y us
  is_friend-snoc x y [] u h = ground arith
  is_friend-snoc x y (v ∷ us) u h = ground (arith, is_friend-snoc x y us u h)

  is_friend-added :
      (x y : ℕ) (name : Bytes) (s : Session) (w : World Db)
      → is_friend x y (added name s w).1.cached_users ≡ is_friend x y w.manager.cached_users
  unfolding add_group new_user
  is_friend-added x y name s w =
      let new = new_group (next_group_id w.manager) name s.user.userid in
      ground (arith, is_friend-snoc x y w.manager.cached_users new refl)

  -- Where the session has a cached user with an id below those of groups, ids are valid with room
  -- for a group and the database takes both statements, the creation of a group ends: the group
  -- has the next id, which nobody had and which is a group id, the user and the group become
  -- friends of each other and no other friendship changes, and the session gets the two replies.
  pub create_group-founded :
      (memory : ℕ) (root : Value) (name : Bytes) (s : Session) (w : World Db)
      → string_at json "groupname" root ≡ some name
      → map_find this w.sessions ≡ some s
      → IsValid w.manager
      → w.manager.base_group_id + 1 < 0x8000_0000
      → s.user.userid < 0x1000_0000
      → present s.user.userid w.manager.cached_users ≡ true
      → (database.execute
          (sql_add_group (next_group_id w.manager) (c_text name) s.user.userid)
          w.db).0
        ≡ true
      → (database.execute
          (sql_make_friends s.user.userid (next_group_id w.manager))
          (added name s w).2).0
        ≡ true
      → (create_group database json this memory root w ≡ some (tt, founded name root s w))
        × (find_by_id (next_group_id w.manager) w.manager.cached_users ≡ none)
        × (is_group (next_group_id w.manager) ≡ true)
        × ((x y : ℕ)
            → is_friend x y (founded name root s w).manager.cached_users ≡ (
                is_friend x y w.manager.cached_users
                || is_pair s.user.userid (next_group_id w.manager) x y))
  create_group-founded memory root name s w hn found valid room small here stored linked =
      let id = next_group_id w.manager in
      let group = add_group_lem database id name s.user.userid w.manager w.db valid room in
      let me_there =
        (add_group-Growing database name s.user.userid).grows s.user.userid w.manager w.db here in
      let group_there : present id (added name s w).1.cached_users ≡ true =
        (find_by_id-name_of id (added name s w).1.cached_users (new_group id name s.user.userid)
          (group.1 ∙ rw stored (ground arith))).0 in
      let link = λ (x y : ℕ).
        make_friend_relationship_lem database s.user.userid id x y (added name s w).1
          (added name s w).2 in
      (
        create_group-group_replies memory root name s w hn found (group.0 ∙ rw stored refl)
            (ground (arith, link 0 0)),
        group.2,
        group.3,
        λ x y. ground (arith, link x y, is_friend-added x y name s w),
      )
