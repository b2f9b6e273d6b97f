-- ===== src/Session/Relations/Accept.antt =====
-- The acceptance of a friend's request in EdoyumIMServer/ClientSession.cpp.
use my_project_imserver.Base.{
  ℕ, ◌≡◌, ◌≢◌, refl, ap, ◌∙◌, Bool, true, false, not, ◌||◌, [], ◌∷◌, Option, none, some,
  if◌then◌else◌, slt, Bytes, IsWord,
}
use my_project_imserver.Cache.{add_notify}
use my_project_imserver.Users.Types.{User, is_group}
use my_project_imserver.Users.Sql.{sql_make_friends}
use my_project_imserver.Users.Manager.{
  DbApi, UserManager, find_by_id, get_user_info_by_user_id, make_friend_relationship,
}
use my_project_imserver.Users.Growing.{make_friend_relationship-Growing}
use my_project_imserver.Users.Friends.{present, is_friend, is_pair}
use my_project_imserver.Server.{Session, map_find, get_session_by_id}
use my_project_imserver.Session.Json.{JsonApi, member_is, int_at, put_int}
use my_project_imserver.Session.World.{
  World, M, ◌>>=◌, ◌>>◌, return, session_of, run_manager, of_manager, msg_type_operatefriend,
}
use my_project_imserver.Session.Account.{answer}
use my_project_imserver.Session.Friend.{operate_data, tell_other, answer_request, operate_friend}
use my_project_imserver.Session.Sending.{go_on, on_some, bind-some, next-some, session_of-found}
use my_project_imserver.Session.Notices.{sending}
use my_project_imserver.Users.Ordered.{
  find_by_id-present, find_by_id-name_of, name_of-linked, smaller, greater, link_ordered, linked,
}
use my_project_imserver.Session.Relations.{
  about_friends, acceptance, told, answer-about_friends, tell_other_lem,
}
use my_project_imserver.Wire.Strings.{IsText}

module _ (database : DbApi) (json : JsonApi) (this : Bytes) where
  open database use {Db}
  open json use {Value}

  -- The world behind the acceptance, when the two have been linked by `r`: the acceptances of both.
  abbrev pub replied : Bool × UserManager × Db → ℕ → Bytes → Session → World Db → World Db
  replied r target name s w =
      told json target (acceptance json s.user.userid s.user.username) s.seq (
        sending (about_friends json this s.seq (acceptance json target name) ∷ [])
          (record w { manager = r.1; db = r.2 }))

  -- What the acceptance of a request leads to, once the two are linked.
  after_link :
      (f : UserManager → Db → Bool × UserManager × Db) (target : ℕ) (u : User) (s : Session)
      (w : World Db)
      → (f w.manager w.db).0 ≡ true
      → get_user_info_by_user_id target (f w.manager w.db).1 ≡ some u
      → IsWord s.seq
      → IsText (json.styled (acceptance json u.userid u.username))
      → IsText (json.styled (acceptance json s.user.userid s.user.username))
      → map_find this w.sessions ≡ some s
      → (do
        ok ← run_manager f
        if not ok then return tt else do
          found ← of_manager (get_user_info_by_user_id target)
          elim found [
            | none ↦ return tt
            | some v ↦ do
              answer database json this msg_type_operatefriend
                  (put_int json "accept" 1 (operate_data database json this v.userid 3 v.username))
              tell_other database json this target (
                  put_int json "accept" 1
                    (operate_data database json this s.user.userid 3 s.user.username))
          ])
          w
        ≡ some (
          tt,
          told json target (acceptance json s.user.userid s.user.username) s.seq (
              sending
                (about_friends json this s.seq (acceptance json u.userid u.username) ∷ [])
                (record w { manager = (f w.manager w.db).1; db = (f w.manager w.db).2 })),
        )
  unfolding operate_data
  after_link f target u s w ok there hs first_text second_text found =
      let w1 : World Db = record w { manager = (f w.manager w.db).1; db = (f w.manager w.db).2 } in
      let first = acceptance json u.userid u.username in
      go_on (f w.manager w.db).0 _ w1 ok
      ∙ on_some (get_user_info_by_user_id target (f w.manager w.db).1) replies u w1 there
      ∙ next-some (answer database json this msg_type_operatefriend first) _ w1
          (sending (about_friends json this s.seq first ∷ []) w1)
          (answer-about_friends database json this first s w1 hs first_text found)
      ∙ tell_other_lem database json this target (acceptance json s.user.userid s.user.username) s
          (sending (about_friends json this s.seq first ∷ []) w1) hs second_text found
    where
      replies : User → M Db (Unit {0})
      replies v = do
        answer database json this msg_type_operatefriend
            (put_int json "accept" 1 (operate_data database json this v.userid 3 v.username))
        tell_other database json this target (
            put_int json "accept" 1
              (operate_data database json this s.user.userid 3 s.user.username))

  told-manager :
      (target : ℕ) (root : Value) (seq : ℕ) (w : World Db)
      → (told json target root seq w).manager ≡ w.manager
  told-manager target root seq w = by_session (get_session_by_id target w.sessions)
    where
      by_session :
          (o : Option Bytes)
          → (elim o as (λ _. World Db) [
            | none ↦ record w { cache = add_notify target (json.styled root) w.cache }
            | some k ↦ sending (about_friends json k seq root ∷ []) w
          ]).manager
            ≡ w.manager
      by_session none = refl
      by_session (some k) = refl

  abbrev made : Session → ℕ → World Db → Bool × UserManager × Db
  made s target w =
      make_friend_relationship database (smaller s.user.userid target)
        (greater s.user.userid target) w.manager w.db

  abbrev pub accepted : ℕ → Bytes → Session → World Db → World Db
  accepted target name s w = replied (made s target w) target name s w

  answer_request-accepted :
      (target : ℕ) (name : Bytes) (u : User) (s : Session) (w : World Db)
      → (made s target w).0 ≡ true
      → find_by_id target (made s target w).1.cached_users ≡ some u
      → u.userid ≡ target
      → u.username ≡ name
      → IsWord s.seq
      → IsText (json.styled (acceptance json target name))
      → IsText (json.styled (acceptance json s.user.userid s.user.username))
      → map_find this w.sessions ≡ some s
      → answer_request database json this target 1 w ≡ some (tt, accepted target name s w)
  unfolding answer_request get_user_info_by_user_id
  answer_request-accepted target name u s w ok there same_id same_name hs first_text second_text
        found =
      let me = s.user.userid in
      let same = link_ordered database me target w.manager w.db in
      bind-some (session_of this) _ s w w (session_of-found this s w found)
      ∙ after_link
          (λ m d.
            if slt target me
            then make_friend_relationship database target me m d
            else make_friend_relationship database me target m d)
          target u s w (ap (λ (r : Bool × UserManager × Db). r.0) same ∙ ok)
          (ap (λ (r : Bool × UserManager × Db). find_by_id target r.1.cached_users) same ∙ there) hs
          (rw (same_id, same_name) first_text) second_text found
      ∙ rw (same_id, same_name)
          (ap (λ (r : Bool × UserManager × Db). some (tt, replied r target name s w)) same)

  -- Where a request says that its session accepts another user, who is no group, both are cached
  -- and differ, the database takes the relationship, and the texts of the two messages are below
  -- 2^31 - 65536 bytes, the handler ends: the two become friends of each other and no other
  -- friendship changes; the session gets, as one package on its own connection, the acceptance
  -- with the id of the other user and the name that the other user is cached with; and the other
  -- user gets it with the id and the name of the session, at once on a session that the user is
  -- found under, or else cached as a notification. That the other user has asked before is not
  -- needed.
  pub operate_friend-accepted :
      (root : Value) (target : ℕ) (u : User) (s : Session) (w : World Db)
      → int_at json "type" root ≡ some 3
      → int_at json "userid" root ≡ some target
      → member_is json json.is_int "accept" root ≡ some true
      → int_at json "accept" root ≡ some 1
      → is_group target ≡ false
      → map_find this w.sessions ≡ some s
      → s.user.userid ≢ target
      → IsWord s.seq
      → IsWord s.user.userid
      → IsWord target
      → present s.user.userid w.manager.cached_users ≡ true
      → find_by_id target w.manager.cached_users ≡ some u
      → IsText (json.styled (acceptance json target u.username))
      → IsText (json.styled (acceptance json s.user.userid s.user.username))
      → (database.execute
          (sql_make_friends (smaller s.user.userid target) (greater s.user.userid target))
          w.db).0
        ≡ true
      → (operate_friend database json this root w ≡ some (tt, accepted target u.username s w))
        × ((x y : ℕ)
            → is_friend x y (accepted target u.username s w).manager.cached_users
              ≡ (is_friend x y w.manager.cached_users || is_pair s.user.userid target x y))
  unfolding operate_friend
  operate_friend-accepted root target u s w ht hu typed ha single found apart hs hm hg pm cached
        first_text second_text stored =
      let me = s.user.userid in
      let r = made s target w in
      let (pt, _, named) = find_by_id-name_of target w.manager.cached_users u cached in
      let there =
        (make_friend_relationship-Growing database (smaller me target) (greater me target)).grows
          target w.manager w.db pt in
      let (v, e, i) = find_by_id-present target r.1.cached_users there in
      let (_, _, named') = find_by_id-name_of target r.1.cached_users v e in
      let kept =
        name_of-linked database (smaller me target) (greater me target) target w.manager w.db in
      let same : v.username ≡ u.username = cc in
      (
        rw (ht, hu)
            (bind-some (session_of this) _ s w w (session_of-found this s w found)
              ∙ rw (single, typed, ha)
                  (answer_request-accepted target u.username v s w
                    (linked database me target 0 0 w.manager w.db apart hm hg pm pt stored).0 e i
                    same hs first_text second_text found)),
        λ x y.
            ap (λ (m : UserManager). is_friend x y m.cached_users)
              (told-manager target (acceptance json me s.user.username) s.seq _)
            ∙ (linked database me target x y w.manager w.db apart hm hg pm pt stored).1,
      )
