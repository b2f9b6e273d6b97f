-- ===== src/Session/Relations/Asking.antt =====
-- A request for a friendship and its acceptance, one after the other: OnOperateFriendResponse of
-- EdoyumIMServer/ClientSession.cpp on the connections of two users.
use my_project_imserver.Base.{
  ℕ, ◌≡◌, ◌≢◌, refl, ap, sym, ◌∙◌, true, false, ◌||◌, [], ◌∷◌, ◌++◌, append_assoc, none, some,
  Bytes, IsWord,
}
use my_project_imserver.Wire.Strings.{IsText}
use my_project_imserver.Cache.{add_notify}
use my_project_imserver.Users.Types.{User, is_group}
use my_project_imserver.Users.Sql.{sql_make_friends}
use my_project_imserver.Users.Manager.{DbApi, find_by_id, make_friend_relationship}
use my_project_imserver.Users.Friends.{present, is_friend, is_pair}
use my_project_imserver.Users.Ordered.{smaller, greater}
use my_project_imserver.Server.{Session, map_find, get_session_by_id}
use my_project_imserver.Session.Json.{JsonApi, member_is, int_at}
use my_project_imserver.Session.World.{World}
use my_project_imserver.Session.Friend.{operate_friend}
use my_project_imserver.Session.Notices.{sending}
use my_project_imserver.Session.Relations.{
  about_friends, asked, acceptance, told, operate_friend_request,
}
use my_project_imserver.Session.Relations.Accept.{accepted, operate_friend-accepted}

module _ (database : DbApi) (json : JsonApi) where
  open database use {Db}
  open json use {Value}

  told-online :
      (target seq : ℕ) (root : Value) (k : Bytes) (w : World Db)
      → get_session_by_id target w.sessions ≡ some k
      → told json target root seq w ≡ sending (about_friends json k seq root ∷ []) w
  told-online target seq root k w online =
      ap
        (λ o. elim o as (λ _. World Db) [
          | none ↦ record w { cache = add_notify target (json.styled root) w.cache }
          | some k' ↦ sending (about_friends json k' seq root ∷ []) w
        ])
        online

  -- What the request and the acceptance lead to.
  abbrev pub Agreed : Value → Value → Bytes → Bytes → Session → Session → User → World Db → Type 0
  Agreed asking consent from to s s' u w =
      (w1 w2 : World Db) × (operate_friend database json from asking w ≡ some (tt, w1))
      × (operate_friend database json to consent w1 ≡ some (tt, w2))
      × (w2.sent
          ≡ w.sent
            ++ (about_friends json to s.seq (asked json s.user.userid s.user.username)
                ∷ about_friends json to s'.seq (acceptance json s.user.userid u.username)
                ∷ about_friends json from s'.seq (acceptance json s'.user.userid s'.user.username)
                ∷ []))
      × (w2.sessions ≡ w.sessions)
      × (w2.cache ≡ w.cache)
      × (w2.closed ≡ w.closed)
      × ((x y : ℕ)
          → is_friend x y w2.manager.cached_users
            ≡ (is_friend x y w.manager.cached_users || is_pair s'.user.userid s.user.userid x y))

  -- A user asks another for a friendship, both online, cached and no groups, and the other then
  -- accepts: for a database that takes the relationship and messages whose texts are below 2^31 -
  -- 65536 bytes, both handlers end; exactly three packages are sent, the request with the id and
  -- the name of the first session to the second, then the acceptance with the id and the cached
  -- name of the first user to the second, and the acceptance with the id and the name of the
  -- second session to the first; the two have become friends of each other and no other
  -- friendship has changed; sessions and cached messages are as before, and nothing is closed.
  pub operate_friend-Agreed :
      (asking consent : Value) (from to : Bytes) (s s' : Session) (u : User) (w : World Db)
      → int_at json "type" asking ≡ some 1
      → int_at json "userid" asking ≡ some s'.user.userid
      → int_at json "type" consent ≡ some 3
      → int_at json "userid" consent ≡ some s.user.userid
      → member_is json json.is_int "accept" consent ≡ some true
      → int_at json "accept" consent ≡ some 1
      → is_group s.user.userid ≡ false
      → is_group s'.user.userid ≡ false
      → map_find from w.sessions ≡ some s
      → map_find to w.sessions ≡ some s'
      → get_session_by_id s.user.userid w.sessions ≡ some from
      → get_session_by_id s'.user.userid w.sessions ≡ some to
      → s'.user.userid ≢ s.user.userid
      → IsWord s.seq
      → IsWord s'.seq
      → IsWord s.user.userid
      → IsWord s'.user.userid
      → find_by_id s.user.userid w.manager.cached_users ≡ some u
      → present s'.user.userid w.manager.cached_users ≡ true
      → IsText (json.styled (asked json s.user.userid s.user.username))
      → IsText (json.styled (acceptance json s.user.userid u.username))
      → IsText (json.styled (acceptance json s'.user.userid s'.user.username))
      → (database.execute
          (sql_make_friends
            (smaller s'.user.userid s.user.userid)
            (greater s'.user.userid s.user.userid))
          w.db).0
        ≡ true
      → Agreed asking consent from to s s' u w
  operate_friend-Agreed asking consent from to s s' u w ht hu ht' hu' typed ha single single' found
        found' online online' apart hs hs' hm hm' cached pm text first_text second_text stored =
      let a = s.user.userid in
      let b = s'.user.userid in
      let request = about_friends json to s.seq (asked json a s.user.username) in
      let w1 : World Db = sending (request ∷ []) w in
      let (ran, friends) =
        operate_friend-accepted database json to consent a u s' w1 ht' hu' typed ha single found'
          apart hs' hm' hm pm cached first_text second_text stored in
      let r = make_friend_relationship database (smaller b a) (greater b a) w.manager w.db in
      let answered =
        sending (about_friends json to s'.seq (acceptance json a u.username) ∷ [])
          (record w1 { manager = r.1; db = r.2 }) in
      let last = about_friends json from s'.seq (acceptance json b s'.user.username) in
      let end : accepted database json to a u.username s' w1 ≡ sending (last ∷ []) answered =
        told-online a s'.seq (acceptance json b s'.user.username) from answered online in
      (
        w1,
        sending (last ∷ []) answered,
        operate_friend_request database json from asking b s w ht hu single' hs text found
            ∙ ap (λ v. some (tt, v))
                (told-online b s.seq (asked json a s.user.username) to w online'),
        ran ∙ ap (λ v. some (tt, v)) end,
        append_assoc (w.sent ++ request ∷ []) _ _ ∙ append_assoc w.sent _ _,
        refl,
        refl,
        refl,
        λ x y. ap (λ (v : World Db). is_friend x y v.manager.cached_users) (sym end) ∙ friends x y,
      )
