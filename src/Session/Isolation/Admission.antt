-- ===== src/Session/Isolation/Admission.antt =====
-- What it means that a login of EdoyumIMServer/ClientSession.cpp is let in.
use my_project_imserver.Base.{ℕ, ◌≡◌, ◌⊎◌, inl, refl, sym, ap, ◌∙◌, true, some, Bytes, bytes_eq}
use my_project_imserver.Cache.{get_notify, get_chat}
use my_project_imserver.Users.Types.{User}
use my_project_imserver.Users.Manager.{DbApi, get_user_info_by_username, get_friend_info_by_user_id}
use my_project_imserver.Server.{map_set}
use my_project_imserver.Session.Json.{JsonApi, string_at}
use my_project_imserver.Session.Keeping.{
  whose, whose-map_set, Bounded, Bounded-trans, Kept, set-Bounded,
}
use my_project_imserver.Session.World.{
  World, ◌>>=◌, ◌>>◌, run_cache, of_manager, put_session, tell_online, msg_type_login,
}
use my_project_imserver.Session.Account.{answer, login_data, send_cached, login_user}
use my_project_imserver.Session.Login.{logged_in}
use my_project_imserver.Session.Sending.{after_session_of}
use my_project_imserver.Session.Isolation.{Isolated, isolation}
use my_project_imserver.Session.Isolation.Accounts.{
  answer-Isolated, send_cached-Isolated, tell_online-Isolated,
}

module _ (database : DbApi) (json : JsonApi) (this : Bytes) where
  open database use {Db}

  -- What follows the change of the session.
  after_change-Isolated :
      (u : User) (username : Bytes)
      → Isolated {Db = Db} this (do
        answer database json this msg_type_login (login_data database json this u username)
        notifications ← run_cache (get_notify u.userid)
        send_cached database json this notifications
        chats ← run_cache (get_chat u.userid)
        send_cached database json this chats
        friends ← of_manager (get_friend_info_by_user_id u.userid)
        tell_online json friends u.userid 1)
  after_change-Isolated u username =
      search
        (
          isolation,
          answer-Isolated database json this,
          send_cached-Isolated database json this,
          tell_online-Isolated database json this,
        )
        depth 40

  -- The session now belongs to a user.
  pub record Belongs (u : User) (username password : Bytes) (w w' : World Db) : Type 0 where
    pub user : User
    pub id : user.userid ≡ u.userid
    pub name : user.username ≡ username
    pub secret : user.password ≡ password
    pub taken : whose w'.sessions ≡ map_set this user (whose w.sessions)

  pub login_user-Belongs :
      (u : User) (username password : Bytes) (clienttype : ℕ) (w w' : World Db)
      → login_user database json this u username password clienttype w ≡ some (tt, w')
      → Bounded this w w' × Belongs u username password w w'
  unfolding login_user put_session
  login_user-Belongs u username password clienttype w w' e =
      after_session_of this _ w w' tt e (λ s found rest.
        let s' = logged_in database json this u username password clienttype s in
        let w1 : World Db = record w { sessions = map_set this s' w.sessions } in
        let kept = (after_change-Isolated u username).keeps w1 w' tt rest in
        (
          Bounded-trans this w w1 w' (set-Bounded this s' w) kept.bounded,
          record {
            user = s'.user;
            id = refl;
            name = refl;
            secret = refl;
            taken = kept.owners ∙ whose-map_set this s' w.sessions;
          },
        ))

  -- The user whose name and password stand in the text of a request is cached, and the session
  -- now belongs to that user.
  pub record Granted (text : Bytes) (w w' : World Db) : Type 0 where
    pub root : json.Value
    pub parsed : json.parse text ≡ some root
    pub username : Bytes
    pub named : string_at json "username" root ≡ some username
    pub password : Bytes
    pub given : string_at json "password" root ≡ some password
    pub account : User
    pub listed : get_user_info_by_username username w.manager ≡ some account
    pub checked : bytes_eq password account.password ≡ true
    pub now : Belongs account username password w w'

  -- A change before that kept the users and whom the sessions belong to.
  pub Granted-before :
      (text : Bytes) (w1 w2 w' : World Db)
      → w2.manager ≡ w1.manager
      → whose w2.sessions ≡ whose w1.sessions
      → Granted text w2 w'
      → Granted text w1 w'
  Granted-before text w1 w2 w' h own g = record {
    root = g.root;
    parsed = g.parsed;
    username = g.username;
    named = g.named;
    password = g.password;
    given = g.given;
    account = g.account;
    checked = g.checked;
    listed = ap (get_user_info_by_username g.username) (sym h) ∙ g.listed;
    now = record {
      user = g.now.user;
      id = g.now.id;
      name = g.now.name;
      secret = g.now.secret;
      taken = g.now.taken ∙ ap (map_set this g.now.user) own;
    };
  }

  -- Either the sessions belong to whom they belonged to, or a login has been let in.
  abbrev pub Access : Bytes → World Db → World Db → Type 0
  Access text w w' =
      Bounded this w w' × ((whose w'.sessions ≡ whose w.sessions) ⊎ Granted text w w')

  pub Kept-Access : (text : Bytes) (w w' : World Db) → Kept this w w' → Access text w w'
  Kept-Access text w w' kept = (kept.bounded, inl kept.owners)
