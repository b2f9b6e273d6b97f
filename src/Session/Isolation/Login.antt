-- ===== src/Session/Isolation/Login.antt =====
-- A login request of EdoyumIMServer/ClientSession.cpp is the one that changes whom a session belongs to.
use my_project_imserver.Base.{
  ◌≡◌, inr, refl, Bool, true, false, not, [], ◌∷◌, Option, none, some, if◌then◌else◌, Bytes,
  bytes_eq,
}
use my_project_imserver.Users.Types.{User}
use my_project_imserver.Users.Manager.{DbApi, get_user_info_by_username}
use my_project_imserver.Session.Json.{JsonApi, member_is, every, string_at, int_at, status}
use my_project_imserver.Session.World.{World, M, ◌>>=◌, lift, msg_type_login}
use my_project_imserver.Session.Account.{answer, login_user, check_login, on_login_response}
use my_project_imserver.Session.Sending.{after_lift}
use my_project_imserver.Session.Isolation.Accounts.{answer-Isolated}
use my_project_imserver.Session.Isolation.Admission.{login_user-Belongs, Access, Kept-Access}

module _ (database : DbApi) (json : JsonApi) (this : Bytes) where
  open database use {Db}

  check_login-Access :
      (text : Bytes) (root : json.Value) (w w' : World Db)
      → json.parse text ≡ some root
      → check_login database json this root w ≡ some (tt, w')
      → Access database json this text w w'
  unfolding check_login
  check_login-Access text root w w' p e =
      after_lift (string_at json "username" root) _ w w' tt e (λ username hu e1.
        after_lift (string_at json "password" root) _ w w' tt e1 (λ password hp e2.
          by_lookup username hu password hp (get_user_info_by_username username w.manager) refl e2))
    where
      by_lookup :
          (username : Bytes)
          → string_at json "username" root ≡ some username
          → (password : Bytes) → string_at json "password" root ≡ some password
          → (found : Option User) → get_user_info_by_username username w.manager ≡ found
          → (elim found as (λ _. M Db (Unit {0})) [
            | none ↦
                answer database json this msg_type_login
                  (status json 103 "user is not exist or password is incorrest!" json.null)
            | some u ↦
                if not (bytes_eq password u.password)
                then answer database json this msg_type_login
                    (status json 104 "user is not exist or password is incorrest!" json.null)
                else do
                  clienttype ← lift (int_at json "clienttype" root)
                  login_user database json this u username password clienttype
          ])
              w
            ≡ some (tt, w')
          → Access database json this text w w'
      by_lookup username hu password hp none listed e2 =
          Kept-Access database json this text w w'
            ((answer-Isolated database json this _ _).keeps w w' tt e2)
      by_lookup username hu password hp (some u) listed e2 =
          by_check (bytes_eq password u.password) refl e2
        where
          by_check :
              (ok : Bool)
              → bytes_eq password u.password ≡ ok
              → (if not ok
                    then answer database json this msg_type_login
                        (status json 104 "user is not exist or password is incorrest!" json.null)
                    else do
                      clienttype ← lift (int_at json "clienttype" root)
                      login_user database json this u username password clienttype)
                  w
                ≡ some (tt, w')
              → Access database json this text w w'
          by_check false c e3 =
              Kept-Access database json this text w w'
                ((answer-Isolated database json this _ _).keeps w w' tt e3)
          by_check true c e3 =
              after_lift (int_at json "clienttype" root) _ w w' tt e3 (λ clienttype hc e4.
                let (bounded, belongs) =
                  login_user-Belongs database json this u username password clienttype w w' e4 in
                (
                  bounded,
                  inr (record {
                    root = root;
                    parsed = p;
                    username = username;
                    named = hu;
                    password = password;
                    given = hp;
                    account = u;
                    listed = listed;
                    checked = c;
                    now = belongs;
                  }),
                ))

  abbrev login_typed : json.Value → Option Bool
  login_typed root = every json (
      member_is json json.is_string "username" root
      ∷ member_is json json.is_string "password" root
      ∷ member_is json json.is_int "clienttype" root
      ∷ member_is json json.is_int "status" root
      ∷ [])

  pub on_login_response-Access :
      (text : Bytes) (w w' : World Db)
      → on_login_response database json this text w ≡ some (tt, w')
      → Access database json this text w w'
  unfolding on_login_response
  on_login_response-Access text w w' e = by_parse (json.parse text) refl e
    where
      quiet :
          (v : json.Value)
          → answer database json this msg_type_login v w ≡ some (tt, w')
          → Access database json this text w w'
      quiet v e1 =
          Kept-Access database json this text w w'
            ((answer-Isolated database json this msg_type_login v).keeps w w' tt e1)

      by_type :
          (root : json.Value)
          → json.parse text ≡ some root
          → (typed : Bool)
          → (if typed
                then check_login database json this root
                else answer database json this msg_type_login
                    (status json 102 "json data type error!" json.null))
              w
            ≡ some (tt, w')
          → Access database json this text w w'
      by_type root p false e1 = quiet _ e1
      by_type root p true e1 = check_login-Access text root w w' p e1

      by_parse :
          (o : Option json.Value)
          → json.parse text ≡ o
          → (elim o as (λ _. M Db (Unit {0})) [
            | none ↦
                answer database json this msg_type_login
                  (status json 101 "json pares failed!" json.null)
            | some root ↦ do
              typed ← lift (login_typed root)
              if typed
                  then check_login database json this root
                  else answer database json this msg_type_login
                      (status json 102 "json data type error!" json.null)
          ])
              w
            ≡ some (tt, w')
          → Access database json this text w w'
      by_parse none p e1 = quiet _ e1
      by_parse (some root) p e1 =
          after_lift (login_typed root)
            (λ typed.
              if typed
              then check_login database json this root
              else answer database json this msg_type_login
                  (status json 102 "json data type error!" json.null))
            w w' tt e1 (λ typed t e2. by_type root p typed e2)
