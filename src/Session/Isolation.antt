-- ===== src/Session/Isolation.antt =====
-- What a request of EdoyumIMServer/ClientSession.cpp does to the sessions of other connections.
pub mod Accounts
pub mod Friends
pub mod Admission
pub mod Login
pub mod Dispatch
pub mod Requests
use my_project_imserver.Base.{
  ℕ, ◌≡◌, refl, sym, ap, subst, ◌∙◌, Bool, true, false, not, List, [], ◌∷◌, ◌++◌, Option, none,
  some, if◌then◌else◌, ◌==◌, arith, Bytes, bytes_eq, bytes_eq→eq,
}
use my_project_imserver.Wire.Writer.{Writer}
use my_project_imserver.Frame.Send.{chat_send}
use my_project_imserver.Cache.{MsgCache}
use my_project_imserver.Users.Manager.{DbApi, UserManager}
use my_project_imserver.Server.{Session, SessionMap, map_find, map_set}
use my_project_imserver.Server.Laws.{IsSorted, bytes_eq_left}
use my_project_imserver.Server.Update.{map_set-IsSorted, map_find-set_ne}
use my_project_imserver.Users.Growing.{Growing}
use my_project_imserver.Users.Friends.{present}
use my_project_imserver.Session.Keeping.{whose, Bounded, Kept, Kept-trans, set-Kept}
use my_project_imserver.Session.Sending.{after_session_of}
use my_project_imserver.Session.World.{
  World, M, ◌>>=◌, ◌>>◌, return, lift, throw, of_manager, run_manager, run_db, run_cache,
  change_cache, session_of, put_session, target_session, send, send_last,
}

module _ {Db : Type 0} (this : Bytes) where
  pub record Isolated {A : Type 0} (m : M Db A) : Type 0 where
    pub keeps : (w w' : World Db) (a : A) → m w ≡ some (a, w') → Kept this w w'

  world_of : {A : Type 0} → World Db → Option (A × World Db) → World Db
  world_of w none = w
  world_of w (some (a, v)) = v

  pub step-Isolated :
      {A : Type 0} (x : World Db → A) (v : World Db → World Db)
      → ((w : World Db) → Kept this w (v w))
      → Isolated (λ w. some (x w, v w))
  unfolding world_of
  step-Isolated x v h = record { keeps = λ w w' a e. subst (Kept this w) (ap (world_of w) e) (h w) }

  -- A step that changes neither a session nor the users.
  pub quiet-Isolated :
      {A : Type 0} (x : World Db → A) (v : World Db → World Db)
      → ((w : World Db) → (v w).sessions ≡ w.sessions)
      → ((w : World Db) → (v w).closed ≡ w.closed)
      → ((w : World Db) → (v w).manager ≡ w.manager)
      → Isolated (λ w. some (x w, v w))
  quiet-Isolated x v p q r = step-Isolated x v (λ w. record {
    bounded = record {
      others = λ k h. ap (map_find k) (p w);
      sorted = λ h. subst IsSorted (sym (p w)) h;
      open_still = q w;
      grown = λ id h. ap (λ m. present id m.cached_users) (r w) ∙ h;
    };
    owners = ap whose (p w);
  })

  pub bind-Isolated :
      {A B : Type 0} {m : M Db A} {f : A → M Db B}
      → Isolated m
      → ((a : A) → Isolated (f a))
      → Isolated (m >>= f)
  bind-Isolated {A} {B} {m} {f} p q = record {
    keeps = λ w w' b e. by_first w w' b (m w) (p.keeps w) e;
  }
    where
      by_first :
          (w w' : World Db) (b : B) (o : Option (A × World Db))
          → ((v : World Db) (a : A) → o ≡ some (a, v) → Kept this w v)
          → (elim o as (λ _. Option (B × World Db)) [ none ↦ none | some (a, v) ↦ f a v ])
            ≡ some (b, w')
          → Kept this w w'
      by_first w w' b none h e = cc
      by_first w w' b (some (a, v)) h e = Kept-trans this w v w' (h v a refl) ((q a).keeps v w' b e)

  pub next-Isolated :
      {B : Type 0} {m : M Db (Unit {0})} {k : M Db B} → Isolated m → Isolated k → Isolated (m >> k)
  next-Isolated {B} {m} {k} p q = record { keeps = λ w w' b e. by_first w w' b (m w) (p.keeps w) e }
    where
      by_first :
          (w w' : World Db) (b : B) (o : Option (Unit {0} × World Db))
          → ((v : World Db) (a : Unit {0}) → o ≡ some (a, v) → Kept this w v)
          → (elim o as (λ _. Option (B × World Db)) [ none ↦ none | some (a, v) ↦ k v ])
            ≡ some (b, w')
          → Kept this w w'
      by_first w w' b none h e = cc
      by_first w w' b (some (a, v)) h e = Kept-trans this w v w' (h v a refl) (q.keeps v w' b e)

  pub if-Isolated :
      {A : Type 0} {m k : M Db A} (b : Bool)
      → Isolated m
      → Isolated k
      → Isolated (if b then m else k)
  if-Isolated true p q = p
  if-Isolated false p q = q

  pub option-Isolated :
      {A B : Type 0} {m : M Db B} {f : A → M Db B} (o : Option A)
      → Isolated m
      → ((a : A) → Isolated (f a))
      → Isolated (elim o as (λ _. M Db B) [ none ↦ m | some a ↦ f a ])
  option-Isolated none p q = p
  option-Isolated (some a) p q = q a

  pub return-Isolated : {A : Type 0} (a : A) → Isolated (return a)
  return-Isolated a = quiet-Isolated (λ w. a) (λ w. w) (λ w. refl) (λ w. refl) (λ w. refl)

  pub throw-Isolated : {A : Type 0} → Isolated (throw {A = A})
  throw-Isolated = record { keeps = λ w w' a e. cc }

  pub lift-Isolated : {A : Type 0} (o : Option A) → Isolated (lift o)
  lift-Isolated none = record { keeps = λ w w' a e. cc }
  lift-Isolated (some a) = quiet-Isolated (λ w. a) (λ w. w) (λ w. refl) (λ w. refl) (λ w. refl)

  pub of_manager-Isolated : {A : Type 0} (f : UserManager → A) → Isolated (of_manager f)
  of_manager-Isolated f =
      quiet-Isolated (λ w. f w.manager) (λ w. w) (λ w. refl) (λ w. refl) (λ w. refl)

  pub run_manager-Isolated :
      {A : Type 0} {f : UserManager → Db → A × UserManager × Db}
      → Growing f
      → Isolated (run_manager f)
  run_manager-Isolated {A} {f} g =
      step-Isolated (λ w. (f w.manager w.db).0)
        (λ w. record w { manager = (f w.manager w.db).1; db = (f w.manager w.db).2 })
        (λ w. record {
          bounded = record {
            others = λ k h. refl;
            sorted = λ h. h;
            open_still = refl;
            grown = λ id h. g.grows id w.manager w.db h;
          };
          owners = refl;
        })

  pub run_db-Isolated : {A : Type 0} (f : Db → A × Db) → Isolated (run_db f)
  run_db-Isolated f =
      quiet-Isolated (λ w. (f w.db).0) (λ w. record w { db = (f w.db).1 }) (λ w. refl) (λ w. refl)
        (λ w. refl)

  pub run_cache-Isolated : {A : Type 0} (f : MsgCache → A × MsgCache) → Isolated (run_cache f)
  run_cache-Isolated f =
      quiet-Isolated (λ w. (f w.cache).0) (λ w. record w { cache = (f w.cache).1 }) (λ w. refl)
        (λ w. refl) (λ w. refl)

  pub change_cache-Isolated : (f : MsgCache → MsgCache) → Isolated (change_cache f)
  change_cache-Isolated f =
      quiet-Isolated (λ w. tt) (λ w. record w { cache = f w.cache }) (λ w. refl) (λ w. refl)
        (λ w. refl)

  pub target_session-Isolated : (id : ℕ) → Isolated (target_session id)
  unfolding target_session
  target_session-Isolated id = quiet-Isolated _ (λ w. w) (λ w. refl) (λ w. refl) (λ w. refl)

  pub send-Isolated : (k : Bytes) (writer : Writer) → Isolated (send k writer)
  unfolding send
  send-Isolated k writer =
      quiet-Isolated (λ w. (chat_send writer).1)
        (λ w. record w { sent = w.sent ++ (k, (chat_send writer).0) ∷ [] }) (λ w. refl) (λ w. refl)
        (λ w. refl)

  pub send_last-Isolated : (k : Bytes) (writer : Writer) → Isolated (send_last k writer)
  send_last-Isolated k writer = bind-Isolated (send-Isolated k writer) (λ w. return-Isolated tt)

  -- What is done with the session object of a connection.
  found-Isolated :
      {A : Type 0} (k : Bytes) {f : Session → M Db A}
      → ((s : Session) (w w' : World Db) (a : A)
          → map_find k w.sessions ≡ some s
          → f s w ≡ some (a, w')
          → Kept this w w')
      → Isolated (session_of k >>= f)
  found-Isolated {A} k {f} h = record {
    keeps = λ w w' a e. after_session_of k f w w' a e (λ s. h s w w' a);
  }

  pub session_of-Isolated : (k : Bytes) → Isolated (session_of k)
  unfolding session_of
  session_of-Isolated k = record { keeps = λ w w' a e. by_find w w' a (map_find k w.sessions) e }
    where
      by_find :
          (w w' : World Db) (a : Session) (o : Option Session)
          → (elim o as (λ _. Option (Session × World Db)) [ none ↦ none | some s ↦ some (s, w) ])
            ≡ some (a, w')
          → Kept this w w'
      by_find w w' a none e = cc
      by_find w w' a (some s) e = (return-Isolated s).keeps w w' a e

  -- A change of the session of the request itself that leaves it to whom it belongs.
  pub edit-Isolated :
      {B : Type 0} (f : Session → Session) {k : M Db B}
      → ((s : Session) → (f s).user ≡ s.user)
      → Isolated k
      → Isolated (session_of this >>= λ s. put_session this (f s) >> k)
  unfolding put_session
  edit-Isolated {B} f {k} h p = found-Isolated this (λ s w w' a found e.
      Kept-trans this w (record w { sessions = map_set this (f s) w.sessions }) w'
        (set-Kept this s (f s) w found (h s))
        (p.keeps (record w { sessions = map_set this (f s) w.sessions }) w' a e))

  pub edit_last-Isolated :
      (f : Session → Session)
      → ((s : Session) → (f s).user ≡ s.user)
      → Isolated (session_of this >>= λ s. put_session this (f s))
  unfolding put_session world_of
  edit_last-Isolated f h = found-Isolated this (λ s w w' a found e.
      subst (Kept this w) (ap (world_of w) e) (set-Kept this s (f s) w found (h s)))

-- The rules for the steps of a handler.
pub ruleset isolation = (
  bind-Isolated, next-Isolated, if-Isolated, option-Isolated, return-Isolated, throw-Isolated,
  lift-Isolated, of_manager-Isolated, run_manager-Isolated, run_db-Isolated, run_cache-Isolated,
  change_cache-Isolated, target_session-Isolated, send-Isolated, send_last-Isolated,
  session_of-Isolated,
)
