-- ===== src/Session/Keeping.antt =====
-- What a request of EdoyumIMServer/ClientSession.cpp keeps: the sessions of the other connections, whom
-- each session belongs to, and the users.
use my_project_imserver.Base.{
  ℕ, ◌≡◌, refl, ◌∙◌, true, false, List, [], ◌∷◌, some, arith, Bytes, bytes_eq,
}
use my_project_imserver.Users.Types.{User}
use my_project_imserver.Users.Friends.{present}
use my_project_imserver.Server.{Session, SessionMap, map_find, map_set}
use my_project_imserver.Server.Laws.{IsSorted}
use my_project_imserver.Server.Update.{map_set-IsSorted, map_find-set_ne}
use my_project_imserver.Session.World.{World}

-- The connections that have a session, each with the user of its session.
abbrev pub whose : SessionMap → List (Bytes × User)
whose [] = []
whose ((k, s) ∷ m) = (k, s.user) ∷ whose m

pub whose-map_set :
    (k : Bytes) (s : Session) (m : SessionMap) → whose (map_set k s m) ≡ map_set k s.user (whose m)
unfolding map_set
whose-map_set k s [] = refl
whose-map_set k s ((j, t) ∷ m) = ground (arith, whose-map_set k s m)

pub whose-map_set_same :
    (k : Bytes) (s t : Session) (m : SessionMap)
    → map_find k m ≡ some s
    → t.user ≡ s.user
    → whose (map_set k t m) ≡ whose m
unfolding map_find map_set
whose-map_set_same k s t [] e h = refl
whose-map_set_same k s t ((j, x) ∷ m) e h = ground (arith, whose-map_set_same k s t m)

module _ {Db : Type 0} (this : Bytes) where
  -- All sessions but one are the same, the map stays in order, no connection has been closed and
  -- no user has been lost.
  pub record Bounded (w w' : World Db) : Type 0 where
    pub others :
        (k : Bytes) → bytes_eq this k ≡ false → map_find k w'.sessions ≡ map_find k w.sessions
    pub sorted : IsSorted w.sessions → IsSorted w'.sessions
    pub open_still : w'.closed ≡ w.closed
    pub grown :
        (id : ℕ)
        → present id w.manager.cached_users ≡ true
        → present id w'.manager.cached_users ≡ true

  pub Bounded-trans : (u v w : World Db) → Bounded u v → Bounded v w → Bounded u w
  Bounded-trans u v w p q = record {
    others = λ k h. q.others k h ∙ p.others k h;
    sorted = λ h. q.sorted (p.sorted h);
    open_still = q.open_still ∙ p.open_still;
    grown = λ id h. q.grown id (p.grown id h);
  }

  -- Beyond that, the session itself belongs to whom it belonged to.
  pub record Kept (w w' : World Db) : Type 0 where
    pub bounded : Bounded w w'
    pub owners : whose w'.sessions ≡ whose w.sessions

  pub Kept-trans : (u v w : World Db) → Kept u v → Kept v w → Kept u w
  Kept-trans u v w p q = record {
    bounded = Bounded-trans u v w p.bounded q.bounded;
    owners = q.owners ∙ p.owners;
  }

  -- A change of the session itself.
  pub set-Bounded :
      (s : Session) (w : World Db) → Bounded w (record w { sessions = map_set this s w.sessions })
  set-Bounded s w = record {
    others = λ k h. map_find-set_ne this k s w.sessions h;
    sorted = map_set-IsSorted this s w.sessions;
    open_still = refl;
    grown = λ id h. h;
  }

  pub set-Kept :
      (s t : Session) (w : World Db)
      → map_find this w.sessions ≡ some s
      → t.user ≡ s.user
      → Kept w (record w { sessions = map_set this t w.sessions })
  set-Kept s t w found e = record {
    bounded = set-Bounded t w;
    owners = whose-map_set_same this s t w.sessions found e;
  }
