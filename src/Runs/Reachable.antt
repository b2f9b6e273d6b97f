-- ===== src/Runs/Reachable.antt =====
-- What holds of a server behind any callbacks, from what holds of each.
use my_project_imserver.Base.{
  ℕ, ◌≡◌, refl, ap, subst, sym, ◌∙◌, Bool, true, false, if◌then◌else◌, List, [], ◌∷◌, arith, Bytes,
  bytes_eq,
}
use my_project_imserver.Frame.Receive.{done}
use my_project_imserver.Server.{map_find, map_insert, map_erase}
use my_project_imserver.Server.Laws.{
  IsSorted, has, map_insert-IsSorted, map_erase-IsSorted, map_find-insert, map_find-erase,
}
use my_project_imserver.Runs.{
  ServerApi, Event, conn_of, Step, opening, closing, reading, Run, start, later, is_open, is_idle,
}

-- A map of sessions that may have got or lost the session of a connection.
pub record Changed {A : Type 0} (conn : Bytes) (up : Bool) (m m' : List (Bytes × A)) : Type 0 where
  pub sorted : IsSorted m'
  pub one : (k : Bytes) → has k m' ≡ (if bytes_eq conn k then up else has k m)
  pub others : (k : Bytes) → bytes_eq conn k ≡ false → map_find k m' ≡ map_find k m

pub insert-Changed :
    {A : Type 0} (conn : Bytes) (a : A) (m : List (Bytes × A))
    → IsSorted m
    → Changed conn true m (map_insert conn a m)
insert-Changed conn a m h = record {
  sorted = map_insert-IsSorted conn a m h;
  one = λ k. ground (arith, map_find-insert k conn a m h);
  others = λ k ne. map_find-insert k conn a m h ∙ rw ne refl;
}

pub erase-Changed :
    {A : Type 0} (conn : Bytes) (m : List (Bytes × A))
    → IsSorted m
    → Changed conn false m (map_erase conn m)
erase-Changed conn m h = record {
  sorted = map_erase-IsSorted conn m h;
  one = λ k. ground (arith, map_find-erase k conn m h);
  others = λ k ne. map_find-erase k conn m h ∙ rw ne refl;
}

-- What the callbacks of a server promise. `Rest` is what holds of it beyond its map of sessions.
pub record ServerLaws (server : ServerApi) (Rest : server.State → Type 0) : Type 0 where
  pub change-Changed :
      (conn : Bytes) (up : Bool) (memory : ℕ) (v : server.State)
      → IsSorted (server.sessions v)
      → Changed conn up (server.sessions v) (server.sessions (server.change conn up memory v))
  pub change_rest :
      (conn : Bytes) (up : Bool) (memory : ℕ) (v : server.State)
      → Rest v
      → Rest (server.change conn up memory v)
  pub read_sorted :
      (conn : Bytes) (memory : ℕ) (b b' : server.Buf) (v v' : server.State)
      → server.read conn memory b v ≡ done b' v'
      → IsSorted (server.sessions v)
      → IsSorted (server.sessions v')
  pub read_same :
      (conn : Bytes) (memory : ℕ) (b b' : server.Buf) (v v' : server.State) (k : Bytes)
      → server.read conn memory b v ≡ done b' v'
      → has k (server.sessions v') ≡ has k (server.sessions v)
  pub read_others :
      (conn : Bytes) (memory : ℕ) (b b' : server.Buf) (v v' : server.State) (k : Bytes)
      → server.read conn memory b v ≡ done b' v'
      → bytes_eq conn k ≡ false
      → map_find k (server.sessions v') ≡ map_find k (server.sessions v)
  pub read_rest :
      (conn : Bytes) (memory : ℕ) (b b' : server.Buf) (v v' : server.State)
      → server.read conn memory b v ≡ done b' v'
      → Rest v
      → Rest v'

module _ (server : ServerApi) (Rest : server.State → Type 0) (laws : ServerLaws server Rest) where
  open server use {State, sessions}

  -- The map of sessions is in order, a connection has a session exactly if it is open, and the
  -- rest holds.
  pub record IsSound (es : List Event) (v : State) : Type 0 where
    pub sorted : IsSorted (sessions v)
    pub opened : (k : Bytes) → has k (sessions v) ≡ is_open es k
    pub rest : Rest v

  Step-IsSound :
      {es : List Event} {e : Event} {u v : State}
      → Step server e u v
      → IsSound es u
      → IsSound (e ∷ es) v
  Step-IsSound (opening conn memory v) h =
      let c = laws.change-Changed conn true memory v h.sorted in
      record {
        sorted = c.sorted;
        opened = λ k. c.one k ∙ ground (arith, h.opened k);
        rest = laws.change_rest conn true memory v h.rest;
      }
  Step-IsSound (closing conn memory v) h =
      let c = laws.change-Changed conn false memory v h.sorted in
      record {
        sorted = c.sorted;
        opened = λ k. c.one k ∙ ground (arith, h.opened k);
        rest = laws.change_rest conn false memory v h.rest;
      }
  Step-IsSound (reading conn memory b b' v v' e) h = record {
    sorted = laws.read_sorted conn memory b b' v v' e h.sorted;
    opened = λ k. laws.read_same conn memory b b' v v' k e ∙ h.opened k;
    rest = laws.read_rest conn memory b b' v v' e h.rest;
  }

  pub Run-IsSound :
      {v : State} {es : List Event} {w : State}
      → sessions v ≡ []
      → Rest v
      → Run server v es w
      → IsSound es w
  unfolding map_find
  Run-IsSound {v} h r start = record {
    sorted = subst IsSorted (sym h) tt;
    opened = λ k. ap (has k) h;
    rest = r;
  }
  Run-IsSound h r (later run st) = Step-IsSound st (Run-IsSound h r run)

  Step_others :
      {e : Event} {u v : State} (k : Bytes)
      → Step server e u v
      → bytes_eq (conn_of e) k ≡ false
      → IsSorted (sessions u)
      → IsSorted (sessions v) × (map_find k (sessions v) ≡ map_find k (sessions u))
  Step_others k (opening conn memory v) idle h =
      let c = laws.change-Changed conn true memory v h in (c.sorted, c.others k idle)
  Step_others k (closing conn memory v) idle h =
      let c = laws.change-Changed conn false memory v h in (c.sorted, c.others k idle)
  Step_others k (reading conn memory b b' v v' e) idle h =
      (laws.read_sorted conn memory b b' v v' e h, laws.read_others conn memory b b' v v' k e idle)

  pub Run-others :
      {v : State} {es : List Event} {w : State} (k : Bytes)
      → Run server v es w
      → is_idle es k ≡ true
      → IsSorted (sessions v)
      → IsSorted (sessions w) × (map_find k (sessions w) ≡ map_find k (sessions v))
  Run-others k start idle h = (h, refl)
  Run-others k (later {es} {e} run st) idle h =
      let (s, f) = Run-others k run (ground arith) h in
      let (s', g) = Step_others k st (ground arith) s in (s', g ∙ f)
