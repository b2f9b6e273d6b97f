-- ===== src/Session/Runs/Progress.antt =====
-- What a call of OnRead of EdoyumIMServer/ClientSession.cpp does to the sessions, whatever it reads.
use my_project_imserver.Base.{
  ℕ, ◌≡◌, inl, inr, refl, ap, subst, sym, ◌∙◌, true, false, All, Bytes, bytes_eq,
}
use my_project_imserver.Frame.Buffer.{BufferApi}
use my_project_imserver.Frame.Receive.{done, chat_size}
use my_project_imserver.Frame.Keeping.{receive_keeps}
use my_project_imserver.Users.Types.{User}
use my_project_imserver.Users.Manager.{DbApi, get_user_info_by_username}
use my_project_imserver.Users.Growing.{present-find_by_name}
use my_project_imserver.Users.Friends.{present}
use my_project_imserver.Server.{map_find, map_set}
use my_project_imserver.Server.Update.{has-map_set}
use my_project_imserver.Server.Laws.{has, IsSorted}
use my_project_imserver.Session.Json.{JsonApi}
use my_project_imserver.Session.World.{World}
use my_project_imserver.Session.Process.{process, force_close, on_read}
use my_project_imserver.Session.Keeping.{whose, Bounded}
use my_project_imserver.Session.Isolation.Requests.{Effect, process-Effect}
use my_project_imserver.Session.Runs.Owners.{Owned, IsKnown, Owned-grown, All-map_set, has-whose}

module _ {Db : Type 0} (this : Bytes) where
  -- What a call of OnRead may do to the sessions: those of other connections stay, and none comes
  -- or goes.
  pub record Progress (w w' : World Db) : Type 0 where
    pub others :
        (k : Bytes) → bytes_eq this k ≡ false → map_find k w'.sessions ≡ map_find k w.sessions
    pub sorted : IsSorted w.sessions → IsSorted w'.sessions
    pub same : (k : Bytes) → has k w'.sessions ≡ has k w.sessions
    pub owned : Owned w.manager w.sessions → Owned w'.manager w'.sessions

  Progress-refl : (w : World Db) → Progress w w
  Progress-refl w = record {
    others = λ k h. refl;
    sorted = λ h. h;
    same = λ k. refl;
    owned = λ h. h;
  }

  Progress-trans : (u v w : World Db) → Progress u v → Progress v w → Progress u w
  Progress-trans u v w p q = record {
    others = λ k h. q.others k h ∙ p.others k h;
    sorted = λ h. q.sorted (p.sorted h);
    same = λ k. q.same k ∙ p.same k;
    owned = λ h. q.owned (p.owned h);
  }

  owners-Progress :
      (w w' : World Db) → Bounded this w w' → whose w'.sessions ≡ whose w.sessions → Progress w w'
  owners-Progress w w' b own = record {
    others = b.others;
    sorted = b.sorted;
    same = λ k. sym (has-whose k w'.sessions) ∙ ap (has k) own ∙ has-whose k w.sessions;
    owned = λ h.
        subst (All (IsKnown w'.manager)) (sym own)
          (Owned-grown w.manager w'.manager (whose w.sessions) b.grown h);
  }

  login-Progress :
      (user : User) (w w' : World Db)
      → Bounded this w w'
      → present user.userid w.manager.cached_users ≡ true
      → whose w'.sessions ≡ map_set this user (whose w.sessions)
      → Progress w w'
  login-Progress user w w' b cached taken = record {
    others = b.others;
    sorted = b.sorted;
    same = λ k.
        sym (has-whose k w'.sessions)
        ∙ ap (has k) taken
        ∙ has-map_set k this user (whose w.sessions)
        ∙ has-whose k w.sessions;
    owned = λ h. subst (All (IsKnown w'.manager)) (sym taken) (
        All-map_set (IsKnown w'.manager) this user (whose w.sessions)
          (λ j. inr (b.grown user.userid cached))
          (Owned-grown w.manager w'.manager (whose w.sessions) b.grown h));
  }

module _ (database : DbApi) (json : JsonApi) where
  open database use {Db}

  Effect-Progress :
      (memory : ℕ) (this msg : Bytes) (w w' : World Db)
      → Effect database json memory this msg w w'
      → Progress this w w'
  unfolding get_user_info_by_username
  Effect-Progress memory this msg w w' (b, inl own) = owners-Progress this w w' b own
  Effect-Progress memory this msg w w' (b, inr (text, request, g)) =
      login-Progress this g.now.user w w' b
        (ap (λ id. present id w.manager.cached_users) g.now.id
          ∙ present-find_by_name g.username w.manager.cached_users g.account g.listed)
        g.now.taken

  module _ (api : BufferApi) where
    open api use {Buf}

    pub on_read-Progress :
        (this : Bytes) (memory : ℕ) (b b' : Buf) (w w' : World Db)
        → on_read database json memory this api b w ≡ done b' w'
        → Progress this w w'
    unfolding on_read force_close
    on_read-Progress this memory b b' w w' e =
        receive_keeps api 4 chat_size (process database json memory this)
          (force_close database json memory this) (Progress this) (Progress-refl this)
          (Progress-trans this)
          (λ msg s s' ok h.
            Effect-Progress memory this msg s s'
              (process-Effect database json memory this msg s s' ok h))
          (λ s. record { others = λ k h. refl; sorted = λ h. h; same = λ k. refl; owned = λ h. h })
          b b' w w' e
