-- ===== src/Session/Isolation/Requests.antt =====
-- A request of EdoyumIMServer/ClientSession.cpp as a whole leaves the sessions of other connections alone,
-- and its own belongs to whom it belonged to unless the request is a login.
use my_project_imserver.Base.{
  ℕ, ◌≡◌, ◌⊎◌, inl, inr, refl, ap, ◌∙◌, Bool, true, false, some, Bytes, bytes_eq,
}
use my_project_imserver.Wire.Reader.{
  Reader, ReadResult, refused, fault, got, new_reader, read_data, read_string,
}
use my_project_imserver.Users.Manager.{DbApi}
use my_project_imserver.Server.{map_find, map_set}
use my_project_imserver.Server.Laws.{IsSorted}
use my_project_imserver.Session.Json.{JsonApi}
use my_project_imserver.Session.World.{
  World, M, ◌>>=◌, ◌>>◌, return, throw, session_of, put_session, msg_type_login,
}
use my_project_imserver.Session.Process.{dispatch, process_text, process_seq, process}
use my_project_imserver.Session.Keeping.{Kept-trans, whose, Bounded, Bounded-trans, Kept, set-Kept}
use my_project_imserver.Session.Sending.{after_next, after_session_of}
use my_project_imserver.Session.Isolation.{return-Isolated}
use my_project_imserver.Session.Isolation.Admission.{Granted-before, Granted}
use my_project_imserver.Session.Isolation.Dispatch.{dispatch-Allowed}

-- The request is a login with the text.
pub record LoginRequest (msgbuff text : Bytes) : Type 0 where
  pub seq : ℕ
  pub behind_command : Reader
  pub behind_seq : Reader
  pub behind_text : Reader
  pub command_read : read_data 4 (new_reader msgbuff) ≡ got msg_type_login behind_command
  pub seq_read : read_data 4 behind_command ≡ got seq behind_seq
  pub text_read : read_string behind_seq ≡ got text behind_text

module _ (database : DbApi) (json : JsonApi) (memory : ℕ) (this : Bytes) where
  open database use {Db}

  -- What a request may do to the sessions.
  abbrev pub Effect : Bytes → World Db → World Db → Type 0
  Effect msgbuff w w' =
      Bounded this w w'
      × ((whose w'.sessions ≡ whose w.sessions)
          ⊎ ((text : Bytes) × LoginRequest msgbuff text × Granted database json this text w w'))

  Kept-Effect : (msgbuff : Bytes) (w w' : World Db) → Kept this w w' → Effect msgbuff w w'
  Kept-Effect msgbuff w w' kept = (kept.bounded, inl kept.owners)

  process_text-Effect :
      (msgbuff : Bytes) (cmd seq : ℕ) (r1 r2 : Reader) (w1 w2 w' : World Db) (ok : Bool)
      → read_data 4 (new_reader msgbuff) ≡ got cmd r1
      → read_data 4 r1 ≡ got seq r2
      → Kept this w1 w2
      → w2.manager ≡ w1.manager
      → process_text database json memory this cmd r2 w2 ≡ some (ok, w')
      → Effect msgbuff w1 w'
  unfolding process_text
  process_text-Effect msgbuff cmd seq r1 r2 w1 w2 w' ok c1 c2 kept same =
      by_read (read_string r2) refl
    where
      join :
          (text : Bytes) (r3 : Reader)
          → read_string r2 ≡ got text r3
          → Bounded this w2 w'
            × ((whose w'.sessions ≡ whose w2.sessions)
                ⊎ ((cmd ≡ msg_type_login) × Granted database json this text w2 w'))
          → Effect msgbuff w1 w'
      join text r3 c3 (bounded, inl own) =
          (Bounded-trans this w1 w2 w' kept.bounded bounded, inl (own ∙ kept.owners))
      join text r3 c3 (bounded, inr (login, granted)) = (
        Bounded-trans this w1 w2 w' kept.bounded bounded,
        inr (
          text,
          record {
            seq = seq;
            behind_command = r1;
            behind_seq = r2;
            behind_text = r3;
            command_read = c1 ∙ ap (λ n. got n r1) login;
            seq_read = c2;
            text_read = c3;
          },
          Granted-before database json this text w1 w2 w' same kept.owners granted,
        ),
      )

      by_read :
          (o : ReadResult Bytes)
          → read_string r2 ≡ o
          → (elim o as (λ _. M Db Bool) [
            | refused ↦ return false
            | fault ↦ throw
            | got text r' ↦ do dispatch database json memory this cmd text r'; return true
          ])
              w2
            ≡ some (ok, w')
          → Effect msgbuff w1 w'
      by_read refused c3 e =
          Kept-Effect msgbuff w1 w'
            (Kept-trans this w1 w2 w' kept ((return-Isolated this false).keeps w2 w' ok e))
      by_read fault c3 e = cc
      by_read (got text r3) c3 e =
          after_next (dispatch database json memory this cmd text r3) true w2 w' ok e (λ e1.
            join text r3 c3
              ((dispatch-Allowed database json memory this cmd text r3).result w2 w' e1))

  process_seq-Effect :
      (msgbuff : Bytes) (cmd : ℕ) (r1 : Reader) (w w' : World Db) (ok : Bool)
      → read_data 4 (new_reader msgbuff) ≡ got cmd r1
      → process_seq database json memory this cmd r1 w ≡ some (ok, w')
      → Effect msgbuff w w'
  unfolding process_seq put_session
  process_seq-Effect msgbuff cmd r1 w w' ok c1 = by_read (read_data 4 r1) refl
    where
      by_read :
          (o : ReadResult ℕ)
          → read_data 4 r1 ≡ o
          → (elim o as (λ _. M Db Bool) [
            | refused ↦ return false
            | fault ↦ throw
            | got seq r' ↦ do
              s ← session_of this
              put_session this (record s { seq = seq })
              process_text database json memory this cmd r'
          ])
              w
            ≡ some (ok, w')
          → Effect msgbuff w w'
      by_read refused c2 e = Kept-Effect msgbuff w w' ((return-Isolated this false).keeps w w' ok e)
      by_read fault c2 e = cc
      by_read (got seq r2) c2 e = after_session_of this _ w w' ok e (λ s found rest.
          let w2 : World Db = record w {
            sessions = map_set this (record s { seq = seq }) w.sessions;
          } in
          process_text-Effect msgbuff cmd seq r1 r2 w w2 w' ok c1 c2
            (set-Kept this s (record s { seq = seq }) w found refl) refl rest)

  pub process-Effect :
      (msgbuff : Bytes) (w w' : World Db) (ok : Bool)
      → process database json memory this msgbuff w ≡ some (ok, w')
      → Effect msgbuff w w'
  unfolding process
  process-Effect msgbuff w w' ok = by_read (read_data 4 (new_reader msgbuff)) refl
    where
      by_read :
          (o : ReadResult ℕ)
          → read_data 4 (new_reader msgbuff) ≡ o
          → (elim o as (λ _. M Db Bool) [
            | refused ↦ return false
            | fault ↦ throw
            | got cmd r ↦ process_seq database json memory this cmd r
          ])
              w
            ≡ some (ok, w')
          → Effect msgbuff w w'
      by_read refused c1 e = Kept-Effect msgbuff w w' ((return-Isolated this false).keeps w w' ok e)
      by_read fault c1 e = cc
      by_read (got cmd r1) c1 e = process_seq-Effect msgbuff cmd r1 w w' ok c1 e

  -- Whatever bytes a request is made of, if processing it ends without an exception, then the
  -- session of every other connection is as it was, a map of sessions in order is in order still,
  -- and no connection has been closed by it.
  pub process_others :
      (msgbuff k : Bytes) (w w' : World Db) (ok : Bool)
      → bytes_eq this k ≡ false
      → IsSorted w.sessions
      → process database json memory this msgbuff w ≡ some (ok, w')
      → (map_find k w'.sessions ≡ map_find k w.sessions)
        × IsSorted w'.sessions
        × (w'.closed ≡ w.closed)
  process_others msgbuff k w w' ok apart sorted e =
      let bounded = (process-Effect msgbuff w w' ok e).0 in
      (bounded.others k apart, bounded.sorted sorted, bounded.open_still)

  -- Whatever bytes a request is made of, if processing it ends without an exception, then either
  -- every session belongs to whom it belonged to, or the request is a login whose text is JSON
  -- with the name and the password of a cached user, and it is only the session of its own
  -- connection that changes its user: it gets the id of that user, and the name and the password
  -- of the request.
  pub process_login :
      (msgbuff : Bytes) (w w' : World Db) (ok : Bool)
      → process database json memory this msgbuff w ≡ some (ok, w')
      → (whose w'.sessions ≡ whose w.sessions)
        ⊎ ((text : Bytes) × LoginRequest msgbuff text × Granted database json this text w w')
  process_login msgbuff w w' ok e = (process-Effect msgbuff w w' ok e).1
