-- ===== src/Session/Notices.antt =====
-- The notices of a change of status in EdoyumIMServer/ClientSession.cpp.
use my_project_imserver.Base.{
  ℕ, ◌≡◌, refl, ap, sym, ◌∙◌, List, [], ◌∷◌, ◌++◌, Option, none, some, append_assoc, append-nil,
  Bytes,
}
use my_project_imserver.Wire.Writer.{write_net}
use my_project_imserver.Frame.Send.{chat_send}
use my_project_imserver.Users.Types.{User}
use my_project_imserver.Server.{Session, SessionMap, map_find, get_session_by_id, user_id}
use my_project_imserver.Server.Laws.{IsSorted, get_session_by_id_sound}
use my_project_imserver.Session.Json.{JsonApi}
use my_project_imserver.Session.World.{
  World, M, ◌>>◌, return, session_of, reply, status_data, send_user_status_change_msg, tell_online,
  msg_type_userstatuschange, target_session, send,
}
use my_project_imserver.Session.Sending.{bind-some, next-some, session_of-found}

-- Bytes put on a connection.
abbrev pub sending : {Db : Type 0} → List (Bytes × Bytes) → World Db → World Db
sending items w = record w { sent = w.sent ++ items }

pub sending_then :
    {Db : Type 0} (m k : M Db (Unit {0})) (items rest : List (Bytes × Bytes)) (w : World Db)
    → m w ≡ some (tt, sending items w)
    → k (sending items w) ≡ some (tt, sending rest (sending items w))
    → (m >> k) w ≡ some (tt, sending (items ++ rest) w)
sending_then m k items rest w e f =
    next-some m k w (sending items w) e
    ∙ f
    ∙ ap (λ out. some (tt, record w { sent = out })) (append_assoc w.sent items rest)

module _ (json : JsonApi) where
  -- The notices to the users of a list who are online, each with its own session's number.
  abbrev pub notices : ℕ → ℕ → SessionMap → List User → List (Bytes × Bytes)
  notices userid type m [] = []
  notices userid type m (u ∷ us) = elim (get_session_by_id u.userid m) [
    | none ↦ notices userid type m us
    | some k ↦ elim (map_find k m) [
      | none ↦ notices userid type m us
      | some s ↦
          (
            k,
            (chat_send (
                write_net userid
                  (reply msg_type_userstatuschange s.seq (json.styled (status_data json type))))).0,
          )
          ∷ notices userid type m us
    ]
  ]

  -- In a map of sessions that is in order, the loop over friends sends one notice to the session
  -- of each friend who has one, with that session's number, in the order of the list; it does not
  -- fail and changes nothing else.
  pub tell_online_lem :
      {Db : Type 0} (us : List User) (userid type : ℕ) (w : World Db)
      → IsSorted w.sessions
      → tell_online json us userid type w ≡ some (tt, sending (notices userid type w.sessions us) w)
  unfolding tell_online target_session send_user_status_change_msg send
  tell_online_lem [] userid type w h = rw append-nil refl
  tell_online_lem {Db} (u ∷ us) userid type w h =
      by_lookup (tell_online_lem us userid type) (get_session_by_id u.userid w.sessions)
        (λ k e. get_session_by_id_sound u.userid w.sessions k h e)
    where
      later : List (Bytes × Bytes)
      later = notices userid type w.sessions us

      notice : Bytes → Session → Bytes × Bytes
      notice k s = (
        k,
        (chat_send (
            write_net userid
              (reply msg_type_userstatuschange s.seq (json.styled (status_data json type))))).0,
      )

      Again : Type 0
      Again =
          (v : World Db)
          → IsSorted v.sessions
          → tell_online json us userid type v
            ≡ some (tt, sending (notices userid type v.sessions us) v)

      one :
          Again
          → (k : Bytes) → (s : Session) → map_find k w.sessions ≡ some s
          → (send_user_status_change_msg json k userid type >> tell_online json us userid type) w
            ≡ some (tt, sending (notice k s ∷ later) w)
      one again k s e =
          sending_then (send_user_status_change_msg json k userid type)
            (tell_online json us userid type) (notice k s ∷ []) later w
            (bind-some (session_of k) _ s w w (session_of-found k s w e))
            (again (sending (notice k s ∷ []) w) h)

      by_lookup :
          Again
          → (found : Option Bytes)
          → ((k : Bytes)
              → found ≡ some k
              → (s : Session) × (map_find k w.sessions ≡ some s) × (user_id s ≡ u.userid))
          → ((elim found as (λ _. M Db (Unit {0})) [
            | none ↦ return tt
            | some k ↦ send_user_status_change_msg json k userid type
          ])
                >> tell_online json us userid type)
              w
            ≡ some (
              tt,
              sending
                  (elim found as (λ _. List (Bytes × Bytes)) [
                    | none ↦ later
                    | some k ↦ elim (map_find k w.sessions) as (λ _. List (Bytes × Bytes)) [
                      | none ↦ later
                      | some s ↦ notice k s ∷ later
                    ]
                  ])
                  w,
            )
      by_lookup again none sound = again w h
      by_lookup again (some k) sound =
          let (s, e, _) = sound k refl in
          one again k s e
          ∙ ap
              (λ o. some (
                tt,
                sending
                    (elim o as (λ _. List (Bytes × Bytes)) [
                      | none ↦ later
                      | some s ↦ notice k s ∷ later
                    ])
                    w,
              ))
              (sym e)
