-- ===== src/Session/Relations.antt =====
-- What the requests about friends and groups of EdoyumIMServer/ClientSession.cpp do from end to end.
pub mod Accept
pub mod Asking
pub mod Groups
use my_project_imserver.Base.{
  ℕ, ◌≡◌, ◌≢◌, refl, ap, sym, ◌∙◌, Bool, true, false, not, ◌&&◌, ◌||◌, List, [], ◌∷◌, ◌++◌, Option,
  none, some, if◌then◌else◌, ◌==◌, slt, arith, Bytes, codes, IsWord, Bool-cases, inl, inr,
}
use my_project_imserver.Frame.Send.{package_of, chat_send, chat_send-package}
use my_project_imserver.Wire.Strings.{IsText, length-string_body}
use my_project_imserver.Cache.{add_notify}
use my_project_imserver.Users.Types.{User, is_group}
use my_project_imserver.Users.Sql.{sql_make_friends}
use my_project_imserver.Users.Manager.{
  DbApi, UserManager, find_by_id, get_user_info_by_user_id, make_friend_relationship,
}
use my_project_imserver.Users.Growing.{make_friend_relationship-Growing}
use my_project_imserver.Users.Friends.{present, is_friend, is_pair, make_friend_relationship_lem}
use my_project_imserver.Server.{Session, map_find, get_session_by_id}
use my_project_imserver.Session.Json.{JsonApi, member_is, int_at, put_int}
use my_project_imserver.Session.World.{
  World, M, ◌>>=◌, ◌>>◌, return, lift, session_of, target_session, run_manager, of_manager, reply,
  send_last, change_cache, msg_type_operatefriend, send,
}
use my_project_imserver.Session.Account.{answer}
use my_project_imserver.Session.Friend.{operate_data, tell_other, answer_request, operate_friend}
use my_project_imserver.Session.Sending.{
  go_on, on_some, bind-some, next-some, session_of-found, reply_body, reply-Holds,
}
use my_project_imserver.Session.Notices.{sending}
use my_project_imserver.Session.Login.{answer_lem}

module _ (json : JsonApi) where
  open json use {Value}

  -- The object with these members, which are set from the first to the last.
  abbrev with_members : Value → List (Bytes × Value) → Value
  with_members root [] = root
  with_members root ((key, v) ∷ fields) = with_members (json.set key v root) fields

  -- The message that a user is connected with a group from now on.
  abbrev pub connected : ℕ → Bytes → Value
  connected id name = with_members json.null (
      (codes "userid", json.of_int id)
      ∷ (codes "type", json.of_int 3)
      ∷ (codes "username", json.of_string name)
      ∷ [])

  -- The message that a user asks for a friendship, and the one that a user accepts it.
  abbrev pub asked : ℕ → Bytes → Value
  asked id name = with_members json.null (
      (codes "userid", json.of_int id)
      ∷ (codes "type", json.of_int 2)
      ∷ (codes "username", json.of_string name)
      ∷ [])

  abbrev pub acceptance : ℕ → Bytes → Value
  acceptance id name = with_members json.null (
      (codes "userid", json.of_int id)
      ∷ (codes "type", json.of_int 3)
      ∷ (codes "username", json.of_string name)
      ∷ (codes "accept", json.of_int 1)
      ∷ [])

  -- The package with a message about friends, on a connection.
  abbrev pub about_friends : Bytes → ℕ → Value → Bytes × Bytes
  about_friends k seq root =
      (k, package_of 4 (reply_body msg_type_operatefriend seq (json.styled root)))

  -- The world where the other user has been told: on the connection of a session, or for later.
  abbrev pub told : {Db : Type 0} → ℕ → Value → ℕ → World Db → World Db
  told target root seq w = elim (get_session_by_id target w.sessions) [
    | none ↦ record w { cache = add_notify target (json.styled root) w.cache }
    | some k ↦ sending (about_friends k seq root ∷ []) w
  ]

pub chat_send-operatefriend :
    (seq : ℕ) (text : Bytes)
    → IsWord seq
    → IsText text
    → (chat_send (reply msg_type_operatefriend seq text)).0
      ≡ package_of 4 (reply_body msg_type_operatefriend seq text)
chat_send-operatefriend seq text hs ht =
    chat_send-package (reply msg_type_operatefriend seq text)
      (reply_body msg_type_operatefriend seq text)
      (reply-Holds msg_type_operatefriend seq text (omega arith) hs ht)
      (omega (arith, length-string_body text ht))

module _ (database : DbApi) (json : JsonApi) (this : Bytes) where
  open database use {Db}
  open json use {Value}

  pub answer-about_friends :
      (root : Value) (s : Session) (w : World Db)
      → IsWord s.seq
      → IsText (json.styled root)
      → map_find this w.sessions ≡ some s
      → answer database json this msg_type_operatefriend root w
        ≡ some (tt, sending (about_friends json this s.seq root ∷ []) w)
  answer-about_friends root s w hs ht found =
      answer_lem database json this msg_type_operatefriend root s w found
      ∙ ap (λ (b : Bytes). some (tt, sending ((this, b) ∷ []) w))
          (chat_send-operatefriend s.seq (json.styled root) hs ht)

  pub tell_other_lem :
      (target : ℕ) (root : Value) (s : Session) (w : World Db)
      → IsWord s.seq
      → IsText (json.styled root)
      → map_find this w.sessions ≡ some s
      → tell_other database json this target root w ≡ some (tt, told json target root s.seq w)
  unfolding tell_other target_session send
  tell_other_lem target root s w hs ht found =
      bind-some (session_of this) _ s w w (session_of-found this s w found)
      ∙ by_session (get_session_by_id target w.sessions)
    where
      by_session :
          (o : Option Bytes)
          → (elim o as (λ _. M Db (Unit {0})) [
            | none ↦ change_cache (add_notify target (json.styled root))
            | some k ↦ send_last k (reply msg_type_operatefriend s.seq (json.styled root))
          ])
              w
            ≡ some (
              tt,
              elim o as (λ _. World Db) [
                | none ↦ record w { cache = add_notify target (json.styled root) w.cache }
                | some k ↦ sending (about_friends json k s.seq root ∷ []) w
              ],
            )
      by_session none = refl
      by_session (some k) =
          ap (λ (b : Bytes). some (tt, sending ((k, b) ∷ []) w))
            (chat_send-operatefriend s.seq (json.styled root) hs ht)

  -- A request for a friendship with another user, who is no group.
  pub operate_friend_request :
      (root : Value) (target : ℕ) (s : Session) (w : World Db)
      → int_at json "type" root ≡ some 1
      → int_at json "userid" root ≡ some target
      → is_group target ≡ false
      → IsWord s.seq
      → IsText (json.styled (asked json s.user.userid s.user.username))
      → map_find this w.sessions ≡ some s
      → operate_friend database json this root w
        ≡ some (tt, told json target (asked json s.user.userid s.user.username) s.seq w)
  unfolding operate_friend operate_data
  operate_friend_request root target s w ht hu single hs text found =
      rw (ht, hu)
        (bind-some (session_of this) _ s w w (session_of-found this s w found)
          ∙ rw single (tell_other_lem target _ s w hs text found))
