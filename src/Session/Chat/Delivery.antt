-- ===== src/Session/Chat/Delivery.antt =====
-- What becomes of a chat message that OnChatResponse of EdoyumIMServer/ClientSession.cpp delivers.
use my_project_imserver.Base.{
  ℕ, ◌+◌, ◌≤◌, ◌≡◌, refl, ap, ◌∙◌, List, [], ◌∷◌, ◌++◌, Option, none, some, arith, append_assoc,
  length, length-append, Bytes, IsWord, be_word,
}
use my_project_imserver.Wire.Writer.{Writer, Holds, write_net-Holds, to_string}
use my_project_imserver.Frame.Send.{
  package_of, header_of, length-header_of, chat_send, chat_send-header,
}
use my_project_imserver.Cache.{MsgCache, add_chat}
use my_project_imserver.Users.Types.{User}
use my_project_imserver.Server.{SessionMap, get_session_by_id}
use my_project_imserver.Session.World.{
  World, M, ◌>>◌, return, change_cache, target_session, send, msg_type_chat,
}
use my_project_imserver.Session.Chat.{chat_writer, deliver_to, deliver_group}
use my_project_imserver.Wire.Strings.{IsText, length-string_body}
use my_project_imserver.Session.Sending.{reply_body, reply-Holds, send_lem, bind-some}

-- A chat message as it is meant to arrive.
abbrev pub chat_body : ℕ → Bytes → ℕ → ℕ → Bytes
chat_body seq text sender target =
    (reply_body msg_type_chat seq text ++ be_word sender) ++ be_word target

pub length-chat_body :
    (seq : ℕ) (text : Bytes) (sender target : ℕ)
    → IsText text
    → length (chat_body seq text sender target) ≤ length text + 21
length-chat_body seq text sender target h = omega (
  arith,
  length-append (reply_body msg_type_chat seq text ++ be_word sender) (be_word target),
  length-append (reply_body msg_type_chat seq text) (be_word sender),
  length-string_body text h,
)

pub chat_writer-Holds :
    (seq : ℕ) (text : Bytes) (sender target : ℕ)
    → IsWord seq
    → IsText text
    → IsWord sender
    → IsWord target
    → Holds (chat_writer seq text sender target) (chat_body seq text sender target)
unfolding chat_writer
chat_writer-Holds seq text sender target hs h hu ht =
    let size = length-append (reply_body msg_type_chat seq text) (be_word sender) in
    write_net-Holds target
      (write_net-Holds sender (reply-Holds msg_type_chat seq text (omega arith) hs h) hu
        (omega (arith, length-string_body text h)))
      ht (omega (arith, size, length-string_body text h))

-- The receiver's session gets the message, and where there is none it is kept for the receiver.
abbrev pub delivered : {Db : Type 0} → ℕ → Bytes → World Db → World Db
delivered userid body w = elim (get_session_by_id userid w.sessions) [
  | none ↦ record w { cache = add_chat userid body w.cache }
  | some k ↦ record w { sent = w.sent ++ (k, package_of 4 body) ∷ [] }
]

-- What the writer holds afterwards.
abbrev pub left : {Db : Type 0} → ℕ → Bytes → World Db → Bytes
left userid body w = elim (get_session_by_id userid w.sessions) [
  | none ↦ body
  | some k ↦ header_of body
]

pub deliver_to_lem :
    {Db : Type 0} (userid : ℕ) (writer : Writer) (body : Bytes) (w : World Db)
    → Holds writer body
    → IsWord (length body)
    → (writer' : Writer) × (deliver_to userid writer w ≡ some (writer', delivered userid body w))
      × Holds writer' (left userid body w)
unfolding deliver_to target_session to_string
deliver_to_lem {Db} userid writer body w h fits = by_lookup (get_session_by_id userid w.sessions)
  where
    by_lookup :
        (found : Option Bytes)
        → (writer' : Writer) × ((elim found as (λ _. M Db Writer) [
          | none ↦ change_cache (add_chat userid writer.buffer) >> return writer
          | some k ↦ send k writer
        ])
              w
            ≡ some (
              writer',
              elim found as (λ _. World Db) [
                | none ↦ record w { cache = add_chat userid body w.cache }
                | some k ↦ record w { sent = w.sent ++ (k, package_of 4 body) ∷ [] }
              ],
            ))
          × Holds writer' (elim found as (λ _. Bytes) [ none ↦ body | some k ↦ header_of body ])
    by_lookup none = (
      writer,
      ap (λ text. some (writer, record w { cache = add_chat userid text w.cache })) h.content,
      h,
    )
    by_lookup (some k) =
        ((chat_send writer).1, send_lem k writer body w h fits, chat_send-header writer body h fits)

-- The loop over a group's members, as it turns out.
abbrev pub delivered_all : {Db : Type 0} → List User → Bytes → World Db → World Db
delivered_all [] body w = w
delivered_all (u ∷ us) body w = delivered_all us (left u.userid body w) (delivered u.userid body w)

pub left-IsWord :
    {Db : Type 0} (userid : ℕ) (body : Bytes) (w : World Db)
    → IsWord (length body)
    → IsWord (length (left userid body w))
left-IsWord userid body w h = by_lookup (get_session_by_id userid w.sessions)
  where
    by_lookup :
        (found : Option Bytes)
        → IsWord (length (elim found as (λ _. Bytes) [ none ↦ body | some k ↦ header_of body ]))
    by_lookup none = h
    by_lookup (some k) = omega (arith, length-header_of body)

-- The loop over the members of a group ends, and does for each member in turn what delivering to
-- one does with what the writer then holds: the message, until a first member is found online,
-- and from then on the header of the package that was sent before.
pub deliver_group_lem :
    {Db : Type 0} (us : List User) (writer : Writer) (body : Bytes) (w : World Db)
    → Holds writer body
    → IsWord (length body)
    → deliver_group us writer w ≡ some (tt, delivered_all us body w)
unfolding deliver_group
deliver_group_lem [] writer body w h fits = refl
deliver_group_lem (u ∷ us) writer body w h fits =
    let (writer', e, h') = deliver_to_lem u.userid writer body w h fits in
    bind-some (deliver_to u.userid writer) _ writer' w (delivered u.userid body w) e
    ∙ deliver_group_lem us writer' (left u.userid body w) (delivered u.userid body w) h'
        (left-IsWord u.userid body w fits)

-- Nobody of the list is online.
abbrev pub Offline : SessionMap → List User → Type 0
Offline m [] = Unit {0}
Offline m (u ∷ us) = (get_session_by_id u.userid m ≡ none) × Offline m us

abbrev pub kept_for : List User → Bytes → MsgCache → MsgCache
kept_for [] body c = c
kept_for (u ∷ us) body c = kept_for us body (add_chat u.userid body c)

Offline-delivered_all :
    {Db : Type 0} (us : List User) (body : Bytes) (w : World Db)
    → Offline w.sessions us
    → delivered_all us body w ≡ record w { cache = kept_for us body w.cache }
Offline-delivered_all [] body w off = refl
Offline-delivered_all (u ∷ us) body w (o, off) =
    rw (o, delivered_all, delivered, left)
      (Offline-delivered_all us body (record w { cache = add_chat u.userid body w.cache }) off)

-- A group message whose receivers all are offline is cached for each of them, in order and whole,
-- and nothing is sent.
pub deliver_group-Offline :
    {Db : Type 0} (us : List User) (writer : Writer) (body : Bytes) (w : World Db)
    → Holds writer body
    → IsWord (length body)
    → Offline w.sessions us
    → deliver_group us writer w ≡ some (tt, record w { cache = kept_for us body w.cache })
deliver_group-Offline us writer body w h fits off =
    deliver_group_lem us writer body w h fits
    ∙ ap (λ v. some (tt, v)) (Offline-delivered_all us body w off)

handed : {Db : Type 0} → Bytes → Bytes → World Db → World Db
handed k body w = record w { sent = w.sent ++ (k, package_of 4 body) ∷ [] }

delivered-online :
    {Db : Type 0} (userid : ℕ) (k body : Bytes) (w : World Db)
    → get_session_by_id userid w.sessions ≡ some k
    → (delivered userid body w ≡ handed k body w) × (left userid body w ≡ header_of body)
unfolding handed
delivered-online userid k body w e = (rw (e, delivered) refl, rw (e, left) refl)

-- Of two members who are online, the first is sent the message of a group, and the second a
-- package that holds only the ten bytes of the first one's header.
pub deliver_group_online :
    {Db : Type 0} (u v : User) (j k : Bytes) (writer : Writer) (body : Bytes) (w : World Db)
    → Holds writer body
    → IsWord (length body)
    → get_session_by_id u.userid w.sessions ≡ some j
    → get_session_by_id v.userid w.sessions ≡ some k
    → deliver_group (u ∷ v ∷ []) writer w
      ≡ some (
        tt,
        record w {
          sent = w.sent ++ (j, package_of 4 body) ∷ (k, package_of 4 (header_of body)) ∷ [];
        },
      )
unfolding handed
deliver_group_online {Db} u v j k writer body w h fits e f =
    deliver_group_lem (u ∷ v ∷ []) writer body w h fits
    ∙ ap (λ x. some (tt, x))
        (ap (λ b. delivered v.userid b (delivered u.userid body w)) first.1
          ∙ ap (delivered v.userid (header_of body)) first.0
          ∙ (delivered-online v.userid k (header_of body) (handed j body w) f).0)
    ∙ rw (append_assoc w.sent) refl
  where
    first : (delivered u.userid body w ≡ handed j body w) × (left u.userid body w ≡ header_of body)
    first = delivered-online u.userid j body w e

pub delivered-offline :
    {Db : Type 0} (userid : ℕ) (body : Bytes) (w : World Db)
    → get_session_by_id userid w.sessions ≡ none
    → delivered userid body w ≡ record w { cache = add_chat userid body w.cache }
delivered-offline userid body w e = rw (e, delivered) refl
