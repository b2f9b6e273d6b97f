-- ===== src/Cache.antt =====
-- EdoyumIMServer/MsgCacheManager.h and MsgCacheManager.cpp: the notifications and the chat messages
-- that wait for users who are not online. The mutexes are left out: one event loop calls it.
pub mod Laws
use my_project_imserver.Base.{ℕ, ◌≡◌, Bool, List, [], ◌∷◌, ◌++◌, ◌==◌, if◌then◌else◌, Bytes}

-- NotifyMsgCache and ChatMsgCache, which differ in the name of the text.
pub record Cached : Type 0 where
  pub userid : ℕ
  pub text : Bytes

pub record MsgCache : Type 0 where
  pub notify_msgs : List Cached
  pub chat_msgs : List Cached

unfoldable pub add_notify : ℕ → Bytes → MsgCache → MsgCache
add_notify userid text c = record c {
  notify_msgs = c.notify_msgs ++ record { userid = userid; text = text } ∷ [];
}

unfoldable pub add_chat : ℕ → Bytes → MsgCache → MsgCache
add_chat userid text c = record c {
  chat_msgs = c.chat_msgs ++ record { userid = userid; text = text } ∷ [];
}

-- The loop of both getters: what it moves to the result and what stays in the list.
unfoldable pub take_out : ℕ → List Cached → List Cached × List Cached
take_out userid [] = ([], [])
take_out userid (m ∷ ms) =
    let (mine, others) = take_out userid ms in
    if m.userid == userid then (m ∷ mine, others) else (mine, m ∷ others)

unfoldable pub get_notify : ℕ → MsgCache → List Cached × MsgCache
get_notify userid c =
    let (mine, others) = take_out userid c.notify_msgs in (mine, record c { notify_msgs = others })

unfoldable pub get_chat : ℕ → MsgCache → List Cached × MsgCache
get_chat userid c =
    let (mine, others) = take_out userid c.chat_msgs in (mine, record c { chat_msgs = others })
