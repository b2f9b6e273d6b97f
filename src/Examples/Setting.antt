-- ===== src/Examples/Setting.antt =====
-- A database, a JSON library and a server with two users online, on which the theorems are run.
use my_project_imserver.Base.{
  ℕ, ◌≡◌, refl, Bool, true, false, List, [], ◌∷◌, ◌++◌, Option, none, some, if◌then◌else◌, Bytes,
  bytes_eq, codes,
}
use my_project_imserver.Users.Types.{User}
use my_project_imserver.Users.Manager.{DbApi, UserManager}
use my_project_imserver.Cache.{MsgCache}
use my_project_imserver.Server.{Session, SessionMap, map_find, bytes_lt}
use my_project_imserver.Server.Laws.{IsSorted}
use my_project_imserver.Session.Json.{JsonApi}
use my_project_imserver.Session.World.{World}

-- It takes every statement and keeps a log of them; its tables are empty.
abbrev pub log_database : DbApi
log_database = record {
  Db = List Bytes;
  execute = λ sql db. (true, db ++ sql ∷ []);
  query = λ sql db. (some [], db ++ sql ∷ []);
}

-- A value is a text or an object of texts.
pub data Value : Type 0 where
  text : Bytes → Value
  object : List (Bytes × Bytes) → Value

abbrev field : Bytes → List (Bytes × Bytes) → Bytes
field key [] = []
field key ((k, s) ∷ fs) = if bytes_eq k key then s else field key fs

abbrev member : Bytes → Value → Option Value
member key (text s) = none
member key (object fs) = some (text (field key fs))

abbrev is_text : Value → Bool
is_text (text s) = true
is_text (object fs) = false

abbrev as_text : Value → Bytes
as_text (text s) = s
as_text (object fs) = []

abbrev put : Bytes → Value → Value → Value
put key (text s) (object fs) = object ((key, s) ∷ fs)
put key v w = w

abbrev printed : List (Bytes × Bytes) → Bytes
printed [] = []
printed ((k, s) ∷ fs) = k ++ (58 ∷ s ++ (59 ∷ printed fs))

abbrev print : Value → Bytes
print (text s) = s
print (object fs) = printed fs

-- Where the text is not in braces it is a string.
abbrev read : Bytes → Option Value
read [] = none
read (c ∷ cs) = some (text (c ∷ cs))

abbrev pub text_json : JsonApi
text_json = record {
  Value = Value;
  parse = read;
  member = member;
  is_string = is_text;
  is_int = λ v. false;
  is_array = λ v. false;
  as_string = as_text;
  as_int = λ v. none;
  items = λ v. [];
  null = object [];
  clear = λ v. object [];
  of_int = λ n. text (n ∷ []);
  of_string = text;
  set = put;
  append = λ k v w. w;
  styled = print;
}

abbrev pub user : ℕ → Bytes → List ℕ → User
user id name friends = record {
  userid = id;
  username = name;
  password = codes "secret";
  nickname = name;
  facetype = 0;
  customface = [];
  customfacefmt = [];
  gender = 0;
  birthday = 20000101;
  signature = [];
  address = [];
  phonenumber = [];
  mail = [];
  ownerid = 0;
  clienttype = 1;
  status = 1;
  friends = friends;
}

-- User 1 is a friend of 2, user 3 knows nobody.
abbrev pub manager : UserManager
manager = record {
  cached_users =
      user 1 (codes "ann") (2 ∷ []) ∷ user 2 (codes "bob") (1 ∷ []) ∷ user 3 (codes "cy") [] ∷ [];
  base_user_id = 3;
  base_group_id = 0x0fff_ffff;
}

abbrev pub key_a : Bytes
key_a = codes "a"

abbrev pub key_b : Bytes
key_b = codes "b"

abbrev pub session : ℕ → Bytes → Session
session id name = record { seq = 0; user = user id name []; target = 0; targets = [] }

abbrev pub sessions : SessionMap
sessions = (key_a, session 1 (codes "ann")) ∷ (key_b, session 2 (codes "bob")) ∷ []

-- User 1 is owed a message and a notification.
abbrev pub cache : MsgCache
cache = record {
  notify_msgs = record { userid = 1; text = codes "n" } ∷ [];
  chat_msgs =
      record { userid = 1; text = codes "m" } ∷ record { userid = 3; text = codes "k" } ∷ [];
}

abbrev pub world : World (List Bytes)
world = record {
  sessions = sessions;
  manager = manager;
  cache = cache;
  db = [];
  sent = [];
  closed = [];
}

pub sessions-IsSorted : IsSorted sessions
unfolding bytes_lt
sessions-IsSorted = ((refl, tt), (tt, tt))

abbrev pub ann : Session
ann = session 1 (codes "ann")

pub ann-found : map_find key_a sessions ≡ some ann
unfolding map_find bytes_eq
ann-found = refl
