-- ===== src/Examples/Relations.antt =====
-- Requests about friends and groups at concrete inputs.
use my_project_imserver.Base.{
  Bytes, List, bytes_eq, ℕ, ◌≡◌, refl, ◌||◌, true, false, [], ◌∷◌, Option, none, some, arith, codes,
  inl,
}
use my_project_imserver.Users.Types.{is_group}
use my_project_imserver.Users.Manager.{find_by_id}
use my_project_imserver.Users.Friends.{is_friend, is_pair}
use my_project_imserver.Users.Ids.{IsValid}
use my_project_imserver.Server.{Session, map_find, get_session_by_id}
use my_project_imserver.Session.World.{World}
use my_project_imserver.Session.Json.{JsonApi}
use my_project_imserver.Session.Friend.{operate_friend}
use my_project_imserver.Session.Group.{create_group}
use my_project_imserver.Session.Relations.Asking.{Agreed, operate_friend-Agreed}
use my_project_imserver.Session.Relations.Accept.{accepted, operate_friend-accepted}
use my_project_imserver.Session.Relations.Groups.{founded, create_group-founded}
use my_project_imserver.Examples.Setting.{
  log_database, text_json, Value, text, object, manager, key_a, key_b, world, ann, ann-found, user,
  session,
}

abbrev first_of : Value → Option ℕ
first_of (text (n ∷ ns)) = some n
first_of (text []) = none
first_of (object fs) = none

-- A number is a text of one character.
abbrev number_json : JsonApi
number_json = record {
  Value = Value;
  parse = text_json.parse;
  member = text_json.member;
  is_string = text_json.is_string;
  is_int = text_json.is_string;
  is_array = λ v. false;
  as_string = text_json.as_string;
  as_int = first_of;
  items = λ v. [];
  null = object [];
  clear = λ v. object [];
  of_int = text_json.of_int;
  of_string = text;
  set = text_json.set;
  append = λ k v w. w;
  styled = text_json.styled;
}

abbrev accepting : ℕ → Value
accepting id =
    object ((codes "type", 3 ∷ []) ∷ (codes "userid", id ∷ []) ∷ (codes "accept", 1 ∷ []) ∷ [])

operate_friend-accepted_example :
    (operate_friend log_database number_json key_a (accepting 3) world
      ≡ some (tt, accepted log_database number_json key_a 3 (codes "cy") ann world))
    × ((x y : ℕ)
        → is_friend x y
            (accepted log_database number_json key_a 3 (codes "cy") ann world).manager.cached_users
          ≡ (is_friend x y manager.cached_users || is_pair 1 3 x y))
unfolding bytes_eq find_by_id
operate_friend-accepted_example =
    operate_friend-accepted log_database number_json key_a (accepting 3) 3 (user 3 (codes "cy") [])
      ann world refl refl refl refl refl ann-found (omega arith) (omega arith) (omega arith)
      (omega arith) refl refl (omega arith) (omega arith) refl

-- Ann asks cy, who is online.
abbrev asking : Value
asking = object ((codes "type", 1 ∷ []) ∷ (codes "userid", 3 ∷ []) ∷ [])

abbrev cy : Session
cy = session 3 (codes "cy")

abbrev meeting : World (List Bytes)
meeting = record world { sessions = (key_a, ann) ∷ (key_b, cy) ∷ [] }

operate_friend-Agreed_example :
    Agreed log_database number_json asking
      (accepting 1)
      key_a
      key_b
      ann
      cy
      (user 1 (codes "ann") (2 ∷ []))
      meeting
unfolding bytes_eq find_by_id map_find get_session_by_id
operate_friend-Agreed_example =
    operate_friend-Agreed log_database number_json asking (accepting 1) key_a key_b ann cy
      (user 1 (codes "ann") (2 ∷ [])) meeting refl refl refl refl refl refl refl refl refl refl refl
      refl (omega arith) (omega arith) (omega arith) (omega arith) (omega arith) refl refl
      (omega arith) (omega arith) (omega arith) refl

abbrev naming : Value
naming = object ((codes "groupname", codes "club") ∷ [])

manager-IsValid : IsValid manager
manager-IsValid = record {
  issued = (inl (omega arith), (inl (omega arith), (inl (omega arith), tt)));
  distinct = ((omega arith, (omega arith, tt)), ((omega arith, tt), (tt, tt)));
  user_room = omega arith;
  group_room = (omega arith, omega arith);
}

create_group-founded_example :
    (create_group log_database number_json key_a 7 naming world
      ≡ some (tt, founded log_database number_json key_a (codes "club") naming ann world))
    × (find_by_id 0x1000_0000 manager.cached_users ≡ none)
    × (is_group 0x1000_0000 ≡ true)
    × ((x y : ℕ)
        → is_friend x y
            (founded log_database number_json key_a
              (codes "club")
              naming
              ann
              world).manager.cached_users
          ≡ (is_friend x y manager.cached_users || is_pair 1 0x1000_0000 x y))
unfolding bytes_eq
create_group-founded_example =
    create_group-founded log_database number_json key_a 7 naming (codes "club") ann world refl
      ann-found manager-IsValid (omega arith) (omega arith) refl refl refl
