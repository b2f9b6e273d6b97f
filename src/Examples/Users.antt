-- ===== src/Examples/Users.antt =====
-- The users, the cache and the sessions at concrete inputs.
use my_project_imserver.Base.{
  ℕ, ◌≡◌, ◌≢◌, refl, arith, true, false, not, ◌&&◌, ◌||◌, List, [], ◌∷◌, ◌++◌, none, some,
  if◌then◌else◌, ◌==◌, ◌+◌, slt, Bytes, bytes_eq, codes, minus_one, ◌*◌, ◌-◌,
}
use my_project_imserver.Users.Types.{User, new_user, is_group}
use my_project_imserver.Users.Sql.{
  sql_add_user, sql_add_group, sql_make_friends, sql_release_friends,
}
use my_project_imserver.Users.Manager.{
  UserManager, new_manager, find_by_id, add_user, add_group, new_group, make_friend_relationship,
  release_friend_relationship,
}
use my_project_imserver.Base.{c_text}
use my_project_imserver.Users.Friends.{
  is_friend, is_pair, present, IsMutual, make_friend_relationship_lem,
  release_friend_relationship_lem, relationship-IsMutual,
}
use my_project_imserver.Users.Ids.{
  IsValid, new_manager-IsValid, next_user_id, next_group_id, added-IsValid, add_user_lem,
  add_group_lem,
}
use my_project_imserver.Users.Load.{load_rows, load_row, add_loaded}
use my_project_imserver.Users.Restart.{next_user_id_after_group}
use mathlib.Core.List.{Perm}
use my_project_imserver.Cache.{get_chat}
use my_project_imserver.Cache.Laws.{owed, texts, get_chat_lem}
use my_project_imserver.Server.{
  Session, new_session, on_connection, map_find, get_session_by_id, user_id,
}
use my_project_imserver.Server.Laws.{IsSorted, or_else, on_connection_lem, get_session_by_id_sound}
use my_project_imserver.Examples.Setting.{
  log_database, user, manager, cache, key_a, key_b, sessions, sessions-IsSorted,
}

abbrev dan : User
dan = user 0 (codes "dan") []

make_friend_relationship_lem_example :
    ((make_friend_relationship log_database 2 3 manager []).0 ≡ (
      (slt 2 3 && (log_database.execute (sql_make_friends 2 3) []).0)
      && (present 2 manager.cached_users && present 3 manager.cached_users)))
    × (is_friend 3 2 (make_friend_relationship log_database 2 3 manager []).1.cached_users ≡ (
        is_friend 3 2 manager.cached_users
        || ((slt 2 3 && (log_database.execute (sql_make_friends 2 3) []).0)
            && (present 3 manager.cached_users && is_pair 2 3 3 2))))
make_friend_relationship_lem_example = make_friend_relationship_lem log_database 2 3 3 2 manager []

release_friend_relationship_lem_example :
    ((release_friend_relationship log_database 1 2 manager []).0 ≡ (
      (slt 1 2 && (log_database.execute (sql_release_friends 1 2) []).0)
      && (present 1 manager.cached_users && present 2 manager.cached_users)))
    × (is_friend 2 1 (release_friend_relationship log_database 1 2 manager []).1.cached_users ≡ (
        is_friend 2 1 manager.cached_users
        && not (
            (slt 1 2 && (log_database.execute (sql_release_friends 1 2) []).0) && is_pair 1 2 2 1)))
release_friend_relationship_lem_example =
    release_friend_relationship_lem log_database 1 2 2 1 manager []

manager-IsMutual : IsMutual manager
manager-IsMutual x y h k = ground arith

add_user_lem_example :
    (find_by_id 1 (add_user log_database dan new_manager []).1.cached_users ≡ (
      if (add_user log_database dan new_manager []).0 && (next_user_id new_manager == 1)
      then some (record dan {
        userid = next_user_id new_manager;
        facetype = 0;
        birthday = 20000101;
        gender = 0;
        ownerid = 0;
      })
      else find_by_id 1 new_manager.cached_users))
    × (find_by_id (next_user_id new_manager) new_manager.cached_users ≡ none)
    × (is_group (next_user_id new_manager) ≡ false)
    × ((add_user log_database dan new_manager []).0
        ≡ (log_database.execute (sql_add_user (next_user_id new_manager) dan) []).0)
unfolding new_manager
add_user_lem_example =
    add_user_lem log_database 1 dan new_manager [] new_manager-IsValid (omega arith)

add_group_lem_example :
    ((add_group log_database (codes "g") 1 new_manager []).0 ≡ (
      if (log_database.execute
        (sql_add_group (next_group_id new_manager) (c_text (codes "g")) 1)
        []).0
      then some (next_group_id new_manager)
      else none))
    × (find_by_id 0x1000_0000 (add_group log_database (codes "g") 1 new_manager []).1.cached_users
        ≡ (if (log_database.execute
                (sql_add_group (next_group_id new_manager) (c_text (codes "g")) 1)
                []).0
              && (next_group_id new_manager == 0x1000_0000)
            then some (new_group (next_group_id new_manager) (codes "g") 1)
            else find_by_id 0x1000_0000 new_manager.cached_users))
    × (find_by_id (next_group_id new_manager) new_manager.cached_users ≡ none)
    × (is_group (next_group_id new_manager) ≡ true)
unfolding new_manager
add_group_lem_example =
    add_group_lem log_database 0x1000_0000 (codes "g") 1 new_manager [] new_manager-IsValid
      (omega arith)

-- The number that the digits of a text spell.
abbrev digits : ℕ → Bytes → ℕ
digits n [] = n
digits n (c ∷ cs) = digits (n * 10 + (c - 48)) cs

abbrev group_row : List Bytes
group_row =
    codes "268435456"
    ∷ codes "g"
    ∷ codes "g"
    ∷ []
    ∷ codes "0"
    ∷ []
    ∷ codes "0"
    ∷ codes "0"
    ∷ []
    ∷ []
    ∷ []
    ∷ []
    ∷ []

abbrev group_loaded : UserManager
group_loaded = record {
  cached_users =
      record (user 0x1000_0000 (codes "g") []) {
        password = [];
        birthday = 0;
        ownerid = minus_one;
        clienttype = 0;
        status = 0;
      }
      ∷ [];
  base_user_id = 0x1000_0000;
  base_group_id = 0x0fff_ffff;
}

next_user_id_after_group_example : is_group (next_user_id group_loaded) ≡ true
unfolding load_rows load_row add_loaded new_manager new_user
next_user_id_after_group_example =
    next_user_id_after_group (digits 0) (group_row ∷ []) new_manager group_loaded 0x1000_0000 tt
      refl refl refl (omega arith)

get_chat_lem_example :
    (texts (get_chat 1 cache).0 ≡ owed 1 cache.chat_msgs)
    × (owed 1 (get_chat 1 cache).1.chat_msgs ≡ [])
    × ((v : ℕ) → 1 ≢ v → owed v (get_chat 1 cache).1.chat_msgs ≡ owed v cache.chat_msgs)
    × Perm cache.chat_msgs ((get_chat 1 cache).0 ++ (get_chat 1 cache).1.chat_msgs)
    × ((get_chat 1 cache).1.notify_msgs ≡ cache.notify_msgs)
get_chat_lem_example = get_chat_lem 1 cache

on_connection_lem_example :
    IsSorted (on_connection key_a false 0 sessions)
    × (map_find key_a (on_connection key_a false 0 sessions) ≡ (
        if bytes_eq key_a key_a
        then (if false then or_else (map_find key_a sessions) (new_session 0) else none)
        else map_find key_a sessions))
on_connection_lem_example = on_connection_lem key_a key_a false 0 sessions sessions-IsSorted

get_session_by_id_sound_example :
    (s : Session) × (map_find key_b sessions ≡ some s) × (user_id s ≡ 2)
unfolding get_session_by_id
get_session_by_id_sound_example = get_session_by_id_sound 2 sessions key_b sessions-IsSorted refl

relationship-IsMutual_example :
    IsMutual (make_friend_relationship log_database 1 3 manager []).1
    × IsMutual (release_friend_relationship log_database 1 3 manager []).1
relationship-IsMutual_example = relationship-IsMutual log_database 1 3 manager [] manager-IsMutual

added-IsValid_example :
    IsValid (add_user log_database dan new_manager []).1
    × IsValid (add_group log_database (codes "g") 1 new_manager []).1
unfolding new_manager
added-IsValid_example =
    added-IsValid log_database dan (codes "g") 1 new_manager [] new_manager-IsValid (omega arith)
      (omega arith)
