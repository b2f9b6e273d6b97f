-- ===== src/Session/Runs.antt =====
-- The chat server over time: OnConnection of EdoyumIMServer/IMServer.cpp and OnRead of
-- EdoyumIMServer/ClientSession.cpp, called in any order.
pub mod Owners
pub mod Progress
use my_project_imserver.Base.{ℕ, ◌≡◌, ap, sym, ◌∙◌, Bool, true, false, List, [], Bytes, All, subst}
use my_project_imserver.Frame.Buffer.{BufferApi}
use my_project_imserver.Users.Manager.{DbApi}
use my_project_imserver.Server.{SessionMap, new_session, on_connection, on_close, map_find, Session}
use my_project_imserver.Server.Laws.{IsSorted, has}
use my_project_imserver.Runs.{ServerApi, Event, Run, is_open, is_idle}
use my_project_imserver.Runs.Reachable.{
  Changed, insert-Changed, erase-Changed, ServerLaws, IsSound, Run-IsSound, Run-others,
}
use my_project_imserver.Session.Json.{JsonApi}
use my_project_imserver.Session.World.{World}
use my_project_imserver.Session.Process.{on_read}
use my_project_imserver.Session.Runs.Owners.{Owned, IsKnown, on_connection-Owned}
use my_project_imserver.Session.Runs.Progress.{on_read-Progress}

on_connection-Changed :
    (conn : Bytes) (up : Bool) (memory : ℕ) (m : SessionMap)
    → IsSorted m
    → Changed conn up m (on_connection conn up memory m)
unfolding on_connection on_close
on_connection-Changed conn true memory m h = insert-Changed conn (new_session memory) m h
on_connection-Changed conn false memory m h = erase-Changed conn m h

module _ (database : DbApi) (json : JsonApi) (api : BufferApi) where
  open database use {Db}

  abbrev pub chat_server : ServerApi
  chat_server = record {
    State = World Db;
    Item = Session;
    Buf = api.Buf;
    sessions = λ w. w.sessions;
    change = λ conn up memory w. record w { sessions = on_connection conn up memory w.sessions };
    read = λ conn memory b w. on_read database json memory conn api b w;
  }

  abbrev AllOwned : World Db → Type 0
  AllOwned w = Owned w.manager w.sessions

  chat_server-ServerLaws : ServerLaws chat_server AllOwned
  chat_server-ServerLaws = record {
    change-Changed = λ conn up memory w h. on_connection-Changed conn up memory w.sessions h;
    change_rest = λ conn up memory w h. on_connection-Owned w.manager conn up memory w.sessions h;
    read_sorted = λ conn memory b b' w w' e h.
        (on_read-Progress database json api conn memory b b' w w' e).sorted h;
    read_same = λ conn memory b b' w w' k e.
        (on_read-Progress database json api conn memory b b' w w' e).same k;
    read_others = λ conn memory b b' w w' k e ne.
        (on_read-Progress database json api conn memory b b' w w' e).others k ne;
    read_rest = λ conn memory b b' w w' e h.
        (on_read-Progress database json api conn memory b b' w w' e).owned h;
  }

  -- From no sessions at all, after any callbacks of the network library that returned -
  -- connections that open and close, and OnRead on any connection with any bytes in its buffer -
  -- the map of sessions is in order, a connection has a session exactly if it has been opened
  -- since it last was closed, and every session belongs to a cached user or to nobody, its id
  -- being -1.
  pub chat_server_lem :
      {w0 : World Db} {es : List Event} {w : World Db}
      → w0.sessions ≡ []
      → Run chat_server w0 es w
      → IsSorted w.sessions
        × ((k : Bytes) → has k w.sessions ≡ is_open es k)
        × Owned w.manager w.sessions
  chat_server_lem {w0} h run =
      let sound =
        Run-IsSound chat_server AllOwned chat_server-ServerLaws h
          (subst (Owned w0.manager) (sym h) tt) run in
      (sound.sorted, sound.opened, sound.rest)

  -- Any callbacks that returned, none of which is for a connection, leave the session of that
  -- connection as it was, where the map of sessions is in order.
  pub chat_server_others :
      {w : World Db} {es : List Event} {w' : World Db} (k : Bytes)
      → Run chat_server w es w'
      → is_idle es k ≡ true
      → IsSorted w.sessions
      → map_find k w'.sessions ≡ map_find k w.sessions
  chat_server_others k run idle h =
      (Run-others chat_server AllOwned chat_server-ServerLaws k run idle h).1
