-- ===== src/Files/Runs.antt =====
-- The file server over time: OnConnection of EdoyumIMServer/FileServer/FileServer.cpp and OnRead of
-- EdoyumIMServer/FileServer/FileSession.cpp, called in any order.
use my_project_imserver.Base.{◌≡◌, refl, ◌∙◌, Bool, true, false, List, [], some, Bytes, bytes_eq}
use my_project_imserver.Frame.Buffer.{BufferApi}
use my_project_imserver.Frame.Receive.{done, file_size}
use my_project_imserver.Frame.Keeping.{receive_keeps}
use my_project_imserver.Server.{map_find}
use my_project_imserver.Server.Laws.{IsSorted, has}
use my_project_imserver.Runs.{ServerApi, Event, Run, is_open, is_idle}
use my_project_imserver.Runs.Reachable.{
  Changed, insert-Changed, erase-Changed, ServerLaws, Run-IsSound, Run-others,
}
use my_project_imserver.Files.Api.{FileApi}
use my_project_imserver.Files.Transfer.{FileSession, new_file_session}
use my_project_imserver.Files.Names.{Has, Has-refl}
use my_project_imserver.Files.Service.{
  Service, file_on_connection, serve, close_connection, file_on_read,
}
use my_project_imserver.Files.Isolation.{serve-Served}

module _ (api : FileApi) where
  open api use {Fs, File}

  file_on_connection-Changed :
      (conn : Bytes) (up : Bool) (v : Service Fs File)
      → IsSorted v.sessions
      → Changed conn up v.sessions (file_on_connection api conn up v).sessions
  unfolding file_on_connection
  file_on_connection-Changed conn true v h = insert-Changed conn new_file_session v.sessions h
  file_on_connection-Changed conn false v h = erase-Changed conn v.sessions h

  file_on_connection-Has :
      (names : List Bytes) (conn : Bytes) (up : Bool) (v : Service Fs File)
      → Has names v.files
      → Has names (file_on_connection api conn up v).files
  unfolding file_on_connection
  file_on_connection-Has names conn up v h = h

  -- What a call of OnRead may do.
  pub record Progress (conn : Bytes) (v v' : Service Fs File) : Type 0 where
    pub others :
        (k : Bytes) → bytes_eq conn k ≡ false → map_find k v'.sessions ≡ map_find k v.sessions
    pub sorted : IsSorted v.sessions → IsSorted v'.sessions
    pub same : (k : Bytes) → has k v'.sessions ≡ has k v.sessions
    pub names : Has v.files v'.files

  Progress-trans :
      (conn : Bytes) (u v w : Service Fs File)
      → Progress conn u v
      → Progress conn v w
      → Progress conn u w
  Progress-trans conn u v w p q = record {
    others = λ k h. q.others k h ∙ p.others k h;
    sorted = λ h. q.sorted (p.sorted h);
    same = λ k. q.same k ∙ p.same k;
    names = λ name h. q.names name (p.names name h);
  }

  serve-Progress :
      (conn msg : Bytes) (v v' : Service Fs File) (ok : Bool)
      → serve api conn msg v ≡ some (ok, v')
      → Progress conn v v'
  serve-Progress conn msg v v' ok e =
      let served = serve-Served api conn msg v v' ok e in
      record {
        others = served.others;
        sorted = served.sorted;
        same = served.same;
        names = served.names;
      }

  close_connection-Progress :
      (conn : Bytes) (v : Service Fs File) → Progress conn v (close_connection api conn v)
  unfolding close_connection
  close_connection-Progress conn v = record {
    others = λ k h. refl;
    sorted = λ h. h;
    same = λ k. refl;
    names = Has-refl v.files;
  }

  module _ (buffer : BufferApi) where
    pub file_on_read-Progress :
        (conn : Bytes) (b b' : buffer.Buf) (v v' : Service Fs File)
        → file_on_read api buffer conn b v ≡ done b' v'
        → Progress conn v v'
    unfolding file_on_read
    file_on_read-Progress conn b b' v v' e =
        receive_keeps buffer 8 file_size (serve api conn) (close_connection api conn)
          (Progress conn)
          (λ s. record {
            others = λ k h. refl;
            sorted = λ h. h;
            same = λ k. refl;
            names = Has-refl s.files;
          })
          (Progress-trans conn) (serve-Progress conn) (close_connection-Progress conn) b b' v v' e

    abbrev pub file_server : ServerApi
    file_server = record {
      State = Service Fs File;
      Item = FileSession File;
      Buf = buffer.Buf;
      sessions = λ v. v.sessions;
      change = λ conn up memory v. file_on_connection api conn up v;
      read = λ conn memory b v. file_on_read api buffer conn b v;
    }

    file_server-ServerLaws :
        (names : List Bytes) → ServerLaws file_server (λ (v : Service Fs File). Has names v.files)
    file_server-ServerLaws names = record {
      change-Changed = λ conn up memory v h. file_on_connection-Changed conn up v h;
      change_rest = λ conn up memory v h. file_on_connection-Has names conn up v h;
      read_sorted = λ conn memory b b' v v' e h. (file_on_read-Progress conn b b' v v' e).sorted h;
      read_same = λ conn memory b b' v v' k e. (file_on_read-Progress conn b b' v v' e).same k;
      read_others =
          λ conn memory b b' v v' k e ne. (file_on_read-Progress conn b b' v v' e).others k ne;
      read_rest = λ conn memory b b' v v' e h name l.
          (file_on_read-Progress conn b b' v v' e).names name (h name l);
    }

    -- From no sessions at all, after any callbacks of the network library on the file server that
    -- returned, with any bytes and over any file system, the map of sessions is in order, a
    -- connection has a session exactly if it has been opened since it last was closed, and every
    -- name that was registered still is.
    pub file_server_lem :
        {v : Service Fs File} {es : List Event} {w : Service Fs File}
        → v.sessions ≡ []
        → Run file_server v es w
        → IsSorted w.sessions
          × ((k : Bytes) → has k w.sessions ≡ is_open es k)
          × Has v.files w.files
    file_server_lem {v} h run =
        let sound =
          Run-IsSound file_server (λ (u : Service Fs File). Has v.files u.files)
            (file_server-ServerLaws v.files) h (Has-refl v.files) run in
        (sound.sorted, sound.opened, sound.rest)

    -- Callbacks for other connections leave the session of a connection as it was.
    pub file_server_others :
        {v : Service Fs File} {es : List Event} {w : Service Fs File} (k : Bytes)
        → Run file_server v es w
        → is_idle es k ≡ true
        → IsSorted v.sessions
        → map_find k w.sessions ≡ map_find k v.sessions
    file_server_others {v} k run idle h =
        (Run-others file_server (λ (u : Service Fs File). Has v.files u.files)
          (file_server-ServerLaws v.files) k run idle h).1
