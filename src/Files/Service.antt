-- ===== src/Files/Service.antt =====
-- EdoyumIMServer/FileServer/FileServer.cpp, and FileSession::OnRead for one of its connections.
use my_project_imserver.Base.{
  Bool, List, [], ◌∷◌, ◌++◌, map, Option, none, some, if◌then◌else◌, Bytes,
}
use my_project_imserver.Frame.Buffer.{BufferApi}
use my_project_imserver.Frame.Receive.{Outcome, receive, file_size}
use my_project_imserver.Server.{map_find, map_insert, map_erase, map_set}
use my_project_imserver.Files.Api.{FileApi}
use my_project_imserver.Files.Transfer.{FileSession, new_file_session, State}
use my_project_imserver.Files.Process.{file_process}

-- FileServer and FileManager, the file system, and the calls of `send` and `forceClose` on the
-- connections, oldest first.
pub record Service (Fs File : Type 0) : Type 0 where
  pub sessions : List (Bytes × FileSession File)
  pub files : List Bytes
  pub fs : Fs
  pub sent : List (Bytes × Bytes)
  pub closed : List Bytes

module _ (api : FileApi) where
  open api use {Fs, File}

  -- OnConnection, and OnClose in its other branch; nothing closes the file of the session.
  unfoldable pub file_on_connection : Bytes → Bool → Service Fs File → Service Fs File
  file_on_connection conn connected v = record v {
    sessions =
        if connected
        then map_insert conn new_file_session v.sessions
        else map_erase conn v.sessions;
  }

  -- What a session works on, and its work put back.
  unfoldable pub desk_of : FileSession File → Service Fs File → State api
  desk_of s v = record { session = s; files = v.files; fs = v.fs; sent = [] }

  unfoldable pub put_desk : Bytes → State api → Service Fs File → Service Fs File
  put_desk conn d v = record v {
    sessions = map_set conn d.session v.sessions;
    files = d.files;
    fs = d.fs;
    sent = v.sent ++ map (λ bytes. (conn, bytes)) d.sent;
  }

  unfoldable pub put_result :
      Bytes → Option (Bool × State api) → Service Fs File → Option (Bool × Service Fs File)
  unfolding put_desk
  put_result conn none v = none
  put_result conn (some (ok, d)) v = some (ok, put_desk conn d v)

  unfoldable pub serve_session :
      Bytes → Option (FileSession File) → Bytes → Service Fs File → Option (Bool × Service Fs File)
  unfolding put_result desk_of
  serve_session conn none msg v = none
  serve_session conn (some s) msg v = put_result conn (file_process api msg (desk_of s v)) v

  -- Process of the session of a connection.
  unfoldable pub serve : Bytes → Bytes → Service Fs File → Option (Bool × Service Fs File)
  unfolding serve_session
  serve conn msg v = serve_session conn (map_find conn v.sessions) msg v

  unfoldable pub close_connection : Bytes → Service Fs File → Service Fs File
  close_connection conn v = record v { closed = v.closed ++ conn ∷ [] }

  unfoldable pub file_on_read :
      (buffer : BufferApi)
      → Bytes
      → buffer.Buf
      → Service Fs File
      → Outcome buffer.Buf (Service Fs File)
  unfolding serve close_connection
  file_on_read buffer conn b v = receive buffer 8 file_size (serve conn) (close_connection conn) b v
