-- ===== src/Files/Isolation.antt =====
-- What a request to the file server of EdoyumIMServer/FileServer leaves alone, whatever its bytes are.
use my_project_imserver.Base.{
  ◌≡◌, refl, Bool, false, List, ◌++◌, map, Option, none, some, Bytes, bytes_eq, subst,
}
use my_project_imserver.Server.{map_find}
use my_project_imserver.Server.Update.{map_find-set_ne, map_set-IsSorted, has-map_set}
use my_project_imserver.Server.Laws.{IsSorted, has}
use my_project_imserver.Files.Api.{FileApi}
use my_project_imserver.Files.Transfer.{FileSession, State}
use my_project_imserver.Files.Process.{file_process}
use my_project_imserver.Files.Names.{Has, Returns, file_process-Returns}
use my_project_imserver.Files.Service.{Service, desk_of, put_desk, put_result, serve_session, serve}

module _ (api : FileApi) (conn : Bytes) where
  open api use {Fs, File}

  -- The other sessions are the same, none comes or goes, no name is lost, nothing is closed, and what is sent goes to the
  -- connection.
  pub record Served (v v' : Service Fs File) : Type 0 where
    pub others :
        (k : Bytes) → bytes_eq conn k ≡ false → map_find k v'.sessions ≡ map_find k v.sessions
    pub sorted : IsSorted v.sessions → IsSorted v'.sessions
    pub same : (k : Bytes) → has k v'.sessions ≡ has k v.sessions
    pub names : Has v.files v'.files
    pub open_still : v'.closed ≡ v.closed
    pub packages : List Bytes
    pub sent_here : v'.sent ≡ v.sent ++ map (λ bytes. (conn, bytes)) packages

  abbrev Ends : Service Fs File → Option (Bool × Service Fs File) → Type 0
  Ends v none = Unit {0}
  Ends v (some (ok, v')) = Served v v'

  put_result-Ends :
      (o : Option (Bool × State api)) (v : Service Fs File)
      → Returns api v.files o
      → Ends v (put_result api conn o v)
  unfolding put_result put_desk
  put_result-Ends none v h = tt
  put_result-Ends (some (ok, d)) v h = record {
    others = λ k ne. map_find-set_ne conn k d.session v.sessions ne;
    sorted = map_set-IsSorted conn d.session v.sessions;
    same = λ k. has-map_set k conn d.session v.sessions;
    names = h;
    open_still = refl;
    packages = d.sent;
    sent_here = refl;
  }

  serve_session-Ends :
      (s : Option (FileSession File)) (msg : Bytes) (v : Service Fs File)
      → Ends v (serve_session api conn s msg v)
  unfolding serve_session desk_of
  serve_session-Ends none msg v = tt
  serve_session-Ends (some s) msg v =
      put_result-Ends (file_process api msg (desk_of api s v)) v
        (file_process-Returns api msg (desk_of api s v))

  -- Whatever bytes a request to the file server is made of, over any file system, if it is
  -- processed without an exception, then the session of every other connection is as it was,
  -- every name that was registered still is, no connection has been closed by it, and what it
  -- sent went to its own connection.
  pub serve-Served :
      (msg : Bytes) (v v' : Service Fs File) (ok : Bool)
      → serve api conn msg v ≡ some (ok, v')
      → Served v v'
  unfolding serve
  serve-Served msg v v' ok e =
      subst (Ends v) e (serve_session-Ends (map_find conn v.sessions) msg v)
