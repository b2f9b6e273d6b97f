-- ===== src/Files/Run.antt =====
-- A client of the file server that sends one request after the other.
use my_project_imserver.Base.{Bool, true, false, List, [], ◌∷◌, Option, none, some, Bytes, ◌≡◌, ap}
use my_project_imserver.Files.Api.{FileApi}
use my_project_imserver.Files.Transfer.{State}
use my_project_imserver.Files.Process.{file_process}

module _ (api : FileApi) where
  -- Where the run goes on; `loop` is the rest of it.
  abbrev pub goes_on :
      (State api → Option (State api)) → Option (Bool × State api) → Option (State api)
  goes_on loop none = none
  goes_on loop (some (false, d)) = none
  goes_on loop (some (true, d)) = loop d

  -- All the requests are processed with the result true.
  unfoldable pub process_all : List Bytes → State api → Option (State api)
  process_all [] d = some d
  process_all (msg ∷ msgs) d = goes_on (process_all msgs) (file_process api msg d)

  pub process_all-step :
      (msg : Bytes) (msgs : List Bytes) (d d1 : State api)
      → file_process api msg d ≡ some (true, d1)
      → process_all (msg ∷ msgs) d ≡ process_all msgs d1
  unfolding process_all
  process_all-step msg msgs d d1 e = ap (goes_on (process_all msgs)) e

  pub process_all-last :
      (msg : Bytes) (d d1 : State api)
      → file_process api msg d ≡ some (true, d1)
      → process_all (msg ∷ []) d ≡ some d1
  unfolding process_all
  process_all-last msg d d1 e = ap (goes_on some) e
