-- ===== src/Database/Client.antt =====
-- What the database access calls of the MySQL client library.
use my_project_imserver.Base.{ℕ, ◌≡◌, List, [], ◌∷◌, Option, none, some, Bytes, length}

-- `Handle` is a `MYSQL *` and `Result` a `MYSQL_RES *` that are not NULL; `Server` is the state of the
-- library and of the server. `mysql_init` and `mysql_real_connect` answer none for NULL, the queries
-- answer 0 for success; `cr_server_gone_error` is the code for a lost connection. A cell of a row is none for NULL.
pub record MysqlApi : Type 1 where
  pub Server : Type 0
  pub Handle : Type 0
  pub Result : Type 0
  pub mysql_init : Server → Option Handle × Server
  pub mysql_real_connect :
      Handle → Bytes → Bytes → Bytes → Bytes → ℕ → Server → Option Handle × Server
  pub mysql_close : Handle → Server → Server
  pub mysql_real_query : Handle → Bytes → Server → ℕ × Server
  pub mysql_query : Handle → Bytes → Server → ℕ × Server
  pub cr_server_gone_error : ℕ
  pub mysql_errno : Handle → Server → ℕ
  pub mysql_store_result : Handle → Server → Option Result × Server
  pub mysql_affected_rows : Handle → Server → ℕ
  pub mysql_field_count : Handle → Server → ℕ
  pub mysql_fetch_fields : Result → List Bytes
  pub mysql_fetch_row : Result → Server → Option (List (Option Bytes)) × Server
  pub mysql_free_result : Result → Server → Server

-- The documented behaviour of stored results, each of which has a number of columns of its own:
-- mysql_fetch_row gives the rows of a result one after the other, each with a cell for each of its
-- columns, and NULL behind the last.
pub record ServesRows (api : MysqlApi) : Type 0 where
  pub columns : api.Result → ℕ
  pub rows : api.Result → api.Server → List (List (Option Bytes))
  pub fetch_end :
      (r : api.Result) (s : api.Server)
      → rows r s ≡ []
      → (s' : api.Server) × (api.mysql_fetch_row r s ≡ (none, s'))
  pub fetch_next :
      (r : api.Result) (s : api.Server) (row : List (Option Bytes))
      (more : List (List (Option Bytes)))
      → rows r s ≡ row ∷ more
      → (s' : api.Server) × (api.mysql_fetch_row r s ≡ (some row, s'))
        × (rows r s' ≡ more)
        × (length row ≡ columns r)
  pub fields : (r : api.Result) → length (api.mysql_fetch_fields r) ≡ columns r
