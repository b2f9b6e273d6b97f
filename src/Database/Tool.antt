-- ===== src/Database/Tool.antt =====
-- class MySQLTool (EdoyumIMServer/mysqltool.h, mysqltool.cpp): the connection to the database.
-- `none` is a call of the client library on NULL.
use my_project_imserver.Base.{
  ℕ, ◌%◌, Bool, true, false, [], Option, none, some, ◌==◌, if◌then◌else◌, Bytes, codes, c_text,
}
use my_project_imserver.Database.Client.{MysqlApi}
use my_project_imserver.Database.Cursor.{QueryResult, new_query_result}

-- `mysql` is none where m_mysql is NULL.
pub record MySqlTool (Handle : Type 0) : Type 0 where
  pub mysql : Option Handle
  pub host : Bytes
  pub user : Bytes
  pub passwd : Bytes
  pub dbname : Bytes
  pub port : ℕ

unfoldable pub new_tool : {Handle : Type 0} → MySqlTool Handle
new_tool = record { mysql = none; host = []; user = []; passwd = []; dbname = []; port = 3306 }

module _ (api : MysqlApi) where
  open api use {
    Server, Handle, Result, mysql_init, mysql_real_connect, mysql_close, mysql_real_query,
    mysql_query, mysql_errno, cr_server_gone_error, mysql_store_result, mysql_affected_rows,
    mysql_field_count,
  }

  abbrev pub Tool : Type 0
  Tool = MySqlTool Handle

  close_old : Option Handle → Server → Server
  close_old none s = s
  close_old (some h) s = mysql_close h s

  -- After mysql_real_connect; only a connection sets the names.
  unfoldable pub connected :
      Bytes → Bytes → Bytes → Bytes → Option Handle × Server → Tool → Bool × Tool × Server
  connected host user passwd db (none, s) t = (false, record t { mysql = none }, s)
  connected host user passwd db (some h, s) t = (
    true,
    record t { mysql = some h; host = host; user = user; passwd = passwd; dbname = db },
    (mysql_query h (codes "set name utf8;") s).1,
  )

  unfoldable pub connect_init :
      Bytes
      → Bytes
      → Bytes
      → Bytes
      → ℕ
      → Option Handle × Server
      → Tool
      → Option (Bool × Tool × Server)
  unfolding connected
  connect_init host user passwd db port (none, s) t = none
  connect_init host user passwd db port (some h, s) t =
      let made =
        mysql_real_connect h (c_text host) (c_text user) (c_text passwd) (c_text db) port s in
      some (connected host user passwd db made t)

  unfoldable pub connect :
      Bytes → Bytes → Bytes → Bytes → ℕ → Tool → Server → Option (Bool × Tool × Server)
  unfolding close_old connect_init
  connect host user passwd db port t s =
      connect_init host user passwd db port (mysql_init (close_old t.mysql s)) t

  -- `connect` with what the last connection was made with, at the default port.
  unfoldable pub reconnect : Tool → Server → Option (Bool × Tool × Server)
  unfolding connect
  reconnect t s = connect t.host t.user t.passwd t.dbname 3306 t s

  -- The result of a query that was answered 0.
  unfoldable pub stored_result :
      Handle → Option Result × Server → Tool → Option (Option (QueryResult Result) × Tool × Server)
  stored_result h (none, s) t = none
  stored_result h (some r, s) t =
      elim (new_query_result api r (mysql_affected_rows h s % 0x1_0000_0000) (mysql_field_count h s)
        s) [ none ↦ none | some (q, s') ↦ some (some q, t, s') ]

  -- The second attempt of a query, behind a new connection.
  unfoldable pub query_again :
      Bytes
      → Option Handle
      → Bool
      → Tool
      → Server
      → Option (Option (QueryResult Result) × Tool × Server)
  unfolding stored_result
  query_again sql m false t s = some (none, t, s)
  query_again sql none true t s = none
  query_again sql (some h) true t s =
      let (ret, s1) = mysql_real_query h sql s in
      if ret == 0 then stored_result h (mysql_store_result h s1) t else some (none, t, s1)

  unfoldable pub query_reconnected :
      Bytes → Option (Bool × Tool × Server) → Option (Option (QueryResult Result) × Tool × Server)
  unfolding query_again
  query_reconnected sql none = none
  query_reconnected sql (some (ok, t, s)) = query_again sql t.mysql ok t s

  -- Without a connection: one that succeeds ends the query, one that fails goes on with NULL.
  unfoldable pub query_unconnected :
      Option (Bool × Tool × Server) → Option (Option (QueryResult Result) × Tool × Server)
  query_unconnected none = none
  query_unconnected (some (true, t, s)) = some (none, t, s)
  query_unconnected (some (false, t, s)) = none

  unfoldable pub query_on :
      Option Handle → Bytes → Tool → Server → Option (Option (QueryResult Result) × Tool × Server)
  unfolding query_unconnected query_reconnected stored_result
  query_on none sql t s = query_unconnected (reconnect t s)
  query_on (some h) sql t s =
      let (ret, s1) = mysql_real_query h sql s in
      if ret == 0
      then stored_result h (mysql_store_result h s1) t
      else if cr_server_gone_error == mysql_errno h s1
      then query_reconnected sql (reconnect t s1)
      else some (none, t, s1)

  -- `Query`.
  unfoldable pub tool_query :
      Bytes → Tool → Server → Option (Option (QueryResult Result) × Tool × Server)
  unfolding query_on
  tool_query sql t s = query_on t.mysql sql t s

  -- The second attempt of a statement, and the number of rows, which only this branch sets.
  unfoldable pub execute_again :
      Bytes → Option Handle → Bool → Tool → Server → Option (Bool × Option ℕ × Tool × Server)
  execute_again sql m false t s = some (false, none, t, s)
  execute_again sql none true t s = none
  execute_again sql (some h) true t s =
      let (ret, s1) = mysql_query h (c_text sql) s in
      if ret == 0
      then some (true, some (mysql_affected_rows h s1 % 0x1_0000_0000), t, s1)
      else some (false, none, t, s1)

  unfoldable pub execute_reconnected :
      Bytes → Option (Bool × Tool × Server) → Option (Bool × Option ℕ × Tool × Server)
  unfolding execute_again
  execute_reconnected sql none = none
  execute_reconnected sql (some (ok, t, s)) = execute_again sql t.mysql ok t s

  unfoldable pub execute_unconnected :
      Option (Bool × Tool × Server) → Option (Bool × Option ℕ × Tool × Server)
  execute_unconnected none = none
  execute_unconnected (some (true, t, s)) = some (false, none, t, s)
  execute_unconnected (some (false, t, s)) = none

  unfoldable pub execute_on :
      Option Handle → Bytes → Tool → Server → Option (Bool × Option ℕ × Tool × Server)
  unfolding execute_unconnected execute_reconnected
  execute_on none sql t s = execute_unconnected (reconnect t s)
  execute_on (some h) sql t s =
      let (ret, s1) = mysql_query h (c_text sql) s in
      if ret == 0
      then some (true, none, t, s1)
      else if cr_server_gone_error == mysql_errno h s1
      then execute_reconnected sql (reconnect t s1)
      else some (false, none, t, s1)

  -- `Execute`: the result, and `nAffectedCount` where it is set.
  unfoldable pub tool_execute : Bytes → Tool → Server → Option (Bool × Option ℕ × Tool × Server)
  unfolding execute_on
  tool_execute sql t s = execute_on t.mysql sql t s
