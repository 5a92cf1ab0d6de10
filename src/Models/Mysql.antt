-- ===== src/Models/Mysql.antt =====
-- `MySQL` (src/server/db/db.cpp) over the MySQL client library, which is a parameter. It fills the
-- interface of the table classes.
use cluster_chat_server_with.Prelude.{
  Bool, true, false, List, ◌++◌, Option, none, Bytes, if◌then◌else◌, ℤ, pos, St,
}
use cluster_chat_server_with.Text.{codes}
use cluster_chat_server_with.Config.{Environment, get_env_or_default, get_env_int_or_default}
use cluster_chat_server_with.Models.{Database}

-- The arguments of `mysql_real_connect`.
pub record Credentials : Type 0 where
  pub server : Bytes
  pub user : Bytes
  pub password : Bytes
  pub dbname : Bytes
  pub port : ℤ

-- `mysql_query` gives whether its result is not zero, which means an error.
pub record MysqlClient : Type 1 where
  pub State : Type 0
  pub real_connect : Credentials → State → Bool × State
  pub mysql_query : Bytes → State → Bool × State
  pub use_result : State → Option (List (List Bytes)) × State
  pub insert_id : State → ℤ

unfoldable pub login_of : Environment → Credentials
login_of env = record {
  server = get_env_or_default env (codes "CHAT_DB_HOST") (codes "127.0.0.1");
  user = get_env_or_default env (codes "CHAT_DB_USER") (codes "cppuser");
  password = get_env_or_default env (codes "CHAT_DB_PASSWORD") (codes "default_pwd");
  dbname = get_env_or_default env (codes "CHAT_DB_NAME") (codes "chat");
  port = get_env_int_or_default env (codes "CHAT_DB_PORT") (pos 3306);
}

module _ (m : MysqlClient) where
  -- `MySQL::connect`
  unfoldable pub connect : Environment → St m.State Bool
  unfolding login_of
  connect env w =
      let charset = get_env_or_default env (codes "CHAT_DB_CHARSET") (codes "gbk") in
      let (connected, opened) = m.real_connect (login_of env) w in
      let (_, named) = m.mysql_query (codes "set names " ++ charset) opened in
      if connected then (true, named) else (false, opened)

  unfoldable pub update : Bytes → St m.State Bool
  update sql w = let (failed, t) = m.mysql_query sql w in if failed then (false, t) else (true, t)

  unfoldable pub query : Bytes → St m.State (Option (List (List Bytes)))
  query sql w =
      let (failed, t) = m.mysql_query sql w in
      let result = m.use_result t in if failed then (none, t) else result

  abbrev pub mysql_database : Database
  mysql_database = record {
    State = m.State;
    update = update;
    query = query;
    insert_id = m.insert_id;
  }
