-- ===== src/Models.antt =====
-- The table classes (src/server/model/*.cpp) over MySQL (src/server/db/db.cpp): the statements that
-- they send and what they make of the rows. The database is a parameter.
pub mod Statements
pub mod Mysql
use cluster_chat_server_with.Prelude.{
  ℕ, Bool, List, [], ◌∷◌, ◌++◌, Option, none, some, Bytes, take, get_or, if◌then◌else◌, ℤ, pos,
  negsuc, St,
}
use cluster_chat_server_with.Text.{codes, to_string}
use cluster_chat_server_with.Config.{atoi}

-- `MySQL::update` (whether the statement succeeded), `MySQL::query` (none for a null result, else
-- the rows in order), and `mysql_insert_id`.
pub record Database : Type 1 where
  pub State : Type 0
  pub update : Bytes → State → Bool × State
  pub query : Bytes → State → Option (List (List Bytes)) × State
  pub insert_id : State → ℤ

-- `User` (include/server/model/user.hpp), and `GroupUser` with its role.
pub record User : Type 0 where
  pub id : ℤ
  pub name : Bytes
  pub password : Bytes
  pub state : Bytes

pub record GroupUser : Type 0 where
  pub user : User
  pub role : Bytes

pub record Group : Type 0 where
  pub id : ℤ
  pub name : Bytes
  pub desc : Bytes
  pub users : List GroupUser

abbrev pub offline : Bytes
offline = codes "offline"

abbrev pub online : Bytes
online = codes "online"

-- `User()`
abbrev pub no_user : User
no_user = record { id = negsuc 0; name = []; password = []; state = offline }

abbrev pub column : List Bytes → ℕ → Bytes
column row i = get_or row i []

-- `snprintf` into `char sql[1024]` cuts the text at 1023 bytes.
unfoldable pub format_sql : Bytes → Bytes
format_sql text = take 1023 text

unfoldable pub insert_user_text : User → Bytes
insert_user_text u =
    codes "insert into user(name, password, state) values('"
    ++ (u.name ++ (codes "', '" ++ (u.password ++ (codes "', '" ++ (u.state ++ codes "')")))))

unfoldable pub update_state_text : User → Bytes
update_state_text u =
    codes "update user set state = '"
    ++ (u.state ++ (codes "' where id = '" ++ (to_string u.id ++ codes "'")))

unfoldable pub insert_offline_text : ℤ → Bytes → Bytes
insert_offline_text user_id msg =
    codes "insert into offlinemessage values("
    ++ (to_string user_id ++ (codes ", '" ++ (msg ++ codes "')")))

unfoldable pub insert_group_text : Group → Bytes
insert_group_text g =
    codes "insert into allgroup(groupname, groupdesc) values('"
    ++ (g.name ++ (codes "', '" ++ (g.desc ++ codes "')")))

unfoldable pub add_group_text : ℤ → ℤ → Bytes → Bytes
add_group_text user_id group_id role =
    codes "insert into groupuser values("
    ++ (to_string group_id
        ++ (codes ", " ++ (to_string user_id ++ (codes ", '" ++ (role ++ codes "')")))))

abbrev rows_or_none : Option (List (List Bytes)) → List (List Bytes)
rows_or_none none = []
rows_or_none (some rows) = rows

unfoldable pub read_user : Option (List (List Bytes)) → User
read_user (some (row ∷ rows)) = record {
  id = atoi (column row 0);
  name = column row 1;
  password = column row 2;
  state = column row 3;
}
read_user _ = no_user

unfoldable pub read_friends : List (List Bytes) → List User
read_friends [] = []
read_friends (row ∷ rows) =
    record { id = atoi (column row 0); name = column row 1; password = []; state = column row 2 }
    ∷ read_friends rows

unfoldable pub read_groups : List (List Bytes) → List Group
read_groups [] = []
read_groups (row ∷ rows) =
    record { id = atoi (column row 0); name = column row 1; desc = column row 2; users = [] }
    ∷ read_groups rows

unfoldable pub read_members : List (List Bytes) → List GroupUser
read_members [] = []
read_members (row ∷ rows) =
    record {
      user = record {
        id = atoi (column row 0);
        name = column row 1;
        password = [];
        state = column row 2;
      };
      role = column row 3;
    }
    ∷ read_members rows

unfoldable pub read_ids : List (List Bytes) → List ℤ
read_ids [] = []
read_ids (row ∷ rows) = atoi (column row 0) ∷ read_ids rows

unfoldable pub read_messages : List (List Bytes) → List Bytes
read_messages [] = []
read_messages (row ∷ rows) = column row 0 ∷ read_messages rows

module _ (d : Database) where
  abbrev rows_of : Bytes → St d.State (List (List Bytes))
  rows_of sql s = let r = d.query sql s in (rows_or_none r.0, r.1)

  -- `UserModel::insert`: the id is set on success.
  unfoldable pub insert_user : User → St d.State (Option User)
  unfolding insert_user_text format_sql
  insert_user u s =
      let (ok, s') = d.update (format_sql (insert_user_text u)) s in
      if ok then (some (record u { id = d.insert_id s' }), s') else (none, s')

  unfoldable pub query_user : ℤ → St d.State User
  unfolding read_user format_sql
  query_user id s =
      let (rows, s') =
        d.query (format_sql (codes "select * from user where id = " ++ to_string id)) s in
      (read_user rows, s')

  unfoldable pub update_state : User → St d.State Bool
  unfolding update_state_text format_sql
  update_state u = d.update (format_sql (update_state_text u))

  unfoldable pub reset_state : St d.State Bool
  reset_state = d.update (codes "update user set state = 'offline' where state = 'online'")

  unfoldable pub insert_offline : ℤ → Bytes → St d.State Bool
  unfolding insert_offline_text format_sql
  insert_offline user_id msg = d.update (format_sql (insert_offline_text user_id msg))

  unfoldable pub remove_offline : ℤ → St d.State Bool
  unfolding format_sql
  remove_offline user_id =
      d.update
        (format_sql (codes "delete from offlinemessage where userid = " ++ to_string user_id))

  unfoldable pub query_offline : ℤ → St d.State (List Bytes)
  unfolding read_messages format_sql
  query_offline user_id s =
      let (rows, s') =
        rows_of
          (format_sql
            (codes "select message from offlinemessage where userid = " ++ to_string user_id))
          s in
      (read_messages rows, s')

  unfoldable pub insert_friend : ℤ → ℤ → St d.State Bool
  unfolding format_sql
  insert_friend user_id friend_id = d.update (
      format_sql (
        codes "insert into friend values("
        ++ (to_string user_id ++ (codes ", " ++ (to_string friend_id ++ codes ")")))))

  unfoldable pub query_friends : ℤ → St d.State (List User)
  unfolding read_friends format_sql
  query_friends user_id s =
      let (rows, s') =
        rows_of
          (format_sql (
            codes
              "select u.id, u.name, u.state from friend f join user u on f.friendid = u.id where f.userid = "
            ++ to_string user_id))
          s in
      (read_friends rows, s')

  unfoldable pub create_group : Group → St d.State (Option Group)
  unfolding insert_group_text format_sql
  create_group g s =
      let (ok, s') = d.update (format_sql (insert_group_text g)) s in
      if ok then (some (record g { id = d.insert_id s' }), s') else (none, s')

  unfoldable pub add_group : ℤ → ℤ → Bytes → St d.State Bool
  unfolding add_group_text format_sql
  add_group user_id group_id role = d.update (format_sql (add_group_text user_id group_id role))

  -- The second loop of `queryGroups`.
  unfoldable pub fill_groups : List Group → St d.State (List Group)
  unfolding read_members format_sql
  fill_groups [] s = ([], s)
  fill_groups (g ∷ gs) s =
      let (rows, s') =
        rows_of
          (format_sql (
            codes
              "select u.id, u.name, u.state, g.grouprole from user u join groupuser g on g.userid = u.id where g.groupid = "
            ++ to_string g.id))
          s in
      let (rest, s'') = fill_groups gs s' in
      (record g { users = g.users ++ read_members rows } ∷ rest, s'')

  unfoldable pub query_groups : ℤ → St d.State (List Group)
  unfolding fill_groups read_groups
  query_groups user_id s =
      let (rows, s') =
        rows_of
          (format_sql (
            codes
              "select a.id, a.groupname, a.groupdesc from allgroup a join groupuser g on a.id = g.groupid where g.userid = "
            ++ to_string user_id))
          s in
      fill_groups (read_groups rows) s'

  unfoldable pub query_group_users : ℤ → ℤ → St d.State (List ℤ)
  unfolding read_ids format_sql
  query_group_users user_id group_id s =
      let (rows, s') =
        rows_of
          (format_sql (
            codes "select userid from groupuser where groupid = "
            ++ (to_string group_id ++ (codes " and userid != " ++ to_string user_id))))
          s in
      (read_ids rows, s')
