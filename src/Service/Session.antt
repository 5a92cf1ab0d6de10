-- ===== src/Service/Session.antt =====
-- The handlers that begin and end a user's session, and those that only change a table
-- (src/server/chatservice.cpp).
use cluster_chat_server_with.Prelude.{
  ℕ, Bool, true, false, ◌&&◌, List, [], ◌∷◌, Option, none, some, Bytes, is_empty, if◌then◌else◌, ℤ,
  negsuc, int_eq, bytes_eq, St,
}
use cluster_chat_server_with.Text.{codes}
use cluster_chat_server_with.Models.{User, Group, no_user, offline, online}
use cluster_chat_server_with.Service.Connections.{
  Conn, add_local_connection, remove_local_connection, remove_local_connection_by_conn,
}
use cluster_chat_server_with.Service.Chat.{Peers, Node, peers, count_stale}

-- The errors 1, 2 and 3 of a login.
pub data Refusal : Type 0 where
  invalid in_use not_registered : Refusal

-- What `login` sends back.
pub data Reply : Type 0 where
  refused : Refusal → Reply
  admitted : ℤ → Bytes → List Bytes → List User → List Group → Reply

abbrev pub offline_user : ℤ → User
offline_user id = record no_user { id = id; state = offline }

module _ (p : Peers) (loop_of : Conn → ℕ) (in_loop : ℕ → Bool) where
  -- The reply of a login that succeeded, which takes the offline messages out of their table.
  unfoldable pub greet : User → ℤ → St (Node p loop_of in_loop) Reply
  greet user id s =
      let (messages, s1) = peers p loop_of in_loop (p.query_offline id) s in
      let (_, s2) = peers p loop_of in_loop (p.remove_offline id) s1 in
      let s3 = if is_empty messages then s1 else s2 in
      let (friends, s4) = peers p loop_of in_loop (p.query_friends id) s3 in
      let (groups, s5) = peers p loop_of in_loop (p.query_groups id) s4 in
      (admitted user.id user.name messages friends groups, s5)

  -- What follows `bindUser`.
  unfoldable pub finish_login : Bool → User → ℤ → St (Node p loop_of in_loop) Reply
  unfolding greet
  finish_login false user id s =
      (refused not_registered, record s { buckets = remove_local_connection id s.buckets })
  finish_login true user id s =
      let (_, t) = peers p loop_of in_loop (p.update_state (record user { state = online })) s in
      greet (record user { state = online }) id t

  -- A user whom the table has as online, but who has no session.
  unfoldable pub clear_stale : User → St (Node p loop_of in_loop) (Unit {0})
  clear_stale user s =
      let (_, t) = peers p loop_of in_loop (p.update_state (record user { state = offline })) s in
      if bytes_eq user.state online then count_stale p loop_of in_loop t else (tt, s)

  unfoldable pub bind_session : ℤ → St (Node p loop_of in_loop) Bool
  bind_session id s = if s.clustered then peers p loop_of in_loop (p.bind_user id) s else (true, s)

  unfoldable pub admit : Conn → User → ℤ → St (Node p loop_of in_loop) Reply
  unfolding clear_stale bind_session finish_login
  admit conn user id s =
      let (_, s1) = clear_stale user s in
      let s2 = record s1 { buckets = add_local_connection id conn s1.buckets } in
      let (bound, s3) = bind_session id s2 in finish_login bound user id s3

  unfoldable pub find_session : ℤ → St (Node p loop_of in_loop) (Option Bytes)
  find_session id s =
      if s.clustered then peers p loop_of in_loop (p.query_user_node id) s else (none, s)

  unfoldable pub check_session_free :
      Option Bytes → Conn → User → ℤ → St (Node p loop_of in_loop) Reply
  unfolding admit
  check_session_free (some node_id) conn user id s = (refused in_use, s)
  check_session_free none conn user id s = admit conn user id s

  unfoldable pub login : Conn → ℤ → Bytes → St (Node p loop_of in_loop) Reply
  unfolding find_session check_session_free
  login conn id pwd s =
      let (user, s1) = peers p loop_of in_loop (p.query_user id) s in
      let (session, s2) = find_session id s1 in
      if int_eq user.id id && bytes_eq user.password pwd
      then check_session_free session conn user id s2
      else (refused invalid, s2)

  -- The id of the new user, or none for error 1.
  unfoldable pub reg : Bytes → Bytes → St (Node p loop_of in_loop) (Option ℤ)
  reg name pwd s =
      let (made, t) =
        peers p loop_of in_loop (p.insert_user (record no_user { name = name; password = pwd }))
          s in
      (elim made [ none ↦ none | some user ↦ some user.id ], t)

  unfoldable pub unbind_session : ℤ → St (Node p loop_of in_loop) (Unit {0})
  unbind_session id s =
      if s.clustered then (tt, (peers p loop_of in_loop (p.unbind_user id) s).1) else (tt, s)

  unfoldable pub logout : ℤ → St (Node p loop_of in_loop) (Unit {0})
  unfolding unbind_session
  logout id s =
      let s1 = record s { buckets = remove_local_connection id s.buckets } in
      let (_, s2) = unbind_session id s1 in
      (tt, (peers p loop_of in_loop (p.update_state (offline_user id)) s2).1)

  unfoldable pub client_close_exception : Conn → St (Node p loop_of in_loop) (Unit {0})
  unfolding unbind_session
  client_close_exception conn s =
      let (id, rest) = remove_local_connection_by_conn conn s.buckets in
      let s1 = record s { buckets = rest } in
      if int_eq id (negsuc 0)
      then (tt, s1)
      else let (_, s2) = unbind_session id s1 in
        (tt, (peers p loop_of in_loop (p.update_state (offline_user id)) s2).1)

  unfoldable pub add_friend : ℤ → ℤ → St (Node p loop_of in_loop) (Unit {0})
  add_friend user_id friend_id s =
      (tt, (peers p loop_of in_loop (p.insert_friend user_id friend_id) s).1)

  -- The creator joins a group that could be created.
  unfoldable pub join_created : Option Group → ℤ → St (Node p loop_of in_loop) (Unit {0})
  join_created none user_id s = (tt, s)
  join_created (some g) user_id s =
      (tt, (peers p loop_of in_loop (p.add_group user_id g.id (codes "creator")) s).1)

  unfoldable pub open_group : ℤ → Bytes → Bytes → St (Node p loop_of in_loop) (Unit {0})
  unfolding join_created
  open_group user_id name desc s =
      let (made, t) =
        peers p loop_of in_loop
          (p.create_group (record { id = negsuc 0; name = name; desc = desc; users = [] })) s in
      join_created made user_id t

  unfoldable pub join_group : ℤ → ℤ → St (Node p loop_of in_loop) (Unit {0})
  join_group user_id group_id s =
      (tt, (peers p loop_of in_loop (p.add_group user_id group_id (codes "normal")) s).1)

  unfoldable pub set_offline : List ℤ → St (Node p loop_of in_loop) (Unit {0})
  set_offline [] s = (tt, s)
  set_offline (id ∷ rest) s =
      set_offline rest (peers p loop_of in_loop (p.update_state (offline_user id)) s).1

  -- `reset`. `stop_registry` is `stop` and `cleanupSelf`.
  unfoldable pub reset : St (Node p loop_of in_loop) (Unit {0})
  unfolding set_offline
  reset s =
      let (users, s1) = peers p loop_of in_loop (p.get_node_users s.self_node.node_id) s in
      let (_, s2) = peers p loop_of in_loop p.stop_registry s1 in
      let (_, s3) = peers p loop_of in_loop p.close_all s2 in
      if s.clustered
      then set_offline users s3
      else (tt, (peers p loop_of in_loop p.reset_state s).1)
