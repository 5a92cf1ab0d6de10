-- ===== src/Service/Group.antt =====
-- `ChatService::groupChat` (src/server/chatservice.cpp).
use cluster_chat_server_with.Prelude.{
  ℕ, Bool, true, false, List, [], ◌∷◌, ◌++◌, Option, none, some, Bytes, is_empty, if◌then◌else◌, ℤ,
  Map, find, assign, bytes_eq_inst, St,
}
use cluster_chat_server_with.Types.{NodeMeta}
use cluster_chat_server_with.Service.Connections.{Conn, Buckets, get_local_connection}
use cluster_chat_server_with.Service.Chat.{
  Peers, Node, peers, count_local, count_remote, count_remote_fail, count_stale, is_self, resolve,
  store_offline,
}

-- `remoteNodeUsers`
abbrev pub Groups : Type 0
Groups = Map Bytes (List ℤ)

abbrev pub users_at : Bytes → Groups → List ℤ
users_at node_id groups = elim (find node_id groups) [ none ↦ [] | some users ↦ users ]

-- `remoteNodeUsers[nodeId].push_back(id)`
unfoldable pub push_user : Bytes → ℤ → Groups → Groups
push_user node_id id groups = assign node_id (users_at node_id groups ++ id ∷ []) groups

-- One member in the first loop: to `localConns`, or to `unresolvedIds`.
abbrev pub sort_member : Option Conn → ℤ → List Conn × List ℤ → List Conn × List ℤ
sort_member none id (conns, ids) = (conns, id ∷ ids)
sort_member (some conn) id (conns, ids) = (conn ∷ conns, ids)

-- The first loop: `localConns` and `unresolvedIds`.
unfoldable pub split_local : List ℤ → Buckets → List Conn × List ℤ
split_local [] bs = ([], [])
split_local (id ∷ rest) bs = sort_member (get_local_connection id bs) id (split_local rest bs)

module _ (p : Peers) (loop_of : Conn → ℕ) (in_loop : ℕ → Bool) where
  -- The lists that the second loop fills: `remoteNodeUsers` and `offlineIds`.
  unfoldable pub place :
      Option (Bytes × NodeMeta)
      → ℤ
      → Groups
      → List ℤ
      → St (Node p loop_of in_loop) (Groups × List ℤ)
  unfolding push_user
  place none id groups offline s = ((groups, offline ++ id ∷ []), s)
  place (some (node_id, meta)) id groups offline s =
      let (_, s1) = count_stale p loop_of in_loop s in
      let (_, s2) = peers p loop_of in_loop (p.unbind_user id) s1 in
      if is_self p loop_of in_loop node_id s
      then ((groups, offline ++ id ∷ []), s2)
      else ((push_user node_id id groups, offline), s)

  unfoldable pub resolve_each :
      List ℤ → Groups → List ℤ → St (Node p loop_of in_loop) (Groups × List ℤ)
  unfolding place
  resolve_each [] groups offline s = ((groups, offline), s)
  resolve_each (id ∷ rest) groups offline s =
      let (found, s1) = resolve p loop_of in_loop id s in
      let (filled, s2) = place found id groups offline s1 in resolve_each rest filled.0 filled.1 s2

  -- `userConn->send(msg)`
  unfoldable pub send_local : List Conn → Bytes → St (Node p loop_of in_loop) (Unit {0})
  send_local [] msg s = (tt, s)
  send_local (conn ∷ rest) msg s =
      let sent = record s { outbox = s.outbox ++ record { conn = conn; msg = msg } ∷ [] } in
      send_local rest msg (count_local p loop_of in_loop sent).1

  -- `sendGroupChat` to the node of one entry, whose data `queryNode` gave.
  unfoldable pub send_entry :
      Option NodeMeta → ℤ → List ℤ → Bytes → St (Node p loop_of in_loop) Bool
  send_entry none user_id users msg s = (false, s)
  send_entry (some meta) user_id users msg s =
      let (_, s1) = peers p loop_of in_loop (p.prewarm_node meta) s in
      let (trace, s2) = peers p loop_of in_loop (p.build_trace_id user_id) s1 in
      peers p loop_of in_loop (p.send_group_chat meta s2.self_node.node_id users msg trace) s2

  unfoldable pub query_entry : Bytes → St (Node p loop_of in_loop) (Option NodeMeta)
  query_entry node_id s =
      if s.clustered then peers p loop_of in_loop (p.query_node node_id) s else (none, s)

  -- `++remoteRouteCount_; continue;`, or the entry's users join the offline ones.
  unfoldable pub close_entry : Bool → List ℤ → List ℤ → St (Node p loop_of in_loop) (List ℤ)
  close_entry true users offline s = (offline, (count_remote p loop_of in_loop s).1)
  close_entry false users offline s = (offline ++ users, (count_remote_fail p loop_of in_loop s).1)

  unfoldable pub send_each : Groups → ℤ → Bytes → List ℤ → St (Node p loop_of in_loop) (List ℤ)
  unfolding query_entry send_entry close_entry
  send_each [] user_id msg offline s = (offline, s)
  send_each ((node_id, users) ∷ rest) user_id msg offline s =
      let (meta, s1) = query_entry node_id s in
      let (sent, s2) = send_entry meta user_id users msg s1 in
      let (offline2, s3) = close_entry sent users offline s2 in
      send_each rest user_id msg offline2 s3

  unfoldable pub store_each : List ℤ → Bytes → St (Node p loop_of in_loop) (Unit {0})
  store_each [] msg s = (tt, s)
  store_each (id ∷ rest) msg s = store_each rest msg (store_offline p loop_of in_loop id msg s).1

  -- `groupChat` for the members that `queryGroupUsers` gave.
  unfoldable pub send_group : ℤ → List ℤ → Bytes → St (Node p loop_of in_loop) (Unit {0})
  unfolding split_local resolve_each send_local send_each store_each
  send_group user_id members msg s =
      let (conns, unresolved) = split_local members s.buckets in
      let (filled, s1) = resolve_each unresolved [] [] s in
      let (_, s2) = send_local conns msg s1 in
      let (offline, s3) = send_each filled.0 user_id msg filled.1 s2 in store_each offline msg s3

  -- `groupChat` on a request whose text is `msg`. A group without other members ends it at once;
  -- the loops over no members would do the same.
  unfoldable pub group_chat : ℤ → ℤ → Bytes → St (Node p loop_of in_loop) (Unit {0})
  unfolding send_group
  group_chat user_id group_id msg s =
      let (members, s1) = peers p loop_of in_loop (p.query_group_users user_id group_id) s in
      if is_empty members then (tt, s1) else send_group user_id members msg s1
