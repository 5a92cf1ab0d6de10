-- ===== src/Cluster/Moves.antt =====
-- A user leaves one node and logs in at another (`logout`, `clientCloseException` and `login`,
-- src/server/chatservice.cpp, over their registries and one Redis).
use cluster_chat_server_with.Prelude.{
  if_holds, if_fails, ℕ, ◌<◌, ◌≡◌, ap, ◌∙◌, Bool, true, false, ◌&&◌, none, some, Bytes, length, ℤ,
  negsuc, int_eq, bytes_eq, find, int_eq_inst, subst,
}
use cluster_chat_server_with.Json.{Json}
use cluster_chat_server_with.Models.{Database}
use cluster_chat_server_with.Redis.{RedisServer, session_key, session_value}
use cluster_chat_server_with.Redis.Store.{IsStore}
use cluster_chat_server_with.Redis.Sessions.{IsKeyed}
use cluster_chat_server_with.Redis.Promises.{unbind-Deletes}
use cluster_chat_server_with.Registry.{ask, unbind_user, erase_cached_user_node}
use cluster_chat_server_with.Registry.Plane.{ControlPlane, redis_plane}
use cluster_chat_server_with.Registry.Shared.{ClockKeeps, IsRegistered, bind_user-Bound}
use cluster_chat_server_with.Service.Connections.{
  Conn, get_local_connection, remove_local_connection_by_conn,
}
use cluster_chat_server_with.Service.Chat.{Peers, peers}
use cluster_chat_server_with.Service.Login.{login-Leaves}
use cluster_chat_server_with.Service.Session.{login, logout, client_close_exception, unbind_session}
use cluster_chat_server_with.Cluster.Machine.{cluster_peers, in_registry, in_tables}
use cluster_chat_server_with.Cluster.Start.{ChatNode}
use cluster_chat_server_with.Cluster.LoggedIn.{
  is_admitted, CanLogIn, user_row, looked, looked-free, login-Done,
}
use cluster_chat_server_with.Cluster.Reached.{admitted-connected}

-- How a user leaves a node: by a logout, or by the end of the connection.
pub data Bye : Type 0 where
  logs_out : Bye
  closes : Conn → Bye

module _ (r : RedisServer) (d : IsStore r) (k : IsKeyed r d) (clock : r.State → ℕ × r.State)
    (wall_ms : r.State → ℤ) (b : Database) (j : Json) (hash : Bytes → ℕ) (loop_of : Conn → ℕ)
    (in_loop : ℕ → Bool) where
  abbrev C : ControlPlane
  C = redis_plane r clock wall_ms

  abbrev N : Type 0
  N = ChatNode C b j hash loop_of in_loop

  abbrev P : Peers
  P = cluster_peers C b j hash

  abbrev IsFreed : ℤ → N → Type 0
  IsFreed id s = d.value_of s.world.sys.world (session_key id) ≡ none

  unbound-IsFreed :
      (id : ℤ) (s : N) → s.clustered ≡ true → IsFreed id (unbind_session P loop_of in_loop id s).1
  unfolding unbind_session peers in_registry unbind_user ask erase_cached_user_node
  unbound-IsFreed id s clustered =
      let w = s.world.sys.world in
      let key = session_key id in
      if_holds (λ (q : Unit {0} × N). IsFreed id q.1) s.clustered _ _ clustered
        ((unbind-Deletes r d k id s.world.sys.registry.self_node.node_id w).1 key
          ∙ k.deleted_value key w)

  logout-IsFreed :
      (id : ℤ) (s : N) → s.clustered ≡ true → IsFreed id (logout P loop_of in_loop id s).1
  unfolding logout peers in_tables
  logout-IsFreed id s clustered = unbound-IsFreed id _ clustered

  -- The user whom the end of the connection takes out is the one in question.
  abbrev IsUserOf : Conn → ℤ → N → Type 0
  IsUserOf conn id s =
      ((remove_local_connection_by_conn conn s.buckets).0 ≡ id)
      × (int_eq (remove_local_connection_by_conn conn s.buckets).0 (negsuc 0) ≡ false)

  abbrev pub Ends : Bye → ℤ → N → Type 0
  Ends logs_out id s = Unit
  Ends (closes conn) id s = IsUserOf conn id s

  abbrev pub left : Bye → ℤ → N → N
  left logs_out id s = (logout P loop_of in_loop id s).1
  left (closes conn) id s = (client_close_exception P loop_of in_loop conn s).1

  closed-IsFreed :
      (conn : Conn) (id : ℤ) (s : N)
      → s.clustered ≡ true
      → IsUserOf conn id s
      → IsFreed id (client_close_exception P loop_of in_loop conn s).1
  unfolding client_close_exception peers in_tables
  closed-IsFreed conn id s clustered (is_user, some_user) =
      let q = remove_local_connection_by_conn conn s.buckets in
      let freed = unbound-IsFreed q.0 (record s { buckets = q.1 }) clustered in
      if_fails (λ (p : Unit {0} × N). IsFreed id p.1) (int_eq q.0 (negsuc 0)) _ _ some_user
        (subst
          (λ u. IsFreed u (unbind_session P loop_of in_loop q.0 (record s { buckets = q.1 })).1)
          is_user freed)

  left-IsFreed :
      (bye : Bye) (id : ℤ) (s : N) → s.clustered ≡ true → Ends bye id s → IsFreed id (left bye id s)
  left-IsFreed logs_out id s clustered ends = logout-IsFreed id s clustered
  left-IsFreed (closes conn) id s clustered ends = closed-IsFreed conn id s clustered ends

  -- The other node shares the store, as the first one left it, has no route of the user, is
  -- registered, and gets the right password.
  pub record Comes (id : ℤ) (pwd : Bytes) (w : r.State) (t : N) : Type 0 where
    pub same_store : t.world.sys.world ≡ w
    pub has_bucket : 0 < length t.buckets
    pub in_cluster : t.clustered ≡ true
    pub is_right :
        (int_eq (user_row r d k clock wall_ms b j hash loop_of in_loop id t).id id
          && bytes_eq (user_row r d k clock wall_ms b j hash loop_of in_loop id t).password pwd)
        ≡ true
    pub no_own_route : find id t.world.sys.registry.user_routes ≡ none
    pub clock_keeps : ClockKeeps r d clock wall_ms
    pub is_registered :
        IsRegistered r d clock wall_ms t.world.sys.registry.self_node t.world.sys.world

  abbrev can_log_in :
      (id : ℤ) (pwd : Bytes) (s t : N)
      → IsFreed id s
      → Comes id pwd s.world.sys.world t
      → CanLogIn r d k clock wall_ms b j hash loop_of in_loop id pwd t
  can_log_in id pwd s t freed c = record {
    has_bucket = c.has_bucket;
    in_cluster = c.in_cluster;
    is_right = c.is_right;
    no_own_route = c.no_own_route;
    nobody_has = ap (λ w. d.value_of w (session_key id)) c.same_store ∙ freed;
    clock_keeps = c.clock_keeps;
    is_registered = c.is_registered;
  }

  -- A user leaves a node of the cluster, by a logout or by the end of the connection that the
  -- node has for the user, and logs in at another node of the cluster, with the right password:
  -- the login is admitted, the other node has the user with the connection of the login, and the
  -- store has the session of the user at that node. The other node shares the store as the first
  -- one left it, is registered and has no route of the user in its cache; Redis answers as
  -- documented, and to read the clock changes nothing in it.
  pub login_moves :
      (bye : Bye) (conn : Conn) (id : ℤ) (pwd : Bytes) (s t : N)
      → s.clustered ≡ true
      → Ends bye id s
      → Comes id pwd (left bye id s).world.sys.world t
      → let q = login P loop_of in_loop conn id pwd t in
        let self = t.world.sys.registry.self_node in
        (is_admitted q.0 ≡ true)
        × (get_local_connection id q.1.buckets ≡ some conn)
        × (d.value_of q.1.world.sys.world (session_key id)
            ≡ some (session_value self.node_id self.instance_id))
  login_moves bye conn id pwd s t clustered ends c =
      let h = can_log_in id pwd (left bye id s) t (left-IsFreed bye id s clustered ends) c in
      let q = login P loop_of in_loop conn id pwd t in
      let (let_in, same) =
        login-Done r d k clock wall_ms b j hash loop_of in_loop conn id pwd t h in
      let (leaves, _) = login-Leaves P loop_of in_loop conn id pwd t h.has_bucket in
      let (_, held, _) =
        bind_user-Bound r d clock wall_ms id (looked r clock wall_ms id t.world.sys) h.clock_keeps
          (looked-free r d k id t.world.sys.world h.nobody_has) in
      (
        let_in,
        admitted-connected conn id t.buckets q.1.buckets q.0 let_in leaves,
        ap (λ v. d.value_of v.world (session_key id)) same ∙ held,
      )
