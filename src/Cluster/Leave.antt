-- ===== src/Cluster/Leave.antt =====
-- A node that is interrupted (`resetHandler`, src/server/main.cpp) leaves the cluster.
use cluster_chat_server_with.Prelude.{
  if_holds, ℕ, ◌≡◌, refl, sym, ap, ◌∙◌, Bool, true, false, List, [], ◌∷◌, Bytes, All, ℤ, Map,
  bytes_eq_inst, subst,
}
use cluster_chat_server_with.Text.{to_string}
use cluster_chat_server_with.Json.{Json}
use cluster_chat_server_with.Models.{Database}
use cluster_chat_server_with.Redis.{RedisServer, node_users_key, session_key, get_node_users}
use cluster_chat_server_with.Redis.Store.{IsStore}
use cluster_chat_server_with.Redis.Sessions.{
  IsKeyed, SessionCall, Sessions, Shows, IsProper, all_asked, all_promised,
}
use cluster_chat_server_with.Redis.Promises.{sessions_refine}
use cluster_chat_server_with.Redis.Index.{has, IsIndex, Indexed, all_asked-Indexed}
use cluster_chat_server_with.Registry.{Sys, ask, stop, cleanup_self}
use cluster_chat_server_with.Registry.Plane.{ControlPlane, redis_plane}
use cluster_chat_server_with.Registry.Cleanup.{
  Leaves, same-Shows, get_node_users-lem, cleanup_self-Leaves,
}
use cluster_chat_server_with.Router.Table.{Router, stop_at, stop_each, close_all}
use cluster_chat_server_with.Service.Connections.{Conn}
use cluster_chat_server_with.Service.Chat.{Peers, peers}
use cluster_chat_server_with.Service.Session.{set_offline, reset}
use cluster_chat_server_with.Cluster.Machine.{
  in_registry, in_tables, stop_registry, close_router, cluster_peers,
}
use cluster_chat_server_with.Cluster.Start.{ChatNode, reset_handler}

stop_each-table : (items : Map Bytes ℕ) (r : Router) → (stop_each r items).0.conn_map ≡ r.conn_map
unfolding stop_each stop_at
stop_each-table [] r = refl
stop_each-table ((key, p) ∷ items) r = stop_each-table items _

close_all-table : (r : Router) → (close_all r).0.conn_map ≡ []
unfolding close_all
close_all-table r = stop_each-table r.conn_map _

module _ (c : ControlPlane) (b : Database) (j : Json) (hash : Bytes → ℕ) (loop_of : Conn → ℕ)
    (in_loop : ℕ → Bool) where
  set_offline-rest :
      (users : List ℤ) (s : ChatNode c b j hash loop_of in_loop)
      → let s' = (set_offline (cluster_peers c b j hash) loop_of in_loop users s).1 in
        (s'.world.sys ≡ s.world.sys) × (s'.world.router ≡ s.world.router)
  unfolding set_offline in_tables peers
  set_offline-rest [] s = (refl, refl)
  set_offline-rest (u ∷ us) s = set_offline-rest us _

module _ (r : RedisServer) (d : IsStore r) (k : IsKeyed r d) (x : IsIndex r d)
    (clock : r.State → ℕ × r.State) (wall_ms : r.State → ℤ) (b : Database) (j : Json)
    (hash : Bytes → ℕ) (loop_of : Conn → ℕ) (in_loop : ℕ → Bool) where
  abbrev C : ControlPlane
  C = redis_plane r clock wall_ms

  abbrev N : Type 0
  N = ChatNode C b j hash loop_of in_loop

  abbrev HasLeft : N → Sessions → N → Type 0
  HasLeft s now s' =
      Leaves r d k x clock wall_ms s.world.sys now s'.world.sys × (s'.world.router.conn_map ≡ [])

  -- The registry that `cleanupSelf` is called on.
  abbrev read_users : N → r.State
  read_users s = (get_node_users r s.self_node.node_id s.world.sys.world).1

  abbrev stopped : N → Sys C
  stopped s = record {
    registry = record s.world.sys.registry { running = false };
    world = read_users s;
  }

  stopped-Leaves :
      (s : N) (now : Sessions)
      → Shows r d s.world.sys.world now
      → Indexed r d k x s.world.sys.world now
      → Leaves r d k x clock wall_ms s.world.sys now (cleanup_self C (stopped s)).1
  stopped-Leaves s now shown in_sets =
      let n = s.self_node.node_id in
      let w = s.world.sys.world in
      let state = ap (λ q. q.1) (get_node_users-lem r d k x clock wall_ms n w) in
      cleanup_self-Leaves r d k x clock wall_ms (stopped s) now
        (same-Shows r d k x clock wall_ms w (read_users s) now
          (λ u.
            ap (λ v. d.value_of v (session_key u)) state
            ∙ x.listed_values (node_users_key n) (session_key u) w)
          shown)
        (λ u m i e.
          ap (λ v. has (to_string u) (x.members_of v (node_users_key m))) state
          ∙ ap (has (to_string u)) (x.listed_members (node_users_key n) (node_users_key m) w)
          ∙ in_sets u m i e)

  abbrev Q : Peers
  Q = cluster_peers C b j hash

  -- The users that `reset` sets offline, and the node before that.
  abbrev listed_users : N → List ℤ
  listed_users s = (peers Q loop_of in_loop (Q.get_node_users s.self_node.node_id) s).0

  abbrev closed : N → N
  closed s =
      let s1 = (peers Q loop_of in_loop (Q.get_node_users s.self_node.node_id) s).1 in
      let s2 = (peers Q loop_of in_loop Q.stop_registry s1).1 in
      (peers Q loop_of in_loop Q.close_all s2).1

  reset-HasLeft :
      (s : N) (now : Sessions)
      → s.clustered ≡ true
      → Shows r d s.world.sys.world now
      → Indexed r d k x s.world.sys.world now
      → HasLeft s now (reset_handler C b j hash loop_of in_loop s)
  unfolding reset_handler reset in_registry stop_registry close_router peers stop ask
  reset-HasLeft s now clustered shown in_sets =
      if_holds (λ (q : Unit {0} × N). HasLeft s now q.1) s.clustered _ _ clustered
        (let (sys, router) =
            set_offline-rest C b j hash loop_of in_loop (listed_users s) (closed s) in
          (
            subst (λ v. Leaves r d k x clock wall_ms s.world.sys now v) (sym sys)
                (stopped-Leaves s now shown in_sets),
            ap (λ v. v.conn_map) router ∙ close_all-table s.world.router,
          ))

  -- A node of the cluster is interrupted after any calls of the nodes on the sessions in Redis: it
  -- leaves the sessions of a map in which no user is its own, and every other user has what it had
  -- before, or none; and its table of channels is empty. Redis answers as documented; at the
  -- start, the store shows a map of sessions and has each of them in the set of its node.
  pub reset_handler-Leaves :
      (cs : List SessionCall) (w : r.State) (t : Sessions) (s : N)
      → s.clustered ≡ true
      → All IsProper cs
      → Shows r d w t
      → Indexed r d k x w t
      → s.world.sys.world ≡ (all_asked r cs w).1
      → let s' = reset_handler C b j hash loop_of in_loop s in
        Leaves r d k x clock wall_ms s.world.sys (all_promised cs t).1 s'.world.sys
        × (s'.world.router.conn_map ≡ [])
  reset_handler-Leaves cs w t s clustered proper shows indexed e =
      let now = (all_promised cs t).1 in
      reset-HasLeft s now clustered
        (subst (λ v. Shows r d v now) (sym e) (sessions_refine r d k cs w t proper shows).1)
        (subst (λ v. Indexed r d k x v now) (sym e)
          (all_asked-Indexed r d k x cs w t proper shows indexed))
