-- ===== src/Cluster/Bound.antt =====
-- A session that one node binds in Redis, and a chat message to its user on another node.
use cluster_chat_server_with.Prelude.{
  ℕ, ◌+◌, ◌≡◌, ap, Bool, false, true, [], ◌∷◌, ◌++◌, none, Bytes, ℤ, find, bytes_eq, bytes_eq_inst,
  int_eq_inst,
}
use cluster_chat_server_with.Types.{NodeMeta}
use cluster_chat_server_with.Json.{Json}
use cluster_chat_server_with.Models.{Database}
use cluster_chat_server_with.Redis.{RedisServer, session_key}
use cluster_chat_server_with.Redis.Store.{IsStore}
use cluster_chat_server_with.Registry.{Sys, bind_user}
use cluster_chat_server_with.Registry.Plane.{ControlPlane, redis_plane}
use cluster_chat_server_with.Registry.Shared.{ClockKeeps, IsRegistered, stamped, session_resolved}
use cluster_chat_server_with.Router.Channel.{send}
use cluster_chat_server_with.Router.Ready.{IsReady}
use cluster_chat_server_with.Wire.Frame.{one_chat_frame}
use cluster_chat_server_with.Service.Connections.{Conn, get_local_connection}
use cluster_chat_server_with.Service.Chat.{one_chat}
use cluster_chat_server_with.Cluster.Machine.{cluster_peers, trace}
use cluster_chat_server_with.Cluster.Start.{ChatNode}
use cluster_chat_server_with.Cluster.Across.{LivesElsewhere, one_chat-elsewhere}

module _ (r : RedisServer) (d : IsStore r) (clock : r.State → ℕ × r.State)
    (wall_ms : r.State → ℤ) where
  abbrev C : ControlPlane
  C = redis_plane r clock wall_ms

  -- The store that `bindUser` of registry `s` leaves, without a session of the user before it.
  pub record JustBound (user : ℤ) (s t : Sys C) : Type 0 where
    pub clock_keeps : ClockKeeps r d clock wall_ms
    pub is_registered : IsRegistered r d clock wall_ms s.registry.self_node s.world
    pub was_free : d.value_of s.world (session_key user) ≡ none
    pub same_store : t.world ≡ (bind_user C user s).1.world
    pub no_route : find user t.registry.user_routes ≡ none
    pub no_meta : find s.registry.self_node.node_id t.registry.node_metas ≡ none

  module _ (b : Database) (j : Json) (hash : Bytes → ℕ) (loop_of : Conn → ℕ)
      (in_loop : ℕ → Bool) where
    -- The sender's node has no client of that user, is another node than `home`, and holds an idle
    -- channel to it.
    pub record CanReach (user : ℤ) (home : NodeMeta) (p conn : ℕ)
        (t : ChatNode C b j hash loop_of in_loop) : Type 0 where
      pub in_cluster : t.clustered ≡ true
      pub not_here : get_local_connection user t.buckets ≡ none
      pub is_other : bytes_eq t.self_node.node_id home.node_id ≡ false
      pub is_ready : IsReady t.world.router t.world.up home user p conn

    pub bound-LivesElsewhere :
        (user : ℤ) (s : Sys C) (t : ChatNode C b j hash loop_of in_loop) (p conn : ℕ)
        → (h : JustBound user s t.world.sys)
        → let home = stamped r d clock wall_ms s.registry.self_node h.is_registered.heartbeat_at in
          CanReach user home p conn t → LivesElsewhere C b j hash loop_of in_loop user home p conn t
    bound-LivesElsewhere user s t p conn h g = record {
      in_cluster = g.in_cluster;
      not_here = g.not_here;
      node_found = s.registry.self_node.node_id;
      resolved =
          session_resolved r d clock wall_ms user s t.world.sys h.is_registered h.clock_keeps
            h.was_free h.same_store h.no_route h.no_meta;
      is_other = g.is_other;
      is_ready = g.is_ready;
    }

    -- A registered node binds a user that had no session, and another node, with neither of the
    -- two in its caches and an idle channel to that node, takes a chat message for the user over
    -- the store as it was left: it sends one frame with the message on that channel, stores
    -- nothing, and counts one message sent. Redis answers as documented, and to read the clock
    -- changes nothing in it.
    chat_to_bound :
        (from_id user : ℤ) (msg : Bytes) (s : Sys C) (t : ChatNode C b j hash loop_of in_loop)
        (p conn : ℕ)
        → (h : JustBound user s t.world.sys)
        → let home = stamped r d clock wall_ms s.registry.self_node h.is_registered.heartbeat_at in
          CanReach user home p conn t
          → let t' = (one_chat (cluster_peers C b j hash) loop_of in_loop from_id user msg t).1 in
            (t'.world.effects ≡ t.world.effects ++ (p, send conn (one_chat_frame user msg)) ∷ [])
            × (t'.stored ≡ t.stored)
            × (t'.remote_route_count ≡ t.remote_route_count + 1)
    unfolding trace
    chat_to_bound from_id user msg s t p conn h g =
        let done =
          one_chat-elsewhere C b j hash loop_of in_loop from_id user msg _ p conn t
            (bound-LivesElsewhere user s t p conn h g) in
        (
          ap (λ n. n.world.effects) done,
          ap (λ n. n.stored) done,
          ap (λ n. n.remote_route_count) done,
        )
