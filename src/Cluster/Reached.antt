-- ===== src/Cluster/Reached.antt =====
-- A user logs in at one node, and a client of another node sends the user a message.
use cluster_chat_server_with.Prelude.{
  ℕ, ◌+◌, ◌<◌, ◌≡◌, ap, ◌∙◌, Bool, true, List, [], ◌∷◌, ◌++◌, none, some, Bytes, concat, length, ℤ,
  find, bytes_eq_inst, int_eq_inst,
}
use cluster_chat_server_with.Types.{NodeMeta}
use cluster_chat_server_with.Json.{Json}
use cluster_chat_server_with.Models.{Database}
use cluster_chat_server_with.Redis.{RedisServer, node_key}
use cluster_chat_server_with.Redis.Store.{IsStore, session-fields}
use cluster_chat_server_with.Redis.Sessions.{IsKeyed}
use cluster_chat_server_with.Registry.{Sys}
use cluster_chat_server_with.Registry.Plane.{ControlPlane, redis_plane}
use cluster_chat_server_with.Registry.Shared.{IsRegistered, stamped}
use cluster_chat_server_with.Router.Channel.{send}
use cluster_chat_server_with.Wire.Frame.{one_chat_frame, IsInt, u32_mod}
use cluster_chat_server_with.Wire.Receive.{Outcome, feed}
use cluster_chat_server_with.Service.Connections.{Conn, Buckets, get_local_connection}
use cluster_chat_server_with.Service.Chat.{Peers, one_chat, enqueue_local_delivery}
use cluster_chat_server_with.Service.Session.{Reply, refused, admitted, login}
use cluster_chat_server_with.Service.Login.{Leaves, login-Leaves}
use cluster_chat_server_with.Service.Requests.{serve_deliveries}
use cluster_chat_server_with.Cluster.Machine.{cluster_peers}
use cluster_chat_server_with.Cluster.Start.{ChatNode}
use cluster_chat_server_with.Cluster.Across.{handed, across_nodes}
use cluster_chat_server_with.Cluster.Bound.{JustBound, CanReach, bound-LivesElsewhere}
use cluster_chat_server_with.Cluster.LoggedIn.{
  is_admitted, CanLogIn, looked, looked-free, login-Done,
}

pub admitted-connected :
    (conn : Conn) (id : ℤ) (bs cs : Buckets) (reply : Reply)
    → is_admitted reply ≡ true
    → Leaves conn id bs reply cs
    → get_local_connection id cs ≡ some conn
unfolding is_admitted
admitted-connected conn id bs cs (refused e) h l = absurd (cc)
admitted-connected conn id bs cs (admitted _ _ _ _ _) h l = l

module _ (r : RedisServer) (d : IsStore r) (k : IsKeyed r d) (clock : r.State → ℕ × r.State)
    (wall_ms : r.State → ℤ) (b : Database) (j : Json) (hash : Bytes → ℕ) (loop_of : Conn → ℕ)
    (in_loop : ℕ → Bool) where
  abbrev C : ControlPlane
  C = redis_plane r clock wall_ms

  abbrev N : Type 0
  N = ChatNode C b j hash loop_of in_loop

  abbrev P : Peers
  P = cluster_peers C b j hash

  abbrev pub logged_in : Conn → ℤ → Bytes → N → N
  logged_in conn id pwd s = (login P loop_of in_loop conn id pwd s).1

  abbrev still_registered :
      (id : ℤ) (s : Sys C)
      → IsRegistered r d clock wall_ms s.registry.self_node s.world
      → IsRegistered r d clock wall_ms s.registry.self_node (looked r clock wall_ms id s).world
  still_registered id s h = record {
    is_valid = h.is_valid;
    client_port_fits = h.client_port_fits;
    inter_port_fits = h.inter_port_fits;
    has_instance = h.has_instance;
    no_bar = h.no_bar;
    heartbeat_at = h.heartbeat_at;
    registered =
        session-fields r d id (node_key s.registry.self_node.node_id) s.world ∙ h.registered;
  }

  -- The sender's node shares the store, as the login left it, and knows nothing of the user yet.
  pub record Shares (conn : Conn) (id : ℤ) (pwd : Bytes) (s t : N) : Type 0 where
    pub same_store : t.world.sys.world ≡ (logged_in conn id pwd s).world.sys.world
    pub no_route : find id t.world.sys.registry.user_routes ≡ none
    pub no_meta : find s.world.sys.registry.self_node.node_id t.world.sys.registry.node_metas ≡ none

  abbrev home_of :
      (id : ℤ) (pwd : Bytes) (s : N)
      → CanLogIn r d k clock wall_ms b j hash loop_of in_loop id pwd s
      → NodeMeta
  home_of id pwd s h =
      stamped r d clock wall_ms s.world.sys.registry.self_node h.is_registered.heartbeat_at

  abbrev pub just_bound :
      (conn : Conn) (id : ℤ) (pwd : Bytes) (s t : N)
      → (h : CanLogIn r d k clock wall_ms b j hash loop_of in_loop id pwd s)
      → Shares conn id pwd s t
      → JustBound r d clock wall_ms id (looked r clock wall_ms id s.world.sys) t.world.sys
  just_bound conn id pwd s t h g = record {
    clock_keeps = h.clock_keeps;
    is_registered = still_registered id s.world.sys h.is_registered;
    was_free = looked-free r d k id s.world.sys.world h.nobody_has;
    same_store =
        g.same_store
        ∙ ap (λ v. v.world)
            (login-Done r d k clock wall_ms b j hash loop_of in_loop conn id pwd s h).1;
    no_route = g.no_route;
    no_meta = g.no_meta;
  }

  -- A user logs in at a node of the cluster, with the right password, while no node has the user;
  -- another node, which shares the store as it was left, has neither the user nor that node in its
  -- caches, and holds an idle channel to that node, takes a chat message for the user. Then the
  -- login is admitted; the other node sends one frame with the message on that channel and stores
  -- nothing; and when the frame's bytes reach the first node, in any chunks, that node hands the
  -- message to the loop of the connection that the user logged in on, once, with the same text,
  -- and counts one delivery. The first node is registered, the queue of that loop has room, the
  -- user's id is an int, the message fits a frame, Redis answers as documented, and to read the
  -- clock changes nothing in it.
  pub login_then_chat :
      (conn : Conn) (id from_id : ℤ) (pwd msg : Bytes) (p channel : ℕ) (chunks : List Bytes)
      (s t : N)
      → (h : CanLogIn r d k clock wall_ms b j hash loop_of in_loop id pwd s)
      → Shares conn id pwd s t
      → CanReach r d clock wall_ms b j hash loop_of in_loop id (home_of id pwd s h) p channel t
      → IsInt id
      → 4 + length msg < u32_mod
      → (enqueue_local_delivery P loop_of in_loop conn msg (logged_in conn id pwd s)).0 ≡ true
      → concat chunks ≡ one_chat_frame id msg
      → let s' = logged_in conn id pwd s in
        let t' = (one_chat P loop_of in_loop from_id id msg t).1 in
        (is_admitted (login P loop_of in_loop conn id pwd s).0 ≡ true)
        × (t'.world.effects ≡ t.world.effects ++ (p, send channel (one_chat_frame id msg)) ∷ [])
        × (t'.stored ≡ t.stored)
        × ((o : Outcome) × (feed [] chunks ≡ some o)
            × (o.pending ≡ [])
            × (serve_deliveries j P loop_of in_loop o.calls s'
                ≡ handed C b j hash loop_of in_loop P loop_of in_loop conn msg s'))
  login_then_chat conn id from_id pwd msg p channel chunks s t h g reach int fits room e =
      let home = home_of id pwd s h in
      let q = login P loop_of in_loop conn id pwd s in
      let (let_in, _) = login-Done r d k clock wall_ms b j hash loop_of in_loop conn id pwd s h in
      let (leaves, _) = login-Leaves P loop_of in_loop conn id pwd s h.has_bucket in
      let elsewhere =
        bound-LivesElsewhere r d clock wall_ms b j hash loop_of in_loop id
          (looked r clock wall_ms id s.world.sys) t p channel (just_bound conn id pwd s t h g)
          reach in
      let (sent, kept, _, arrives) =
        across_nodes C b j hash loop_of in_loop P loop_of in_loop from_id id msg home p channel conn
          chunks t q.1 int fits elsewhere
          (record {
            is_here = admitted-connected conn id s.buckets q.1.buckets q.0 let_in leaves;
            has_room = room;
          })
          e in
      (let_in, sent, kept, arrives)
