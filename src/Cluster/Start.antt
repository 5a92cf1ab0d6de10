-- ===== src/Cluster/Start.antt =====
-- How a node starts: the constructors' settings, `initNode` (src/server/chatservice.cpp), the
-- servers' thread counts (src/server/chatserver.cpp, src/server/clusterserver.cpp) and `main`
-- (src/server/main.cpp). The environment is the one that `loadEnvFile` has left.
use cluster_chat_server_with.Prelude.{
  ℕ, ◌+◌, Bool, true, false, not, List, [], ◌∷◌, ◌++◌, Option, none, some, Bytes, replicate,
  if◌then◌else◌, pos, is_nonpos, to_nat,
}
use cluster_chat_server_with.Text.{codes, decimal}
use cluster_chat_server_with.Types.{NodeMeta, no_node}
use cluster_chat_server_with.Config.{Environment, atoi, get_env_or_default, get_env_int_or_default}
use cluster_chat_server_with.Redis.{to_u16}
use cluster_chat_server_with.Json.{Json}
use cluster_chat_server_with.Models.{Database}
use cluster_chat_server_with.Registry
use cluster_chat_server_with.Registry.Plane.{ControlPlane}
use cluster_chat_server_with.Registry.{new_registry}
use cluster_chat_server_with.Router.Table.{new_router}
use cluster_chat_server_with.Service.Connections.{Conn}
use cluster_chat_server_with.Service.Chat.{Node}
use cluster_chat_server_with.Service.Session.{reset}
use cluster_chat_server_with.Cluster.Machine.{Machine, cluster_peers, in_registry, prewarm}

-- The thread count of a server, under its own name in the environment.
unfoldable pub io_threads : Environment → Bytes → ℕ
io_threads env key =
    let n = get_env_int_or_default env key (pos 4) in if is_nonpos n then 4 else to_nat n

unfoldable pub queue_limit : Environment → ℕ
queue_limit env =
    let n = get_env_int_or_default env (codes "CHAT_LOCAL_DELIVERY_QUEUE_LIMIT") (pos 8192) in
    if is_nonpos n then 8192 else to_nat n

-- `selfNode_` in `initNode`; `wall_ms` is the system clock.
unfoldable pub self_meta : ℕ → Bytes → ℕ → Bytes → ℕ → NodeMeta
self_meta wall_ms client_ip client_port inter_ip inter_port =
    let node_id = inter_ip ++ (codes ":" ++ decimal inter_port) in
    record {
      node_id = node_id;
      instance_id = node_id ++ (codes "#" ++ decimal wall_ms);
      client_ip = client_ip;
      client_port = client_port;
      inter_ip = inter_ip;
      inter_port = inter_port;
      heartbeat_ms = pos wall_ms;
    }

module _ (c : ControlPlane) (d : Database) (j : Json) (hash : Bytes → ℕ) (loop_of : Conn → ℕ)
    (in_loop : ℕ → Bool) where
  abbrev pub ChatNode : Type 0
  ChatNode = Node (cluster_peers c d j hash) loop_of in_loop

  -- The constructor of `ChatService`.
  unfoldable pub new_service : Environment → Machine c d j hash → ChatNode
  unfolding queue_limit
  new_service env world = record {
    world = world;
    buckets = replicate 64 [];
    dispatchers = [];
    local_queue_limit = queue_limit env;
    clustered = false;
    self_node = no_node;
    outbox = [];
    queued = [];
    stored = [];
    local_delivery_count = 0;
    remote_route_count = 0;
    remote_route_fail_count = 0;
    offline_fallback_count = 0;
    stale_session_count = 0;
  }

  -- The loop over the known nodes.
  unfoldable pub prewarm_others : List NodeMeta → Machine c d j hash → Machine c d j hash
  unfolding prewarm
  prewarm_others [] m = m
  prewarm_others (meta ∷ rest) m =
      let warmed = (prewarm c d j hash meta m).1 in
      prewarm_others rest (if not (Registry.is_self_node c m.sys meta.node_id) then warmed else m)

  -- The rest of `initNode` after the registry's `init`.
  unfoldable pub prewarm_known : Bool → Machine c d j hash → Machine c d j hash
  unfolding prewarm_others in_registry
  prewarm_known false m = m
  prewarm_known true m =
      let (nodes, t) = in_registry c d j hash (Registry.list_nodes c) m in prewarm_others nodes t

  -- The registry and the router as they are made.
  abbrev fresh_machine : Environment → (ℕ → List ℕ) → ℕ → Machine c d j hash → Machine c d j hash
  fresh_machine env pool_loops base_loop m = record m {
    sys = record m.sys { registry = new_registry };
    router = new_router env pool_loops base_loop;
  }

  unfoldable pub init_node : Environment → (ℕ → List ℕ) → ℕ → NodeMeta → ChatNode → ChatNode
  unfolding prewarm_known in_registry
  init_node env pool_loops base_loop self s =
      let interval = get_env_int_or_default env (codes "CHAT_HEARTBEAT_INTERVAL_MS") (pos 3000) in
      let timeout = get_env_int_or_default env (codes "CHAT_HEARTBEAT_TIMEOUT_MS") (pos 10000) in
      let (ok, t) =
        in_registry c d j hash (Registry.init c self interval timeout)
          (fresh_machine env pool_loops base_loop s.world) in
      record s { self_node = self; clustered = true; world = prewarm_known ok t }

  -- `main` on its arguments, up to the start of the loops.
  unfoldable pub start :
      Environment → (ℕ → List ℕ) → ℕ → ℕ → List Bytes → Machine c d j hash → Option ChatNode
  unfolding new_service init_node self_meta
  start env pool_loops base_loop wall_ms (program ∷ ip ∷ port_text ∷ rest) world =
      let port = to_u16 (atoi port_text) in
      let inter_ip = get_env_or_default env (codes "CHAT_INTER_NODE_IP") ip in
      let inter_port =
        to_u16 (get_env_int_or_default env (codes "CHAT_INTER_NODE_PORT") (pos (port + 100))) in
      some (
        init_node env pool_loops base_loop (self_meta wall_ms ip port inter_ip inter_port)
          (new_service env world))
  start env pool_loops base_loop wall_ms _ world = none

  -- `resetHandler`: what it does before `exit`.
  unfoldable pub reset_handler : ChatNode → ChatNode
  reset_handler s = (reset (cluster_peers c d j hash) loop_of in_loop s).1
