-- ===== src/Tests/Cluster.antt =====
-- Node n1, with a channel to node n2 that is up, and node n2, where user 2 is connected.
use cluster_chat_server_with.Prelude.{
  ℕ, ◌+◌, ◌≤◌, ◌≡◌, refl, true, false, [], ◌∷◌, none, some, Bytes, arith, take, drop, is_empty,
  replicate, pos, find, assign, bytes_eq, bytes_eq_inst, int_eq_inst,
}
use cluster_chat_server_with.Text.{codes, decimal, digits_of}
use cluster_chat_server_with.Types.{NodeMeta, no_node, valid}
use cluster_chat_server_with.Json.{Json}
use cluster_chat_server_with.Models.{Database}
use cluster_chat_server_with.Registry
use cluster_chat_server_with.Registry.Plane.{ControlPlane}
use cluster_chat_server_with.Registry.{Sys, new_registry, ask}
use cluster_chat_server_with.Router.Channel.{ShardChannel, new_channel, send}
use cluster_chat_server_with.Router.Table.{
  Router, new_router, make_channel_key, pick_shard, same_endpoint,
}
use cluster_chat_server_with.Router.Ready.{IsReady}
use cluster_chat_server_with.Wire.Frame.{one_chat_frame, append_uint32, IsInt}
use cluster_chat_server_with.Wire.Receive.{Outcome, feed}
use cluster_chat_server_with.Service.Connections.{get_local_connection, pick_conn_bucket}
use cluster_chat_server_with.Service.Chat.{one_chat, enqueue_local_delivery, local_dispatcher}
use cluster_chat_server_with.Service.Dispatch.{enqueue}
use cluster_chat_server_with.Service.Requests.{serve_deliveries}
use cluster_chat_server_with.Cluster.Machine.{Machine, cluster_peers}
use cluster_chat_server_with.Cluster.Start.{ChatNode, io_threads, queue_limit, start}
use cluster_chat_server_with.Cluster.Across.{LivesElsewhere, IsReachable, handed, across_nodes}
use cluster_chat_server_with.Cluster.Ready.{settings_positive, start_ready}
use cluster_chat_server_with.Tests.Service.{peers_now, loop_now, here_now, node_now}
use cluster_chat_server_with.Tests.Client.{two_objects}

abbrev pub far : NodeMeta
far = record no_node {
  node_id = codes "n2";
  instance_id = codes "i2";
  inter_ip = codes "ip";
  inter_port = 7;
}

-- Every user has a session of node n2.
abbrev pub plane : ControlPlane
plane = record {
  State = ℕ;
  now_ms = λ w. (w, w);
  register_node = λ m ttl w. (true, w);
  unregister_node = λ n w. (true, w);
  get_node = λ n w. (some far, w);
  get_node_ids = λ w. ([], w);
  bind_user_node = λ u n i w. (true, w);
  unbind_user_node = λ u n w. (true, w);
  get_user_session = λ u w. (some (codes "n2", codes "i2"), w);
  get_node_users = λ n w. ([], w);
}

abbrev pub tables : Database
tables = record {
  State = ℕ;
  update = λ sql w. (true, w);
  query = λ sql w. (none, w);
  insert_id = λ w. pos w;
}

abbrev pub json : Json
json = two_objects [] []

abbrev pub hash : Bytes → ℕ
hash s = 0

abbrev channel : ShardChannel
channel = record (new_channel (codes "n2#0") far 0 4 9) { connection = some 3 }

abbrev pub router : Router
router = record {
  base_loop = 0;
  io_loops = 0 ∷ [];
  warmed = (codes "n2", codes "i2") ∷ [];
  conn_map = (codes "n2#0", 0) ∷ [];
  channels = channel ∷ [];
  shard_count = 1;
  connecting_queue_limit = 4;
  high_water_mark = 9;
  io_thread_count = 1;
}

abbrev machine : Machine plane tables json hash
machine = record {
  sys = record {
    registry = record new_registry { self_node = record no_node { node_id = codes "n1" } };
    world = 5;
  };
  router = router;
  db = 0;
  up = λ p. true;
  effects = [];
}

abbrev near : ChatNode plane tables json hash loop_now here_now
near = record {
  world = machine;
  buckets = [] ∷ [];
  dispatchers = [];
  local_queue_limit = 4;
  clustered = true;
  self_node = record no_node { node_id = codes "n1" };
  outbox = [];
  queued = [];
  stored = [];
  local_delivery_count = 0;
  remote_route_count = 0;
  remote_route_fail_count = 0;
  offline_fallback_count = 0;
  stale_session_count = 0;
}

pub router-IsReady : IsReady router (λ p. true) far (pos 2) 0 3
unfolding find bytes_eq valid make_channel_key pick_shard decimal digits_of same_endpoint
router-IsReady = record {
  is_valid = refl;
  is_warm = refl;
  in_table = refl;
  same_address = refl;
  is_up = refl;
  is_idle = record { is_open = refl; holds = refl; flows = refl; is_drained = refl };
}

near-LivesElsewhere : LivesElsewhere plane tables json hash loop_now here_now (pos 2) far 0 3 near
unfolding find bytes_eq get_local_connection pick_conn_bucket Registry.resolve_user_node
    Registry.resolve_route Registry.resolve_slowly Registry.query_found Registry.query_user_node
    Registry.check_cached Registry.check_fetched Registry.check_session Registry.query_node
    Registry.or_fetch Registry.keep_fetched Registry.is_current Registry.get_cached_user_node
    Registry.get_cached_node Registry.cache_user_node Registry.cache_node ask assign
near-LivesElsewhere = record {
  in_cluster = refl;
  not_here = refl;
  node_found = codes "n2";
  resolved = refl;
  is_other = refl;
  is_ready = router-IsReady;
}

node_now-IsReachable :
    IsReachable plane tables json hash loop_now here_now peers_now loop_now here_now
      (pos 2)
      (codes "hi")
      9
      node_now
unfolding find get_local_connection pick_conn_bucket enqueue_local_delivery local_dispatcher enqueue
node_now-IsReachable = record { is_here = refl; has_room = refl }

abbrev frame : Bytes
frame = one_chat_frame (pos 2) (codes "hi")

across_nodes_example :
    let s =
      (one_chat
        (cluster_peers plane tables json hash)
        loop_now
        here_now
        (pos 1)
        (pos 2)
        (codes "hi")
        near).1 in
    (s.world.effects ≡ (0, send 3 frame) ∷ [])
    × (s.stored ≡ [])
    × (s.remote_route_count ≡ 0 + 1)
    × ((o : Outcome) × (feed [] (take 5 frame ∷ drop 5 frame ∷ []) ≡ some o)
        × (o.pending ≡ [])
        × (serve_deliveries json peers_now loop_now here_now o.calls node_now
            ≡ handed plane tables json hash loop_now here_now peers_now loop_now here_now 9
                (codes "hi")
                node_now))
across_nodes_example =
    across_nodes plane tables json hash loop_now here_now peers_now loop_now here_now (pos 1)
      (pos 2) (codes "hi") far 0 3 9 (take 5 frame ∷ drop 5 frame ∷ []) near node_now
      (unfold IsInt in omega arith) (omega arith) near-LivesElsewhere node_now-IsReachable
      (unfold one_chat_frame append_uint32 in refl)

settings_positive_example :
    let r = new_router [] (λ n. []) 0 in
    (1 ≤ io_threads [] (codes "CHAT_SERVER_IO_THREADS"))
    × (1 ≤ queue_limit [])
    × (1 ≤ r.shard_count)
    × (1 ≤ r.io_thread_count)
    × (is_empty r.io_loops ≡ false)
    × (1 ≤ r.connecting_queue_limit)
    × (1 ≤ r.high_water_mark)
settings_positive_example = settings_positive [] (codes "CHAT_SERVER_IO_THREADS") (λ n. []) 0

start_ready_example :
    (s : ChatNode plane tables json hash loop_now here_now) × (start plane tables json hash loop_now
        here_now []
        (λ n. [])
        0
        9
        (codes "p" ∷ codes "ip" ∷ codes "6000" ∷ [])
        machine
      ≡ some s)
    × (s.self_node ≡ s.world.sys.registry.self_node)
    × (s.clustered ≡ true)
    × (s.buckets ≡ replicate 64 [])
    × (1 ≤ s.local_queue_limit)
start_ready_example =
    start_ready plane tables json hash loop_now here_now [] (λ n. []) 0 9 (codes "p") (codes "ip")
      (codes "6000") [] machine
