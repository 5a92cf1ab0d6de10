-- ===== src/Tests/Store/Bound.antt =====
-- Node n2, with an idle channel to node n1.
use cluster_chat_server_with.Prelude.{true, [], ◌∷◌, some, pos, bytes_eq_inst, int_eq_inst}
use cluster_chat_server_with.Text.{codes}
use cluster_chat_server_with.Types.{NodeMeta}
use cluster_chat_server_with.Router.Channel.{ShardChannel, new_channel}
use cluster_chat_server_with.Router.Table.{Router}
use cluster_chat_server_with.Cluster.Machine.{Machine}
use cluster_chat_server_with.Cluster.Start.{ChatNode}
use cluster_chat_server_with.Tests.Service.{loop_now, here_now}
use cluster_chat_server_with.Tests.Store.{member, plane, second}
use cluster_chat_server_with.Tests.Cluster.{tables, json, hash}

abbrev pub home : NodeMeta
home = record (member (codes "n1")) { heartbeat_ms = pos 3 }

abbrev channel : ShardChannel
channel = record (new_channel (codes "n1#0") home 0 4 9) { connection = some 3 }

abbrev pub router : Router
router = record {
  base_loop = 0;
  io_loops = 0 ∷ [];
  warmed = (codes "n1", codes "n1#1") ∷ [];
  conn_map = (codes "n1#0", 0) ∷ [];
  channels = channel ∷ [];
  shard_count = 1;
  connecting_queue_limit = 4;
  high_water_mark = 9;
  io_thread_count = 1;
}

abbrev pub machine : Machine plane tables json hash
machine = record { sys = second; router = router; db = 0; up = λ p. true; effects = [] }

abbrev pub sender : ChatNode plane tables json hash loop_now here_now
sender = record {
  world = machine;
  buckets = [] ∷ [];
  dispatchers = [];
  local_queue_limit = 4;
  clustered = true;
  self_node = member (codes "n2");
  outbox = [];
  queued = [];
  stored = [];
  local_delivery_count = 0;
  remote_route_count = 0;
  remote_route_fail_count = 0;
  offline_fallback_count = 0;
  stale_session_count = 0;
}
