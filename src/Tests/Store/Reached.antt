-- ===== src/Tests/Store/Reached.antt =====
-- User 4 logs in at node n1, and a client of node n2 sends the user a message.
use cluster_chat_server_with.Prelude.{
  ℕ, ◌≡◌, refl, true, [], ◌∷◌, Bytes, some, pos, find, bytes_eq, bytes_eq_inst, int_eq_inst, arith,
  take, drop,
}
use cluster_chat_server_with.Text.{codes, decimal, digits_of}
use cluster_chat_server_with.Types.{valid}
use cluster_chat_server_with.Config.{atoi}
use cluster_chat_server_with.Models
use cluster_chat_server_with.Models.{Database}
use cluster_chat_server_with.Redis.{get_user_session, bind_user_node}
use cluster_chat_server_with.Registry.{
  Sys, new_registry, query_user_node, get_cached_user_node, bind_user,
}
use cluster_chat_server_with.Router.Channel.{send}
use cluster_chat_server_with.Router.Table.{make_channel_key, pick_shard, same_endpoint}
use cluster_chat_server_with.Wire.Frame.{one_chat_frame, append_uint32}
use cluster_chat_server_with.Wire.Receive.{Outcome, feed}
use cluster_chat_server_with.Service.Connections.{get_local_connection, pick_conn_bucket}
use cluster_chat_server_with.Service.Chat.{
  one_chat, peers, enqueue_local_delivery, local_dispatcher,
}
use cluster_chat_server_with.Service.Dispatch.{enqueue}
use cluster_chat_server_with.Service.Session.{
  login, find_session, check_session_free, admit, clear_stale, bind_session, finish_login, greet,
}
use cluster_chat_server_with.Service.Requests.{serve_deliveries}
use cluster_chat_server_with.Cluster.Machine.{cluster_peers, in_tables, in_registry}
use cluster_chat_server_with.Cluster.Start.{ChatNode}
use cluster_chat_server_with.Cluster.Across.{handed}
use cluster_chat_server_with.Cluster.Bound.{CanReach}
use cluster_chat_server_with.Cluster.LoggedIn.{is_admitted, CanLogIn}
use cluster_chat_server_with.Cluster.Reached.{Shares, login_then_chat}
use cluster_chat_server_with.Tests.Service.{loop_now, here_now}
use cluster_chat_server_with.Tests.Store.{
  server, server-IsStore, member, clock, wall_ms, plane, first, first-IsRegistered,
}
use cluster_chat_server_with.Tests.Store.Bound.{home, router}
use cluster_chat_server_with.Tests.Store.Sessions.{server-IsKeyed}
use cluster_chat_server_with.Tests.Cluster.{json, hash}

-- Every query gives one row.
abbrev pub rows : Database
rows = record {
  State = ℕ;
  update = λ sql w. (true, w);
  query = λ sql w. (some ((codes "4" ∷ codes "ann" ∷ codes "pw" ∷ codes "offline" ∷ []) ∷ []), w);
  insert_id = λ w. pos w;
}

abbrev pub node_at : Sys plane → Bytes → ChatNode plane rows json hash loop_now here_now
node_at sys id = record {
  world = record { sys = sys; router = router; db = 0; up = λ p. true; effects = [] };
  buckets = [] ∷ [];
  dispatchers = [];
  local_queue_limit = 4;
  clustered = true;
  self_node = member id;
  outbox = [];
  queued = [];
  stored = [];
  local_delivery_count = 0;
  remote_route_count = 0;
  remote_route_fail_count = 0;
  offline_fallback_count = 0;
  stale_session_count = 0;
}

abbrev pub receiver : ChatNode plane rows json hash loop_now here_now
receiver = node_at first (codes "n1")

abbrev logged_in : ChatNode plane rows json hash loop_now here_now
logged_in =
    (login (cluster_peers plane rows json hash) loop_now here_now 6 (pos 4) (codes "pw") receiver).1

abbrev pub sender : ChatNode plane rows json hash loop_now here_now
sender =
    node_at
      (record {
        registry = record new_registry { self_node = member (codes "n2") };
        world = logged_in.world.sys.world;
      })
      (codes "n2")

pub receiver-CanLogIn :
    CanLogIn server server-IsStore server-IsKeyed clock wall_ms rows json hash loop_now here_now
      (pos 4)
      (codes "pw")
      receiver
unfolding server-IsStore find Models.query_user bytes_eq atoi
receiver-CanLogIn = record {
  has_bucket = omega arith;
  in_cluster = refl;
  is_right = refl;
  no_own_route = refl;
  nobody_has = refl;
  clock_keeps = ((λ w k. refl), (λ w k. refl));
  is_registered = first-IsRegistered;
}

pub sender-Shares :
    Shares server server-IsStore server-IsKeyed clock wall_ms rows json hash loop_now here_now 6
      (pos 4)
      (codes "pw")
      receiver
      sender
unfolding find
sender-Shares = record { same_store = refl; no_route = refl; no_meta = refl }

sender-CanReach :
    CanReach server server-IsStore clock wall_ms rows json hash loop_now here_now
      (pos 4)
      home
      0
      3
      sender
unfolding find bytes_eq valid make_channel_key pick_shard decimal digits_of same_endpoint
    get_local_connection pick_conn_bucket
sender-CanReach = record {
  in_cluster = refl;
  not_here = refl;
  is_other = refl;
  is_ready = record {
    is_valid = refl;
    is_warm = refl;
    in_table = refl;
    same_address = refl;
    is_up = refl;
    is_idle = record { is_open = refl; holds = refl; flows = refl; is_drained = refl };
  };
}

abbrev frame : Bytes
frame = one_chat_frame (pos 4) (codes "hi")

room :
    (enqueue_local_delivery
      (cluster_peers plane rows json hash)
      loop_now
      here_now
      6
      (codes "hi")
      logged_in).0
    ≡ true
unfolding enqueue_local_delivery local_dispatcher enqueue find login find_session check_session_free
    admit clear_stale bind_session finish_login greet peers in_tables Models.query_user atoi
    bytes_eq in_registry query_user_node get_cached_user_node get_user_session bind_user
    bind_user_node Models.query_offline
room = refl

login_then_chat_example :
    let t =
      (one_chat
        (cluster_peers plane rows json hash)
        loop_now
        here_now
        (pos 1)
        (pos 4)
        (codes "hi")
        sender).1 in
    (is_admitted
        (login
          (cluster_peers plane rows json hash)
          loop_now
          here_now
          6
          (pos 4)
          (codes "pw")
          receiver).0
      ≡ true)
    × (t.world.effects ≡ (0, send 3 frame) ∷ [])
    × (t.stored ≡ [])
    × ((o : Outcome) × (feed [] (take 5 frame ∷ drop 5 frame ∷ []) ≡ some o)
        × (o.pending ≡ [])
        × (serve_deliveries json
              (cluster_peers plane rows json hash)
              loop_now
              here_now
              o.calls
              logged_in
            ≡ handed plane rows json hash loop_now here_now
                (cluster_peers plane rows json hash)
                loop_now
                here_now
                6
                (codes "hi")
                logged_in))
unfolding one_chat_frame append_uint32 receiver-CanLogIn first-IsRegistered
login_then_chat_example =
    login_then_chat server server-IsStore server-IsKeyed clock wall_ms rows json hash loop_now
      here_now 6 (pos 4) (pos 1) (codes "pw") (codes "hi") 0 3 (take 5 frame ∷ drop 5 frame ∷ [])
      receiver sender receiver-CanLogIn sender-Shares sender-CanReach (omega arith) (omega arith)
      room refl
