-- ===== src/Tests/Router.antt =====
-- A channel from its first message to its last, and the table of channels.
use cluster_chat_server_with.Prelude.{
  ℕ, ◌+◌, ◌≤◌, ◌≡◌, refl, false, true, [], ◌∷◌, ◌++◌, length, pos, find, bytes_eq_inst,
}
use cluster_chat_server_with.Text.{codes}
use cluster_chat_server_with.Types.{NodeMeta}
use mathlib.Core.List.{Perm}
use cluster_chat_server_with.Router.Channel.{
  enqueue_locked, after_unlock, drain_round, handle_connected, connect_check, connect_client,
  ensure_client,
}
use cluster_chat_server_with.Router.Flow.{
  Flow, through, past, queued_of, past_of, enqueued, rounded, dialled, checked_by, enqueues,
  sends_held, schedules_connect, checks, dials, opens, rounds, sends_taken, Reach, here, then_step,
  fresh,
}
use cluster_chat_server_with.Router.Accept.{ahead}
use cluster_chat_server_with.Router.Order.{channel_in_order}
use cluster_chat_server_with.Router.Wake.{has_event, queue_has_event}
use cluster_chat_server_with.Router.Table.{Router, get_or_create_channel}
use cluster_chat_server_with.Router.Keys.{make_channel_key-injective}
use cluster_chat_server_with.Router.Routes.{IsRouted, IsRoute, get_or_create_channel-IsRoute}

abbrev node : NodeMeta
node = record {
  node_id = codes "n2";
  instance_id = codes "i2";
  client_ip = codes "10.0.0.2";
  client_port = 6000;
  inter_ip = codes "10.0.0.2";
  inter_port = 7000;
  heartbeat_ms = pos 5;
}

abbrev start : Flow
start = fresh (codes "n2#0") node 0 2 1024

abbrev waiting : Flow
waiting = enqueued start (codes "a")

abbrev scheduled : Flow
scheduled = record waiting { connects_held = 0; connects_queued = 1 }

abbrev begun : Flow
begun = record (checked_by scheduled (connect_check scheduled.up scheduled.channel)) {
  connects_queued = 0;
}

abbrev dialling : Flow
dialling = dialled begun

abbrev opened : Flow
opened = record dialling {
  channel = handle_connected dialling.channel 7;
  up = true;
  dialing = false;
  draining = true;
}

-- The drain has taken the first message, and a sender takes the second one past it.
abbrev both_out : Flow
both_out = enqueued (rounded opened) (codes "b")

abbrev second_sent : Flow
second_sent = record both_out { held = []; sent = both_out.sent ++ past (codes "b") ∷ [] }

abbrev late : Flow
late = record second_sent { taken = []; sent = second_sent.sent ++ through (codes "a") ∷ [] }

to_late : Reach start late
unfolding enqueued enqueue_locked after_unlock connect_check dialled connect_client ensure_client
    handle_connected rounded drain_round
to_late =
    then_step
      (then_step
        (then_step
          (then_step
            (then_step
              (then_step
                (then_step
                  (then_step (then_step here (enqueues start (codes "a")))
                    (schedules_connect waiting 0 refl))
                  (checks scheduled 0 refl refl refl))
                (dials begun refl))
              (opens dialling 7 refl refl))
            (rounds opened refl refl))
          (enqueues (rounded opened) (codes "b")))
        (sends_held both_out [] [] (codes "b") refl))
      (sends_taken second_sent (codes "a") refl)

channel_in_order_example :
    (queued_of late.accepted
      ≡ queued_of late.sent ++ (late.taken ++ (late.lost ++ late.channel.pending)))
    × (length late.taken ≤ 1)
    × (ahead late.accepted ≤ length (queued_of late.sent) + length late.taken + length late.lost)
    × Perm (past_of late.accepted) (past_of late.sent ++ late.held)
    × (late.channel.closing ≡ false → late.lost ≡ [])
    × (length late.channel.pending ≤ late.channel.pending_limit)
channel_in_order_example = channel_in_order (codes "n2#0") node 0 2 1024 late to_late

-- The message that was accepted later goes out first.
overtaken :
    (late.accepted ≡ through (codes "a") ∷ past (codes "b") ∷ [])
    × (late.sent ≡ past (codes "b") ∷ through (codes "a") ∷ [])
unfolding enqueued enqueue_locked after_unlock connect_check dialled connect_client ensure_client
    handle_connected rounded drain_round
overtaken = (refl, refl)

queue_has_event_example : has_event waiting ≡ true
unfolding enqueued enqueue_locked after_unlock
queue_has_event_example =
    queue_has_event (codes "n2#0") node 0 2 1024 waiting
      (then_step here (enqueues start (codes "a"))) refl refl

abbrev router : Router
router = record {
  base_loop = 0;
  io_loops = 1 ∷ 2 ∷ [];
  warmed = [];
  conn_map = [];
  channels = [];
  shard_count = 4;
  connecting_queue_limit = 256;
  high_water_mark = 1024;
  io_thread_count = 2;
}

no_routes : IsRouted router
unfolding find
no_routes key p e = absurd (cc)

get_or_create_channel-IsRoute_example : IsRoute node 1 (get_or_create_channel router length node 1)
get_or_create_channel-IsRoute_example = get_or_create_channel-IsRoute router length node 1 no_routes

make_channel_key-injective_example : (codes "n#1" ≡ codes "n#1") × (◌≡◌ {A = ℕ} 2 2)
make_channel_key-injective_example = make_channel_key-injective (codes "n#1") (codes "n#1") 2 2 refl
