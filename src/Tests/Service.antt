-- ===== src/Tests/Service.antt =====
-- A node with two clients on one connection each, and peers with fixed answers.
use cluster_chat_server_with.Prelude.{
  ℕ, ◌+◌, ◌≤◌, ◌≡◌, refl, ◌&&◌, ◌||◌, Bool, true, false, [], ◌∷◌, ◌++◌, none, some, arith, length,
  is_empty, pos, find, int_eq_inst, erase,
}
use cluster_chat_server_with.Text.{codes}
use cluster_chat_server_with.Types.{no_node}
use cluster_chat_server_with.Models.{no_user}
use cluster_chat_server_with.Service.Connections.{
  Conn, Buckets, pick_conn_bucket, get_local_connection, remove_local_connection_by_conn, find_conn,
}
use cluster_chat_server_with.Service.Dispatch.{
  Task, Traffic, enqueue, accept, refill, accepts, starts, refills, Ticks, none_yet, one_more,
  quiet,
}
use cluster_chat_server_with.Service.Order.{dispatched_in_order}
use cluster_chat_server_with.Service.Chat.{Peers, Node, one_chat, handle_cluster_group_chat}
use cluster_chat_server_with.Service.Settle.{
  EachEnds, Settles, one_chat-Settles, handle_cluster_group_chat-each,
}
use cluster_chat_server_with.Service.Session.{login}
use cluster_chat_server_with.Service.Login.{Leaves, OthersKeep, login-Leaves}

-- Users 1 and 5 on connection 8, user 2 on connection 9.
abbrev buckets : Buckets
buckets = ((pos 2, 9) ∷ []) ∷ ((pos 1, 8) ∷ (pos 5, 8) ∷ []) ∷ []

-- The second user of a connection stays in the table when it is closed.
closed-user_stays :
    get_local_connection (pos 5) (remove_local_connection_by_conn 8 buckets).1 ≡ some 8
unfolding remove_local_connection_by_conn find_conn get_local_connection pick_conn_bucket find erase
closed-user_stays = refl

abbrev task : Task
task = record { conn = 9; msg = codes "a" }

abbrev one_task : Traffic
one_task = accept (quiet 0 4) task

abbrev started : Traffic
started = record one_task { queued = false; active = true }

to_refill : Ticks (quiet 0 4) (refill started)
unfolding accept enqueue
to_refill =
    one_more (one_more (one_more none_yet (accepts (quiet 0 4) task)) (starts one_task refl))
      (refills started refl refl)

dispatched_in_order_example :
    ((refill started).accepted
      ≡ (refill started).sent ++ ((refill started).batch ++ (refill started).dispatcher.pending))
    × (length (refill started).dispatcher.pending ≤ (refill started).dispatcher.pending_limit)
    × (((refill started).queued && (refill started).active) ≡ false)
    × ((is_empty (refill started).dispatcher.pending
          || (refill started).queued
          || (refill started).active)
        ≡ true)
dispatched_in_order_example = dispatched_in_order 0 4 (refill started) to_refill

abbrev pub peers_now : Peers
peers_now = record {
  State = ℕ;
  resolve_user_node = λ u w. (some (codes "n2", no_node), w);
  query_user_node = λ u w. (none, w);
  query_node = λ n w. (some no_node, w);
  bind_user = λ u w. (true, w);
  unbind_user = λ u w. (true, w);
  prewarm_node = λ m w. (tt, w);
  send_one_chat = λ m n u t r w. (true, w + 1);
  send_group_chat = λ m n us t r w. (true, w + 1);
  build_trace_id = λ u w. ([], w);
  insert_offline = λ u m w. (true, w);
  query_group_users = λ u g w. ([], w);
  update_state = λ u w. (true, w);
  reset_state = λ w. (true, w);
  insert_user = λ u w. (none, w);
  query_user = λ u w. (record no_user { id = u }, w);
  query_offline = λ u w. ([], w);
  remove_offline = λ u w. (true, w);
  insert_friend = λ u f w. (true, w);
  query_friends = λ u w. ([], w);
  create_group = λ g w. (none, w);
  add_group = λ u g r w. (true, w);
  query_groups = λ u w. ([], w);
  get_node_users = λ n w. ([], w);
  stop_registry = λ w. (tt, w);
  close_all = λ w. (tt, w);
}

abbrev pub loop_now : Conn → ℕ
loop_now c = 0

abbrev pub here_now : ℕ → Bool
here_now l = true

abbrev pub node_now : Node peers_now loop_now here_now
node_now = record {
  world = 0;
  buckets = buckets;
  dispatchers = [];
  local_queue_limit = 4;
  clustered = true;
  self_node = record no_node { node_id = codes "n1" };
  outbox = [];
  queued = [];
  stored = [];
  local_delivery_count = 0;
  remote_route_count = 0;
  remote_route_fail_count = 0;
  offline_fallback_count = 0;
  stale_session_count = 0;
}

one_chat-Settles_example :
    Settles peers_now loop_now here_now
      (pos 7)
      (codes "hi")
      node_now
      (one_chat peers_now loop_now here_now (pos 1) (pos 7) (codes "hi") node_now).1
one_chat-Settles_example =
    one_chat-Settles peers_now loop_now here_now (pos 1) (pos 7) (codes "hi") node_now

handle_cluster_group_chat-each_example :
    let t =
      (handle_cluster_group_chat peers_now loop_now here_now
        (pos 1 ∷ pos 7 ∷ [])
        (codes "hi")
        node_now).1 in
    EachEnds peers_now loop_now here_now (pos 1 ∷ pos 7 ∷ []) (codes "hi") node_now t
    × (t.remote_route_count ≡ 0)
    × (t.local_delivery_count + length t.stored ≡ 0 + 0 + 2)
handle_cluster_group_chat-each_example =
    handle_cluster_group_chat-each peers_now loop_now here_now (pos 1 ∷ pos 7 ∷ []) (codes "hi")
      node_now

login-Leaves_example :
    (Leaves 6
      (pos 7)
      buckets
      (login peers_now loop_now here_now 6 (pos 7) [] node_now).0
      (login peers_now loop_now here_now 6 (pos 7) [] node_now).1.buckets)
    × OthersKeep (pos 7) buckets (login peers_now loop_now here_now 6 (pos 7) [] node_now).1.buckets
login-Leaves_example = login-Leaves peers_now loop_now here_now 6 (pos 7) [] node_now (omega arith)
