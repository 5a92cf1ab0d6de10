-- ===== src/Service/Chat.antt =====
-- The handlers that pass a message on (src/server/chatservice.cpp): `oneChat`, `groupChat`, and
-- those for messages from other nodes.
use cluster_chat_server_with.Prelude.{
  ℕ, ◌+◌, Bool, true, false, not, List, [], ◌∷◌, ◌++◌, Option, none, some, Bytes, if◌then◌else◌, ℤ,
  Map, find, assign, bytes_eq, nat_eq, St, ◌>>=◌, ◌>>◌,
}
use cluster_chat_server_with.Types.{NodeMeta}
use cluster_chat_server_with.Models.{User, Group}
use cluster_chat_server_with.Service.Connections.{Conn, Buckets, get_local_connection}
use cluster_chat_server_with.Service.Dispatch.{Task, Dispatcher, new_dispatcher, enqueue, drain}

-- What the handlers use of the registry, the router and the tables.
pub record Peers : Type 1 where
  pub State : Type 0
  pub resolve_user_node : ℤ → State → Option (Bytes × NodeMeta) × State
  pub query_user_node : ℤ → State → Option Bytes × State
  pub query_node : Bytes → State → Option NodeMeta × State
  pub bind_user : ℤ → State → Bool × State
  pub unbind_user : ℤ → State → Bool × State
  pub prewarm_node : NodeMeta → State → Unit {0} × State
  pub send_one_chat : NodeMeta → Bytes → ℤ → Bytes → Bytes → State → Bool × State
  pub send_group_chat : NodeMeta → Bytes → List ℤ → Bytes → Bytes → State → Bool × State
  pub build_trace_id : ℤ → State → Bytes × State
  pub insert_offline : ℤ → Bytes → State → Bool × State
  pub query_group_users : ℤ → ℤ → State → List ℤ × State
  pub update_state : User → State → Bool × State
  pub reset_state : State → Bool × State
  pub insert_user : User → State → Option User × State
  pub query_user : ℤ → State → User × State
  pub query_offline : ℤ → State → List Bytes × State
  pub remove_offline : ℤ → State → Bool × State
  pub insert_friend : ℤ → ℤ → State → Bool × State
  pub query_friends : ℤ → State → List User × State
  pub create_group : Group → State → Option Group × State
  pub add_group : ℤ → ℤ → Bytes → State → Bool × State
  pub query_groups : ℤ → State → List Group × State
  pub get_node_users : Bytes → State → List ℤ × State
  pub stop_registry : State → Unit {0} × State
  pub close_all : State → Unit {0} × State

module _ (p : Peers) (loop_of : Conn → ℕ) (in_loop : ℕ → Bool) where
  -- `ChatService`, with the world behind `Peers`. `clustered` tells whether `initNode` has set
  -- `nodeRegistry_` and `clusterRouter_`; `outbox` holds what was sent on connections, `queued` the
  -- loops with a drain queued, and `stored` what was handed to the table of offline messages.
  pub record Node : Type 0 where
    pub world : p.State
    pub buckets : Buckets
    pub dispatchers : Map ℕ Dispatcher
    pub local_queue_limit : ℕ
    pub clustered : Bool
    pub self_node : NodeMeta
    pub outbox : List Task
    pub queued : List ℕ
    pub stored : List (ℤ × Bytes)
    pub local_delivery_count : ℕ
    pub remote_route_count : ℕ
    pub remote_route_fail_count : ℕ
    pub offline_fallback_count : ℕ
    pub stale_session_count : ℕ

  unfoldable pub peers : {A : Type 0} → St p.State A → St Node A
  peers m s = let r = m s.world in (r.0, record s { world = r.1 })

  unfoldable pub count_local : St Node (Unit {0})
  count_local s = (tt, record s { local_delivery_count = s.local_delivery_count + 1 })

  unfoldable pub count_remote : St Node (Unit {0})
  count_remote s = (tt, record s { remote_route_count = s.remote_route_count + 1 })

  unfoldable pub count_remote_fail : St Node (Unit {0})
  count_remote_fail s = (tt, record s { remote_route_fail_count = s.remote_route_fail_count + 1 })

  unfoldable pub count_stale : St Node (Unit {0})
  count_stale s = (tt, record s { stale_session_count = s.stale_session_count + 1 })

  -- `getOrCreateLocalDispatcher`
  unfoldable pub local_dispatcher : ℕ → Node → Dispatcher
  local_dispatcher loop s = elim (find loop s.dispatchers) [
    | none ↦ new_dispatcher loop s.local_queue_limit
    | some d ↦ d
  ]

  unfoldable pub put_dispatcher : ℕ → Dispatcher → Node → Node
  put_dispatcher loop d s = record s { dispatchers = assign loop d s.dispatchers }

  -- The end of `enqueueLocalDelivery`: a drain in the caller's own thread, or a queued one.
  unfoldable pub schedule : ℕ → Dispatcher → Node → Node
  unfolding drain put_dispatcher
  schedule loop d s =
      let (tasks, emptied) = drain d in
      if in_loop loop
      then record (put_dispatcher loop emptied s) { outbox = s.outbox ++ tasks }
      else record (put_dispatcher loop d s) { queued = s.queued ++ loop ∷ [] }

  unfoldable pub enqueue_local_delivery : Conn → Bytes → St Node Bool
  unfolding local_dispatcher enqueue schedule put_dispatcher
  enqueue_local_delivery conn msg s =
      let loop = loop_of conn in
      let r = enqueue (local_dispatcher loop s) (record { conn = conn; msg = msg }) in
      if not r.accepted
      then (false, put_dispatcher loop r.dispatcher s)
      else if r.should_schedule
      then (true, schedule loop r.dispatcher s)
      else (true, put_dispatcher loop r.dispatcher s)

  unfoldable pub deliver_on : Option Conn → Bytes → St Node Bool
  unfolding enqueue_local_delivery
  deliver_on none msg s = (false, s)
  deliver_on (some conn) msg s = enqueue_local_delivery conn msg s

  unfoldable pub deliver_to_local_user : ℤ → Bytes → St Node Bool
  unfolding deliver_on
  deliver_to_local_user user_id msg s = deliver_on (get_local_connection user_id s.buckets) msg s

  unfoldable pub store_offline : ℤ → Bytes → St Node (Unit {0})
  unfolding peers
  store_offline user_id msg s =
      let (ok, t) = peers (p.insert_offline user_id msg) s in
      (
        tt,
        record t {
          offline_fallback_count = t.offline_fallback_count + 1;
          stored = t.stored ++ (user_id, msg) ∷ [];
        },
      )

  -- `if (sent)` in `oneChat`, and what follows it.
  unfoldable pub finish_remote : Bool → ℤ → Bytes → St Node (Unit {0})
  unfolding count_remote count_remote_fail store_offline
  finish_remote true to_id msg = count_remote
  finish_remote false to_id msg = do count_remote_fail; store_offline to_id msg

  unfoldable pub send_remote : NodeMeta → ℤ → ℤ → Bytes → St Node (Unit {0})
  unfolding peers finish_remote
  send_remote meta from_id to_id msg s =
      let (_, s1) = peers (p.prewarm_node meta) s in
      let (trace, s2) = peers (p.build_trace_id from_id) s1 in
      let (sent, s3) = peers (p.send_one_chat meta s2.self_node.node_id to_id msg trace) s2 in
      finish_remote sent to_id msg s3

  unfoldable pub forget_stale : ℤ → Bytes → St Node (Unit {0})
  unfolding count_stale peers store_offline
  forget_stale to_id msg = do count_stale; _ ← peers (p.unbind_user to_id); store_offline to_id msg

  unfoldable pub is_self : Bytes → Node → Bool
  is_self node_id s = bytes_eq s.self_node.node_id node_id

  unfoldable pub route_one : Option (Bytes × NodeMeta) → ℤ → ℤ → Bytes → St Node (Unit {0})
  unfolding store_offline is_self forget_stale send_remote
  route_one none from_id to_id msg s = store_offline to_id msg s
  route_one (some (node_id, meta)) from_id to_id msg s =
      if is_self node_id s then forget_stale to_id msg s else send_remote meta from_id to_id msg s

  -- `nodeRegistry_ && nodeRegistry_->resolveUserNode(...)`
  unfoldable pub resolve : ℤ → St Node (Option (Bytes × NodeMeta))
  unfolding peers
  resolve user_id s = if s.clustered then peers (p.resolve_user_node user_id) s else (none, s)

  unfoldable pub after_local : Bool → ℤ → ℤ → Bytes → St Node (Unit {0})
  unfolding count_local resolve route_one
  after_local true from_id to_id msg s = count_local s
  after_local false from_id to_id msg s =
      let (resolved, t) = resolve to_id s in route_one resolved from_id to_id msg t

  -- `oneChat` on a request whose text is `msg`.
  unfoldable pub one_chat : ℤ → ℤ → Bytes → St Node (Unit {0})
  unfolding deliver_to_local_user after_local
  one_chat from_id to_id msg s =
      let (delivered, t) = deliver_to_local_user to_id msg s in
      after_local delivered from_id to_id msg t

  unfoldable pub handle_redis_subscribe_message : ℤ → Bytes → St Node (Unit {0})
  unfolding deliver_to_local_user count_local store_offline
  handle_redis_subscribe_message user_id msg s =
      let (delivered, t) = deliver_to_local_user user_id msg s in
      if delivered then count_local t else store_offline user_id msg t

  -- `queryUserNode(...) && !isSelfNode(...)` and its branches.
  unfoldable pub note_absent : Option Bytes → ℤ → St Node (Unit {0})
  unfolding peers count_stale is_self
  note_absent none user_id s = (tt, (peers (p.unbind_user user_id) s).1)
  note_absent (some node_id) user_id s =
      if not (is_self node_id s) then count_stale s else (tt, (peers (p.unbind_user user_id) s).1)

  unfoldable pub check_absent : ℤ → St Node (Unit {0})
  unfolding peers note_absent
  check_absent user_id s =
      let (found, t) = peers (p.query_user_node user_id) s in
      if s.clustered then note_absent found user_id t else (tt, s)

  unfoldable pub after_frame : Bool → ℤ → Bytes → St Node (Unit {0})
  unfolding count_local check_absent store_offline
  after_frame true to_user payload = count_local
  after_frame false to_user payload = do check_absent to_user; store_offline to_user payload

  unfoldable pub handle_cluster_one_chat_frame : ℤ → Bytes → St Node (Unit {0})
  unfolding deliver_to_local_user after_frame
  handle_cluster_one_chat_frame to_user payload s =
      let (delivered, t) = deliver_to_local_user to_user payload s in
      after_frame delivered to_user payload t

  -- The loop of `handleClusterGroupChat`, whose body is that of the frame handler.
  unfoldable pub handle_cluster_group_chat : List ℤ → Bytes → St Node (Unit {0})
  unfolding handle_cluster_one_chat_frame
  handle_cluster_group_chat [] payload s = (tt, s)
  handle_cluster_group_chat (u ∷ us) payload s =
      handle_cluster_group_chat us payload (handle_cluster_one_chat_frame u payload s).1
