-- ===== src/Router/Table.antt =====
-- `ClusterRouter` itself (src/server/clusterrouter.cpp): the table of channels, and the messages
-- that go through it. A channel is a shared object: the table and the calls that are queued in the
-- loops hold a pointer, which is an index into `channels`.
use cluster_chat_server_with.Prelude.{
  ℕ, zero, suc, ◌+◌, ◌%◌, Bool, false, List, [], ◌∷◌, ◌++◌, none, some, Bytes, length, get_or, set,
  is_empty, eqb, leb, if◌then◌else◌, ◌&&◌, not, ℤ, pos, is_nonpos, to_nat, abs, Map, find, assign,
  erase, bytes_eq, bytes_eq_inst, ◌*◌,
}
use cluster_chat_server_with.Types.{NodeMeta, valid, no_node}
use cluster_chat_server_with.Config.{Environment, get_env_int_or_default}
use cluster_chat_server_with.Wire.Frame.{one_chat_frame}
use cluster_chat_server_with.Router.Channel.{
  ShardChannel, new_channel, Action, enqueue_or_send, prewarm_channel, stop_channel,
}
use cluster_chat_server_with.Text.{codes, decimal}

pub record Router : Type 0 where
  pub base_loop : ℕ
  pub io_loops : List ℕ
  pub warmed : Map Bytes Bytes
  pub conn_map : Map Bytes ℕ
  pub channels : List ShardChannel
  pub shard_count : ℕ
  pub connecting_queue_limit : ℕ
  pub high_water_mark : ℕ
  pub io_thread_count : ℕ

-- An action of a channel, with the pointer to the channel.
abbrev pub Effect : Type 0
Effect = ℕ × Action

abbrev on_channel : ℕ → List Action → List Effect
on_channel p [] = []
on_channel p (a ∷ rest) = (p, a) ∷ on_channel p rest

-- A positive setting replaces the default.
abbrev positive_or : ℕ → ℤ → ℕ
positive_or d z = if is_nonpos z then d else to_nat z

abbrev pub shards_key : Bytes
shards_key = codes "CHAT_INTER_NODE_SHARDS"

abbrev pub connecting_limit_key : Bytes
connecting_limit_key = codes "CHAT_INTER_NODE_CONNECTING_QUEUE_LIMIT"

abbrev pub limit_key : Bytes
limit_key = codes "CHAT_INTER_NODE_QUEUE_LIMIT"

abbrev pub high_water_key : Bytes
high_water_key = codes "CHAT_INTER_NODE_HIGH_WATER_MARK"

abbrev pub threads_key : Bytes
threads_key = codes "CHAT_INTER_NODE_IO_THREADS"

-- The constructor. `pool_loops n` is what `getAllLoops` gives for a pool of `n` threads.
unfoldable pub new_router : Environment → (ℕ → List ℕ) → ℕ → Router
new_router env pool_loops base_loop =
    let shards = positive_or 4 (get_env_int_or_default env shards_key (pos 4)) in
    let limit = positive_or 256 (
      get_env_int_or_default env connecting_limit_key
        (get_env_int_or_default env limit_key (pos 256))) in
    let water_mark =
      positive_or (512 * 1024) (get_env_int_or_default env high_water_key (pos (512 * 1024))) in
    let few = if leb shards 4 then shards else 4 in
    let at_least_one = if eqb few 0 then 1 else few in
    let threads = positive_or at_least_one (get_env_int_or_default env threads_key (pos 0)) in
    let loops = pool_loops threads in
    record {
      base_loop = base_loop;
      io_loops = if is_empty loops then base_loop ∷ [] else loops;
      warmed = [];
      conn_map = [];
      channels = [];
      shard_count = shards;
      connecting_queue_limit = limit;
      high_water_mark = water_mark;
      io_thread_count = threads;
    }

unfoldable pub same_endpoint : NodeMeta → NodeMeta → Bool
same_endpoint lhs rhs = bytes_eq lhs.inter_ip rhs.inter_ip && eqb lhs.inter_port rhs.inter_port

-- `-userId` of the smallest int is undefined behaviour in the source; elsewhere this is it.
unfoldable pub pick_shard : Router → ℤ → ℕ
pick_shard r user_id = if eqb r.shard_count 0 then 0 else abs user_id % r.shard_count

unfoldable pub make_channel_key : Bytes → ℕ → Bytes
make_channel_key node_id shard_index = node_id ++ b'#' ∷ decimal shard_index

abbrev pub nth : List ShardChannel → ℕ → ShardChannel
nth cs p = get_or cs p (new_channel [] no_node 0 0 0)

-- `stopChannel` on a shared channel.
unfoldable pub stop_at : Router → ℕ → Router × List Effect
unfolding stop_channel
stop_at r p =
    let (stopped, acts) = stop_channel (nth r.channels p) in
    (record r { channels = set r.channels p stopped }, on_channel p acts)

-- A channel whose endpoint is out of date leaves the table, and is stopped.
unfoldable pub drop_stale : Router → Bytes → ℕ → Router × List Effect
unfolding stop_at
drop_stale r key p = stop_at (record r { conn_map = erase key r.conn_map }) p

abbrev pick_loop : Router → (Bytes → ℕ) → Bytes → ℕ
pick_loop r hash key =
    if is_empty r.io_loops
    then r.base_loop
    else get_or r.io_loops (hash key % length r.io_loops) r.base_loop

-- The second half of `getOrCreateChannel`: a new channel, unless the table has one by now.
unfoldable pub create_channel : Router → (Bytes → ℕ) → NodeMeta → Bytes → Router × ℕ × List Effect
unfolding stop_at
create_channel r hash meta key =
    let fresh =
      new_channel key meta (pick_loop r hash key) r.connecting_queue_limit r.high_water_mark in
    let p = length r.channels in
    let made = record r { channels = r.channels ++ fresh ∷ [] } in
    elim (find key r.conn_map) [
      | some q ↦ let (stopped, acts) = stop_at made p in (stopped, q, acts)
      | none ↦ (record made { conn_map = assign key p r.conn_map }, p, [])
    ]

-- `hash` stands for `std::hash<string>`.
unfoldable pub get_or_create_channel :
    Router → (Bytes → ℕ) → NodeMeta → ℕ → Router × ℕ × List Effect
unfolding make_channel_key same_endpoint drop_stale create_channel
get_or_create_channel r hash meta shard_index =
    let key = make_channel_key meta.node_id shard_index in
    elim (find key r.conn_map) [
      | none ↦ create_channel r hash meta key
      | some p ↦
          let (cleared, stopping) = drop_stale r key p in
          let (made, q, acts) = create_channel cleared hash meta key in
          if same_endpoint (nth r.channels p).node_meta meta
          then (r, p, [])
          else (made, q, stopping ++ acts)
    ]

-- `up p` is the state of the connection that channel `p` holds.
unfoldable pub send_internal_message :
    Router → (Bytes → ℕ) → (ℕ → Bool) → NodeMeta → ℕ → Bytes → Router × Bool × List Effect
unfolding get_or_create_channel
send_internal_message r hash up meta shard_index message =
    let (r', p, acts) = get_or_create_channel r hash meta shard_index in
    let sent = enqueue_or_send (up p) (nth r'.channels p) message in
    (
      record r' { channels = set r'.channels p sent.channel },
      sent.accepted,
      acts ++ on_channel p sent.actions,
    )

unfoldable pub send_one_chat :
    Router → (Bytes → ℕ) → (ℕ → Bool) → NodeMeta → ℤ → Bytes → Router × Bool × List Effect
unfolding send_internal_message pick_shard
send_one_chat r hash up meta to_user payload =
    if not (valid meta)
    then (r, false, [])
    else send_internal_message r hash up meta (pick_shard r to_user)
        (one_chat_frame to_user payload)

-- The JSON object of `sendGroupChat`; `dump` stands for `json::dump` on it.
pub record GroupMessage : Type 0 where
  pub from_node : Bytes
  pub to_node : Bytes
  pub to_users : List ℤ
  pub payload : Bytes
  pub trace_id : Bytes

unfoldable pub send_group_chat :
    (GroupMessage → Bytes)
    → Router
    → (Bytes → ℕ)
    → (ℕ → Bool)
    → NodeMeta
    → Bytes
    → List ℤ
    → Bytes
    → Bytes
    → Router × Bool × List Effect
unfolding send_internal_message pick_shard
send_group_chat dump r hash up meta from_node to_users payload trace_id =
    let js : GroupMessage = record {
      from_node = from_node;
      to_node = meta.node_id;
      to_users = to_users;
      payload = payload;
      trace_id = trace_id;
    } in
    let shard_index : ℕ = elim to_users [ [] ↦ 0 | u ∷ us ↦ pick_shard r u ] in
    if not (valid meta)
    then (r, false, [])
    else send_internal_message r hash up meta shard_index (dump js ++ 0 ∷ [])

-- The `for` over the shards; the argument is the number of shards left.
unfoldable pub prewarm_shards :
    Router → (Bytes → ℕ) → (ℕ → Bool) → NodeMeta → ℕ → ℕ → Router × List Effect
unfolding get_or_create_channel prewarm_channel
prewarm_shards r hash up meta shard_index zero = (r, [])
prewarm_shards r hash up meta shard_index (suc left) =
    let (r', p, acts) = get_or_create_channel r hash meta shard_index in
    let (warm, more) = prewarm_channel (up p) (nth r'.channels p) in
    let (r'', rest) =
      prewarm_shards (record r' { channels = set r'.channels p warm }) hash up meta
        (shard_index + 1) left in
    (r'', acts ++ on_channel p more ++ rest)

unfoldable pub prewarm_node : Router → (Bytes → ℕ) → (ℕ → Bool) → NodeMeta → Router × List Effect
unfolding prewarm_shards
prewarm_node r hash up meta =
    let warmed = record r { warmed = assign meta.node_id meta.instance_id r.warmed } in
    let warm = prewarm_shards warmed hash up meta 0 r.shard_count in
    if not (valid meta) then (r, []) else elim (find meta.node_id r.warmed) [
      | none ↦ warm
      | some instance ↦ if bytes_eq instance meta.instance_id then (r, []) else warm
    ]

-- `closeAll`: the channels of the table are taken out and stopped one by one.
unfoldable pub stop_each : Router → Map Bytes ℕ → Router × List Effect
unfolding stop_at
stop_each r [] = (r, [])
stop_each r ((key, p) ∷ items) =
    let (r', acts) = stop_at r p in let (r'', rest) = stop_each r' items in (r'', acts ++ rest)

unfoldable pub close_all : Router → Router × List Effect
unfolding stop_each
close_all r = stop_each (record r { conn_map = [] }) r.conn_map
