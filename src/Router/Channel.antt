-- ===== src/Router/Channel.antt =====
-- `ClusterRouter::ShardChannel` and the operations on one channel (src/server/clusterrouter.cpp).
-- Each operation returns the channel and what it hands to the network library or to the event loop,
-- in order; where the code unlocks on the way, the parts are definitions of their own. `up` is the
-- answer of `connection->connected()` for the connection that is held.
use cluster_chat_server_with.Prelude.{
  ℕ, Bool, true, false, not, ◌&&◌, ◌||◌, List, [], ◌∷◌, ◌++◌, Option, none, some, Bytes, length,
  is_empty, leb, if◌then◌else◌,
}
use cluster_chat_server_with.Types.{NodeMeta}

pub record ShardChannel : Type 0 where
  pub channel_id : Bytes
  pub node_meta : NodeMeta
  pub io_loop : ℕ
  pub client : Bool
  pub connection : Option ℕ
  pub pending : List Bytes
  pub connecting : Bool
  pub overloaded : Bool
  pub closing : Bool
  pub pending_limit : ℕ
  pub high_water_mark : ℕ

-- The constructor's value.
abbrev pub new_channel : Bytes → NodeMeta → ℕ → ℕ → ℕ → ShardChannel
new_channel id meta loop limit water_mark = record {
  channel_id = id;
  node_meta = meta;
  io_loop = loop;
  client = false;
  connection = none;
  pending = [];
  connecting = false;
  overloaded = false;
  closing = false;
  pending_limit = limit;
  high_water_mark = water_mark;
}

-- `send` on a connection; a call that is handed to the channel's loop; a call of the TcpClient.
pub data Action : Type 0 where
  send : ℕ → Bytes → Action
  run_connect run_drain : Action
  run_stop : Option ℕ → Action
  new_client connect stop_client : Action
  force_close : ℕ → Action

-- `channel->connection && channel->connection->connected()`
abbrev pub is_connected : Bool → ShardChannel → Bool
is_connected up ch = elim ch.connection [ none ↦ false | some c ↦ up ]

abbrev pub conn_of : ShardChannel → ℕ
conn_of ch = elim ch.connection [ none ↦ 0 | some c ↦ c ]

-- What `enqueueOrSend` has found when it unlocks: the connection to send on, and what to schedule.
pub record Locked : Type 0 where
  pub channel : ShardChannel
  pub accepted : Bool
  pub direct : Option ℕ
  pub should_connect : Bool
  pub should_drain : Bool

abbrev pub rejected : ShardChannel → Locked
rejected ch = record {
  channel = ch;
  accepted = false;
  direct = none;
  should_connect = false;
  should_drain = false;
}

-- The part of `enqueueOrSend` under the lock.
unfoldable pub enqueue_locked : Bool → ShardChannel → Bytes → Locked
enqueue_locked up ch message =
    let connected = is_connected up ch in
    if ch.closing
    then rejected ch
    else if connected && not ch.overloaded && is_empty ch.pending
    then record (rejected ch) { accepted = true; direct = ch.connection }
    else if leb ch.pending_limit (length ch.pending)
    then rejected ch
    else let queued = record ch { pending = ch.pending ++ message ∷ [] } in
      if not connected && not ch.connecting
      then record (rejected (record queued { connecting = true })) {
        accepted = true;
        should_connect = true;
      }
      else if connected && not ch.overloaded
      then record (rejected queued) { accepted = true; should_drain = true }
      else record (rejected queued) { accepted = true }

-- The rest of it, without the lock.
unfoldable pub after_unlock : Locked → Bytes → List Action
after_unlock l message = elim l.direct [
  | some c ↦ send c message ∷ []
  | none ↦
      if l.should_connect then run_connect ∷ [] else if l.should_drain then run_drain ∷ [] else []
]

pub record Sent : Type 0 where
  pub channel : ShardChannel
  pub actions : List Action
  pub accepted : Bool

-- `enqueueOrSend` where no other thread comes between the two.
unfoldable pub enqueue_or_send : Bool → ShardChannel → Bytes → Sent
unfolding enqueue_locked after_unlock
enqueue_or_send up ch message =
    let l = enqueue_locked up ch message in
    record { channel = l.channel; actions = after_unlock l message; accepted = l.accepted }

-- The part of one round of `drainPendingInLoop` under the lock: the message to send behind it and
-- the connection for it, or the end of the loop.
unfoldable pub drain_round : Bool → ShardChannel → Option (ℕ × Bytes) × ShardChannel
drain_round up ch =
    if ch.closing || ch.overloaded
    then (none, ch)
    else if not (is_connected up ch)
    then (none, ch)
    else elim ch.pending [
      | [] ↦ (none, ch)
      | m ∷ ms ↦ (some (conn_of ch, m), record ch { pending = ms })
    ]

-- The two halves of `handleConnection`; the first goes on with `drainPendingInLoop`.
unfoldable pub handle_connected : ShardChannel → ℕ → ShardChannel
handle_connected ch conn = record ch {
  connection = some conn;
  connecting = false;
  overloaded = false;
}

unfoldable pub handle_disconnected : ShardChannel → ShardChannel
handle_disconnected ch = record ch {
  connection = none;
  overloaded = false;
  connecting = not ch.closing;
}

-- `handleWriteComplete`, which goes on with `drainPendingInLoop`.
unfoldable pub handle_write_complete : ShardChannel → ShardChannel
handle_write_complete ch = record ch { overloaded = false }

unfoldable pub handle_high_water_mark : ShardChannel → ShardChannel
handle_high_water_mark ch = record ch { overloaded = true }

-- `ensureClientInLoop`
unfoldable pub ensure_client : ShardChannel → ShardChannel × List Action
ensure_client ch =
    if ch.closing || ch.client then (ch, []) else (record ch { client = true }, new_client ∷ [])

-- What `scheduleConnect` runs in the channel's loop: the part under the lock, which tells whether
-- to go on, and the rest.
unfoldable pub connect_check : Bool → ShardChannel → Bool × ShardChannel
connect_check up ch =
    if ch.closing || is_connected up ch
    then (false, record ch { connecting = false })
    else (true, ch)

unfoldable pub connect_client : ShardChannel → ShardChannel × List Action
unfolding ensure_client
connect_client ch =
    let (ready, made) = ensure_client ch in
    if not ready.client
    then (record ready { connecting = false }, made)
    else (ready, made ++ connect ∷ [])

-- What `prewarmNode` does with each channel of the node.
unfoldable pub prewarm_channel : Bool → ShardChannel → ShardChannel × List Action
prewarm_channel up ch =
    if not ch.closing && not (is_connected up ch) && not ch.connecting
    then (record ch { connecting = true }, run_connect ∷ [])
    else (ch, [])

-- The part of `stopChannel` under the lock; the call that it queues captures the connection.
unfoldable pub stop_channel : ShardChannel → ShardChannel × List Action
stop_channel ch = (
  record ch { closing = true; connecting = false; pending = []; connection = none },
  run_stop ch.connection ∷ [],
)

-- The queued call.
unfoldable pub stop_in_loop : ShardChannel → Option ℕ → ShardChannel × List Action
stop_in_loop ch captured =
    let closed : List Action = elim captured [ none ↦ [] | some c ↦ force_close c ∷ [] ] in
    if ch.client then (record ch { client = false }, closed ++ stop_client ∷ []) else (ch, closed)
