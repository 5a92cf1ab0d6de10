-- ===== src/Router/Ready.antt =====
-- What the router does with a message when the channel of the node and the shard is connected and
-- has nothing queued.
use cluster_chat_server_with.Prelude.{
  ℕ, ◌≡◌, refl, Bool, true, false, List, [], ◌∷◌, ◌++◌, some, Bytes, set, ℤ, find, bytes_eq_inst,
  bytes_eq_refl,
}
use cluster_chat_server_with.Types.{NodeMeta, valid}
use cluster_chat_server_with.Wire.Frame.{one_chat_frame}
use cluster_chat_server_with.Router.Channel.{
  ShardChannel, send, enqueue_locked, after_unlock, enqueue_or_send,
}
use cluster_chat_server_with.Router.Table.{
  Router, nth, same_endpoint, pick_shard, make_channel_key, get_or_create_channel,
  send_internal_message, send_one_chat, prewarm_node, GroupMessage, send_group_chat,
}

-- A channel that sends at once, on the connection `conn`.
pub record IsIdle (ch : ShardChannel) (conn : ℕ) : Type 0 where
  pub is_open : ch.closing ≡ false
  pub holds : ch.connection ≡ some conn
  pub flows : ch.overloaded ≡ false
  pub is_drained : ch.pending ≡ []

-- The node has been warmed up, and channel `p` of the table is the one for the node and the user's
-- shard.
pub record IsReady (r : Router) (up : ℕ → Bool) (meta : NodeMeta) (user : ℤ) (p conn : ℕ)
    : Type 0 where
  pub is_valid : valid meta ≡ true
  pub is_warm : find meta.node_id r.warmed ≡ some meta.instance_id
  pub in_table : find (make_channel_key meta.node_id (pick_shard r user)) r.conn_map ≡ some p
  pub same_address : same_endpoint (nth r.channels p).node_meta meta ≡ true
  pub is_up : up p ≡ true
  pub is_idle : IsIdle (nth r.channels p) conn

enqueue_or_send-IsIdle :
    (ch : ShardChannel) (conn : ℕ) (message : Bytes)
    → IsIdle ch conn
    → enqueue_or_send true ch message
      ≡ record { channel = ch; actions = send conn message ∷ []; accepted = true }
unfolding enqueue_or_send enqueue_locked after_unlock
enqueue_or_send-IsIdle ch conn message h = rw (h.is_open, h.holds, h.flows, h.is_drained) refl

pub prewarm_node-IsReady :
    (r : Router) (hash : Bytes → ℕ) (up : ℕ → Bool) (meta : NodeMeta) (user : ℤ) (p conn : ℕ)
    → IsReady r up meta user p conn
    → prewarm_node r hash up meta ≡ (r, [])
unfolding prewarm_node
prewarm_node-IsReady r hash up meta user p conn h =
    rw (h.is_valid, h.is_warm, bytes_eq_refl meta.instance_id) refl

-- The channel is written back as it was.
abbrev pub same_channels : Router → ℕ → Router
same_channels r p = record r { channels = set r.channels p (nth r.channels p) }

get_or_create_channel-IsReady :
    (r : Router) (hash : Bytes → ℕ) (up : ℕ → Bool) (meta : NodeMeta) (user : ℤ) (p conn : ℕ)
    → IsReady r up meta user p conn
    → get_or_create_channel r hash meta (pick_shard r user) ≡ (r, p, [])
unfolding get_or_create_channel
get_or_create_channel-IsReady r hash up meta user p conn h =
    rw (h.in_table, get_or_create_channel, h.same_address) refl

pub send_one_chat-IsReady :
    (r : Router) (hash : Bytes → ℕ) (up : ℕ → Bool) (meta : NodeMeta) (user : ℤ) (payload : Bytes)
    (p conn : ℕ)
    → IsReady r up meta user p conn
    → send_one_chat r hash up meta user payload
      ≡ (same_channels r p, true, (p, send conn (one_chat_frame user payload)) ∷ [])
unfolding send_one_chat send_internal_message
send_one_chat-IsReady r hash up meta user payload p conn h =
    rw
      (
        h.is_valid,
        get_or_create_channel-IsReady r hash up meta user p conn h,
        h.is_up,
        enqueue_or_send-IsIdle (nth r.channels p) conn (one_chat_frame user payload) h.is_idle,
      )
      refl

pub send_group_chat-IsReady :
    (dump : GroupMessage → Bytes) (r : Router) (hash : Bytes → ℕ) (up : ℕ → Bool) (meta : NodeMeta)
    (from_node : Bytes) (user : ℤ) (users : List ℤ) (payload trace_id : Bytes) (p conn : ℕ)
    → IsReady r up meta user p conn
    → let g : GroupMessage = record {
      from_node = from_node;
      to_node = meta.node_id;
      to_users = user ∷ users;
      payload = payload;
      trace_id = trace_id;
    } in
      send_group_chat dump r hash up meta from_node (user ∷ users) payload trace_id
      ≡ (same_channels r p, true, (p, send conn (dump g ++ 0 ∷ [])) ∷ [])
unfolding send_group_chat send_internal_message
send_group_chat-IsReady dump r hash up meta from_node user users payload trace_id p conn h =
    rw
      (
        h.is_valid,
        get_or_create_channel-IsReady r hash up meta user p conn h,
        h.is_up,
        enqueue_or_send-IsIdle (nth r.channels p) conn _ h.is_idle,
      )
      refl
