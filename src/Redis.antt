-- ===== src/Redis.antt =====
-- `Redis` (src/server/redis/redis.cpp): the control plane's commands and what is made of their
-- replies. The server and hiredis are a parameter: `command` sends the words of a command on the
-- command connection, and gives the reply, or none where `redisCommand` returns a null pointer.
pub mod Encoding
pub mod Store
pub mod Observer
pub mod Sessions
pub mod Promises
pub mod Index
use cluster_chat_server_with.Prelude.{
  ℕ, zero, suc, ◌+◌, ◌-◌, ◌%◌, ◌^◌, Bool, true, false, not, List, [], ◌∷◌, ◌++◌, Option, none, some,
  Bytes, length, take, drop, is_empty, if◌then◌else◌, ℤ, pos, negsuc, is_nonpos, bytes_eq, St, pure,
  ◌>>=◌,
}
use cluster_chat_server_with.Text.{codes, decimal, to_string, rfind}
use cluster_chat_server_with.Types.{NodeMeta, no_node, valid}
use cluster_chat_server_with.Config.{atoi}

-- `redisReply`: the type with what the code reads of it. `str` may be a null pointer.
pub data Reply : Type 0 where
  status : Option Bytes → Reply
  string : Option Bytes → Reply
  array : List (Option Bytes) → Reply
  other : Reply

pub record RedisServer : Type 1 where
  pub State : Type 0
  pub command : List Bytes → State → Option Reply × State

abbrev pub node_key : Bytes → Bytes
node_key node_id = codes "chat:node:" ++ node_id

abbrev pub node_users_key : Bytes → Bytes
node_users_key node_id = codes "chat:node-users:" ++ node_id

abbrev pub session_key : ℤ → Bytes
session_key user_id = codes "chat:session:" ++ to_string user_id

-- The fields of a node's hash, names and values in turn.
unfoldable pub node_fields : NodeMeta → ℤ → List Bytes
node_fields m heartbeat_ms =
    codes "node_id"
    ∷ m.node_id
    ∷ codes "instance_id"
    ∷ m.instance_id
    ∷ codes "client_ip"
    ∷ m.client_ip
    ∷ codes "client_port"
    ∷ decimal m.client_port
    ∷ codes "inter_ip"
    ∷ m.inter_ip
    ∷ codes "inter_port"
    ∷ decimal m.inter_port
    ∷ codes "heartbeat_ms"
    ∷ to_string heartbeat_ms
    ∷ []

-- `static_cast<uint16_t>` of an int.
unfoldable pub to_u16 : ℤ → ℕ
to_u16 (pos n) = n % 2 ^ 16
to_u16 (negsuc n) = 2 ^ 16 - 1 - n % 2 ^ 16

-- The `if` ladder of `getNode` on one field.
unfoldable pub read_field : NodeMeta → Bytes → Bytes → NodeMeta
unfolding to_u16
read_field m field value =
    if bytes_eq field (codes "node_id")
    then record m { node_id = value }
    else if bytes_eq field (codes "instance_id")
    then record m { instance_id = value }
    else if bytes_eq field (codes "client_ip")
    then record m { client_ip = value }
    else if bytes_eq field (codes "client_port")
    then record m { client_port = to_u16 (atoi value) }
    else if bytes_eq field (codes "inter_ip")
    then record m { inter_ip = value }
    else if bytes_eq field (codes "inter_port")
    then record m { inter_port = to_u16 (atoi value) }
    else if bytes_eq field (codes "heartbeat_ms")
    then record m { heartbeat_ms = atoi value }
    else m

abbrev or_empty : Option Bytes → Bytes
or_empty none = []
or_empty (some s) = s

unfoldable pub read_fields : NodeMeta → List (Option Bytes) → NodeMeta
unfolding read_field
read_fields m (field ∷ value ∷ rest) =
    read_fields (read_field m (or_empty field) (or_empty value)) rest
read_fields m _ = m

-- `nodeId + "|" + instanceId`
unfoldable pub session_value : Bytes → Bytes → Bytes
session_value node_id instance_id = node_id ++ b'|' ∷ instance_id

-- What `getUserSession` makes of the value: the node and the instance.
unfoldable pub read_session : Bytes → Bytes × Bytes
read_session value = elim (rfind b'|' value) [
  | none ↦ (value, [])
  | some p ↦ (take p value, drop (p + 1) value)
]

-- The replies that have a text.
unfoldable pub texts : List (Option Bytes) → List Bytes
texts [] = []
texts (none ∷ rest) = texts rest
texts (some s ∷ rest) = s ∷ texts rest

unfoldable pub numbers : List Bytes → List ℤ
numbers [] = []
numbers (s ∷ rest) = atoi s ∷ numbers rest

module _ (r : RedisServer) where
  -- The commands in turn, up to the first that has no reply.
  unfoldable pub run_commands : List (List Bytes) → St r.State Bool
  run_commands [] w = (true, w)
  run_commands (c ∷ cs) w =
      let (reply, w') = r.command c w in
      elim reply [ none ↦ (false, w') | some _ ↦ run_commands cs w' ]

  -- `now_s` is `time(nullptr)`, which is read if the node has no heartbeat.
  unfoldable pub register_node : NodeMeta → ℤ → ℤ → St r.State Bool
  unfolding run_commands node_fields
  register_node m ttl_seconds now_ms =
      let heartbeat_ms = if is_nonpos m.heartbeat_ms then now_ms else m.heartbeat_ms in
      run_commands (
        (codes "HMSET" ∷ node_key m.node_id ∷ node_fields m heartbeat_ms)
        ∷ (codes "EXPIRE" ∷ node_key m.node_id ∷ to_string ttl_seconds ∷ [])
        ∷ (codes "SADD" ∷ codes "chat:nodes" ∷ m.node_id ∷ [])
        ∷ [])

  unfoldable pub unregister_node : Bytes → St r.State Bool
  unfolding run_commands
  unregister_node node_id = run_commands (
      (codes "DEL" ∷ node_key node_id ∷ [])
      ∷ (codes "DEL" ∷ node_users_key node_id ∷ [])
      ∷ (codes "SREM" ∷ codes "chat:nodes" ∷ node_id ∷ [])
      ∷ [])

  unfoldable pub get_node : Bytes → St r.State (Option NodeMeta)
  unfolding read_fields
  get_node node_id w =
      let (reply, w') = r.command (codes "HGETALL" ∷ node_key node_id ∷ []) w in
      let meta : Option NodeMeta = elim reply [
        | some (array (e ∷ es)) ↦
            let m = read_fields no_node (e ∷ es) in if valid m then some m else none
        | _ ↦ none
      ] in
      (meta, w')

  unfoldable pub get_node_ids : St r.State (List Bytes)
  unfolding texts
  get_node_ids w =
      let (reply, w') = r.command (codes "SMEMBERS" ∷ codes "chat:nodes" ∷ []) w in
      let ids : List Bytes = elim reply [ some (array es) ↦ texts es | _ ↦ [] ] in (ids, w')

  unfoldable pub bind_user_node : ℤ → Bytes → Bytes → St r.State Bool
  unfolding run_commands session_value
  bind_user_node user_id node_id instance_id w =
      let (reply, w') =
        r.command
          (codes "SET" ∷ session_key user_id ∷ session_value node_id instance_id ∷ codes "NX" ∷ [])
          w in
      let ok : Bool = elim reply [ some (status (some s)) ↦ bytes_eq s (codes "OK") | _ ↦ false ] in
      if ok
      then run_commands ((codes "SADD" ∷ node_users_key node_id ∷ to_string user_id ∷ []) ∷ []) w'
      else (false, w')

  unfoldable pub unbind_user_node : ℤ → Bytes → St r.State Bool
  unfolding run_commands
  unbind_user_node user_id node_id = run_commands (
      (codes "DEL" ∷ session_key user_id ∷ [])
      ∷ (if is_empty node_id
          then []
          else (codes "SREM" ∷ node_users_key node_id ∷ to_string user_id ∷ []) ∷ []))

  unfoldable pub get_user_session : ℤ → St r.State (Option (Bytes × Bytes))
  unfolding read_session
  get_user_session user_id w =
      let (reply, w') = r.command (codes "GET" ∷ session_key user_id ∷ []) w in
      let session : Option (Bytes × Bytes) = elim reply [
        | some (string (some value)) ↦
            let s = read_session value in if is_empty s.0 then none else some s
        | _ ↦ none
      ] in
      (session, w')

  unfoldable pub get_node_users : Bytes → St r.State (List ℤ)
  unfolding texts numbers
  get_node_users node_id w =
      let (reply, w') = r.command (codes "SMEMBERS" ∷ node_users_key node_id ∷ []) w in
      let users : List ℤ = elim reply [ some (array es) ↦ numbers (texts es) | _ ↦ [] ] in
      (users, w')
