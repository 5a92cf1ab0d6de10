-- ===== src/Types.antt =====
-- `NodeMeta` (include/server/clustertypes.hpp) and the message numbers (include/public.hpp).
use cluster_chat_server_with.Prelude.{ℕ, Bool, not, ◌&&◌, Bytes, is_empty, eqb, ℤ, pos, []}

pub record NodeMeta : Type 0 where
  pub node_id : Bytes
  pub instance_id : Bytes
  pub client_ip : Bytes
  pub client_port : ℕ
  pub inter_ip : Bytes
  pub inter_port : ℕ
  pub heartbeat_ms : ℤ

-- The constructor's value.
abbrev pub no_node : NodeMeta
no_node = record {
  node_id = [];
  instance_id = [];
  client_ip = [];
  client_port = 0;
  inter_ip = [];
  inter_port = 0;
  heartbeat_ms = pos 0;
}

-- `NodeMeta::valid`
unfoldable pub valid : NodeMeta → Bool
valid m = not (is_empty m.node_id) && not (is_empty m.inter_ip) && not (eqb m.inter_port 0)
