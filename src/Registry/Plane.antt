-- ===== src/Registry/Plane.antt =====
-- What `NodeRegistry` uses: the operations of `Redis`, and the steady clock.
use cluster_chat_server_with.Prelude.{ℕ, List, Option, Bool, Bytes, ℤ}
use cluster_chat_server_with.Types.{NodeMeta}
use cluster_chat_server_with.Redis
use cluster_chat_server_with.Redis.{RedisServer}

pub record ControlPlane : Type 1 where
  pub State : Type 0
  pub now_ms : State → ℕ × State
  pub register_node : NodeMeta → ℤ → State → Bool × State
  pub unregister_node : Bytes → State → Bool × State
  pub get_node : Bytes → State → Option NodeMeta × State
  pub get_node_ids : State → List Bytes × State
  pub bind_user_node : ℤ → Bytes → Bytes → State → Bool × State
  pub unbind_user_node : ℤ → Bytes → State → Bool × State
  pub get_user_session : ℤ → State → Option (Bytes × Bytes) × State
  pub get_node_users : Bytes → State → List ℤ × State

-- `Redis` as a control plane: the clock and the wall clock are the machine's.
abbrev pub redis_plane : (r : RedisServer) → (r.State → ℕ × r.State) → (r.State → ℤ) → ControlPlane
redis_plane r clock wall_ms = record {
  State = r.State;
  now_ms = clock;
  register_node = λ m ttl w. Redis.register_node r m ttl (wall_ms w) w;
  unregister_node = Redis.unregister_node r;
  get_node = Redis.get_node r;
  get_node_ids = Redis.get_node_ids r;
  bind_user_node = Redis.bind_user_node r;
  unbind_user_node = Redis.unbind_user_node r;
  get_user_session = Redis.get_user_session r;
  get_node_users = Redis.get_node_users r;
}
