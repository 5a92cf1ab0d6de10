-- ===== src/Cluster/Ready.antt =====
-- What holds of a node that has been started.
use cluster_chat_server_with.Prelude.{
  ℕ, ◌*◌, ◌≤◌, ◌≡◌, refl, sym, ◌∙◌, Bool, true, false, not, List, [], ◌∷◌, some, Bytes, is_empty,
  replicate, if◌then◌else◌, if_cases, arith, ℤ, pos, negsuc, is_nonpos, to_nat, leb, eqb,
}
use cluster_chat_server_with.Text.{codes}
use cluster_chat_server_with.Types.{NodeMeta}
use cluster_chat_server_with.Config.{Environment, get_env_int_or_default}
use cluster_chat_server_with.Json.{Json}
use cluster_chat_server_with.Models.{Database}
use cluster_chat_server_with.Registry
use cluster_chat_server_with.Registry.Plane.{ControlPlane}
use cluster_chat_server_with.Registry.Self.{list_nodes-same, init-same}
use cluster_chat_server_with.Router.Table.{
  new_router, shards_key, connecting_limit_key, limit_key, high_water_key, threads_key,
}
use cluster_chat_server_with.Service.Connections.{Conn}
use cluster_chat_server_with.Cluster.Machine.{Machine, in_registry, prewarm}
use cluster_chat_server_with.Cluster.Start.{
  io_threads, queue_limit, ChatNode, new_service, prewarm_others, prewarm_known, init_node, start,
}

positive_nat : (z : ℤ) → is_nonpos z ≡ false → 1 ≤ to_nat z
positive_nat (pos n) e = ground arith
positive_nat (negsuc n) e = absurd (cc)

at_least_one : (d : ℕ) (z : ℤ) → 1 ≤ d → 1 ≤ (if is_nonpos z then d else to_nat z)
at_least_one d z h = if_cases (λ n. 1 ≤ n) (is_nonpos z) d (to_nat z) (λ _. h) (positive_nat z)

few_threads :
    (shards : ℕ)
    → 1 ≤ (let few = if leb shards 4 then shards else 4 in if eqb few 0 then 1 else few)
few_threads shards = ground arith

-- Whatever the environment says, a server has at least one thread, the queue of a loop has room for
-- at least one message, and the router has at least one shard, one thread, one loop, a queue for at
-- least one message and a high-water mark of at least one byte.
pub settings_positive :
    (env : Environment) (key : Bytes) (pool_loops : ℕ → List ℕ) (base_loop : ℕ)
    → let r = new_router env pool_loops base_loop in
      (1 ≤ io_threads env key)
      × (1 ≤ queue_limit env)
      × (1 ≤ r.shard_count)
      × (1 ≤ r.io_thread_count)
      × (is_empty r.io_loops ≡ false)
      × (1 ≤ r.connecting_queue_limit)
      × (1 ≤ r.high_water_mark)
unfolding io_threads queue_limit new_router
settings_positive env key pool_loops base_loop = (
  at_least_one 4 (get_env_int_or_default env key (pos 4)) (omega arith),
  at_least_one 8192
      (get_env_int_or_default env (codes "CHAT_LOCAL_DELIVERY_QUEUE_LIMIT") (pos 8192))
      (omega arith),
  at_least_one 4 (get_env_int_or_default env shards_key (pos 4)) (omega arith),
  at_least_one _ (get_env_int_or_default env threads_key (pos 0))
      (few_threads (new_router env pool_loops base_loop).shard_count),
  if_cases (λ ls. is_empty ls ≡ false)
      (is_empty (pool_loops (new_router env pool_loops base_loop).io_thread_count)) (base_loop ∷ [])
      (pool_loops (new_router env pool_loops base_loop).io_thread_count) (λ _. refl) (λ e. e),
  at_least_one 256
      (get_env_int_or_default env connecting_limit_key
        (get_env_int_or_default env limit_key (pos 256)))
      (omega arith),
  at_least_one (512 * 1024) (get_env_int_or_default env high_water_key (pos (512 * 1024)))
      (omega arith),
)

module _ (c : ControlPlane) (d : Database) (j : Json) (hash : Bytes → ℕ) (loop_of : Conn → ℕ)
    (in_loop : ℕ → Bool) where
  abbrev M : Type 0
  M = Machine c d j hash

  abbrev self_of : M → NodeMeta
  self_of m = m.sys.registry.self_node

  prewarm_others-same :
      (ns : List NodeMeta) (m : M)
      → self_of (prewarm_others c d j hash loop_of in_loop ns m) ≡ self_of m
  unfolding prewarm_others prewarm
  prewarm_others-same [] m = refl
  prewarm_others-same (n ∷ ns) m =
      prewarm_others-same ns _
      ∙ if_cases (λ t. self_of t ≡ self_of m) (not (Registry.is_self_node c m.sys n.node_id))
          ((prewarm c d j hash n m).1) m (λ _. refl) (λ _. refl)

  prewarm_known-same :
      (ok : Bool) (m : M) → self_of (prewarm_known c d j hash loop_of in_loop ok m) ≡ self_of m
  unfolding prewarm_known in_registry
  prewarm_known-same false m = refl
  prewarm_known-same true m =
      prewarm_others-same (Registry.list_nodes c m.sys).0
        (record m { sys = (Registry.list_nodes c m.sys).1 })
      ∙ list_nodes-same c m.sys

  init_node-same :
      (env : Environment) (pool_loops : ℕ → List ℕ) (base_loop : ℕ) (self : NodeMeta)
      (s : ChatNode c d j hash loop_of in_loop)
      → self_of (init_node c d j hash loop_of in_loop env pool_loops base_loop self s).world ≡ self
  unfolding init_node in_registry
  init_node-same env pool_loops base_loop self s = prewarm_known-same _ _ ∙ init-same c self _ _ _

  -- With an address and a port on the command line, and whatever the environment and the control
  -- plane say, `main` starts a node: its service and its registry speak for the same node, it has
  -- 64 buckets and no users, and the queues of its loops have room.
  pub start_ready :
      (env : Environment) (pool_loops : ℕ → List ℕ) (base_loop wall_ms : ℕ)
      (program ip port_text : Bytes) (rest : List Bytes) (world : M)
      → (s : ChatNode c d j hash loop_of in_loop) × (start c d j hash loop_of in_loop env pool_loops
            base_loop wall_ms
            (program ∷ ip ∷ port_text ∷ rest)
            world
          ≡ some s)
        × (s.self_node ≡ self_of s.world)
        × (s.clustered ≡ true)
        × (s.buckets ≡ replicate 64 [])
        × (1 ≤ s.local_queue_limit)
  unfolding start init_node new_service
  start_ready env pool_loops base_loop wall_ms program ip port_text rest world = (
    _,
    refl,
    sym (
        init_node-same env pool_loops base_loop _
          (new_service c d j hash loop_of in_loop env world)),
    refl,
    refl,
    (settings_positive env [] pool_loops base_loop).1,
  )
