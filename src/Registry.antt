-- ===== src/Registry.antt =====
-- `NodeRegistry` (src/server/noderegistry.cpp): which node a user's session belongs to, and whether
-- that node is alive, over the control plane and two caches.
pub mod Plane
pub mod Sessions
pub mod Shared
pub mod Cleanup
pub mod Self
pub mod Resolve
use cluster_chat_server_with.Prelude.{
  ℕ, ◌+◌, ◌-◌, ◌/◌, Bool, true, false, not, ◌&&◌, ◌||◌, List, [], ◌∷◌, ◌++◌, Option, none, some,
  Bytes, is_empty, eqb, leb, ltb, if◌then◌else◌, ℤ, pos, negsuc, is_nonpos, to_nat, Map, find,
  assign, erase, bytes_eq, bytes_eq_inst, int_eq_inst, St, pure, ◌>>=◌, ◌>>◌,
}
use cluster_chat_server_with.Types.{NodeMeta, no_node}
use cluster_chat_server_with.Registry.Plane.{ControlPlane}

-- `UserRouteCacheEntry`
pub record UserRoute : Type 0 where
  pub node_id : Bytes
  pub instance_id : Bytes
  pub expire_at_ms : ℕ

-- `NodeMetaCacheEntry`
pub record NodeEntry : Type 0 where
  pub node_meta : NodeMeta
  pub expire_at_ms : ℕ

pub record Registry : Type 0 where
  pub self_node : NodeMeta
  pub heartbeat_interval_ms : ℤ
  pub heartbeat_timeout_ms : ℤ
  pub route_cache_ttl_ms : ℕ
  pub running : Bool
  pub user_routes : Map ℤ UserRoute
  pub node_metas : Map Bytes NodeEntry

-- The constructor's value.
abbrev pub new_registry : Registry
new_registry = record {
  self_node = no_node;
  heartbeat_interval_ms = pos 3000;
  heartbeat_timeout_ms = pos 10000;
  route_cache_ttl_ms = 1000;
  running = false;
  user_routes = [];
  node_metas = [];
}

-- 2 - k
abbrev two_less : ℕ → ℤ
two_less k = if leb k 2 then pos (2 - k) else negsuc (k - 3)

-- `heartbeatTimeoutMs_ / 1000 + 2`: the division of an int rounds to zero.
unfoldable pub ttl_seconds : ℤ → ℤ
ttl_seconds (pos n) = pos (n / 1000 + 2)
ttl_seconds (negsuc n) = two_less ((n + 1) / 1000)

-- The choice of `routeCacheTtlMs_` in `init`.
unfoldable pub cache_ttl : ℤ → ℕ
cache_ttl interval =
    if is_nonpos interval
    then 1000
    else if ltb 1000 (to_nat interval)
    then 1000
    else to_nat interval

module _ (c : ControlPlane) where
  -- The registry's members, and the world outside.
  pub record Sys : Type 0 where
    pub registry : Registry
    pub world : c.State

  -- A call of the control plane or of the clock.
  unfoldable pub ask : {A : Type 0} → St c.State A → St Sys A
  ask m s = let r = m s.world in (r.0, record s { world = r.1 })

  abbrev pub set_routes : Map ℤ UserRoute → Sys → Sys
  set_routes m s = record s { registry = record s.registry { user_routes = m } }

  abbrev pub set_metas : Map Bytes NodeEntry → Sys → Sys
  set_metas m s = record s { registry = record s.registry { node_metas = m } }

  unfoldable pub get_cached_user_node : ℤ → St Sys (Option (Bytes × Bytes))
  unfolding ask
  get_cached_user_node user_id s = elim (find user_id s.registry.user_routes) [
    | none ↦ (none, s)
    | some e ↦
        let (now, s') = ask c.now_ms s in
        if ltb e.expire_at_ms now
        then (none, set_routes (erase user_id s'.registry.user_routes) s')
        else (some (e.node_id, e.instance_id), s')
  ]

  unfoldable pub cache_user_node : ℤ → Bytes → Bytes → St Sys (Unit {0})
  unfolding ask
  cache_user_node user_id node_id instance_id s =
      let (now, s') = ask c.now_ms s in
      let e : UserRoute = record {
        node_id = node_id;
        instance_id = instance_id;
        expire_at_ms = now + s'.registry.route_cache_ttl_ms;
      } in
      (tt, set_routes (assign user_id e s'.registry.user_routes) s')

  unfoldable pub erase_cached_user_node : ℤ → St Sys (Unit {0})
  erase_cached_user_node user_id s = (tt, set_routes (erase user_id s.registry.user_routes) s)

  unfoldable pub get_cached_node : Bytes → St Sys (Option NodeMeta)
  unfolding ask
  get_cached_node node_id s = elim (find node_id s.registry.node_metas) [
    | none ↦ (none, s)
    | some e ↦
        let (now, s') = ask c.now_ms s in
        if ltb e.expire_at_ms now
        then (none, set_metas (erase node_id s'.registry.node_metas) s')
        else (some e.node_meta, s')
  ]

  unfoldable pub cache_node : NodeMeta → St Sys (Unit {0})
  unfolding ask
  cache_node meta s =
      let (now, s') = ask c.now_ms s in
      let e : NodeEntry = record {
        node_meta = meta;
        expire_at_ms = now + s'.registry.route_cache_ttl_ms;
      } in
      (tt, set_metas (assign meta.node_id e s'.registry.node_metas) s')

  unfoldable pub erase_cached_node : Bytes → St Sys (Unit {0})
  erase_cached_node node_id s = (tt, set_metas (erase node_id s.registry.node_metas) s)

  -- The rest of `queryNode` after the reply of the control plane.
  unfoldable pub keep_fetched : Bytes → Option NodeMeta → St Sys (Option NodeMeta)
  keep_fetched node_id none = do erase_cached_node node_id; pure none
  keep_fetched node_id (some meta) = do cache_node meta; pure (some meta)

  -- The rest of `queryNode` after the look into the cache.
  unfoldable pub or_fetch : Bytes → Option NodeMeta → St Sys (Option NodeMeta)
  unfolding keep_fetched
  or_fetch node_id (some meta) = pure (some meta)
  or_fetch node_id none = do fetched ← ask (c.get_node node_id); keep_fetched node_id fetched

  unfoldable pub query_node : Bytes → St Sys (Option NodeMeta)
  unfolding or_fetch
  query_node node_id = do cached ← get_cached_node node_id; or_fetch node_id cached

  -- The test on the instance, for the node's entry that `query_node` gave.
  unfoldable pub is_current : Option NodeMeta → Bytes → Bool
  is_current none instance_id = false
  is_current (some meta) instance_id =
      not (is_empty instance_id) && bytes_eq meta.instance_id instance_id

  unfoldable pub forget_session : ℤ → Bytes → St Sys (Option Bytes)
  forget_session user_id node_id = do
    _ ← ask (c.unbind_user_node user_id node_id)
    erase_cached_user_node user_id
    pure none

  -- The check that both ways of `queryUserNode` end in.
  unfoldable pub check_session : ℤ → Bytes → Bytes → St Sys (Option Bytes)
  check_session user_id node_id instance_id = do
    meta ← query_node node_id
    if is_current meta instance_id then pure (some node_id) else forget_session user_id node_id

  unfoldable pub check_fetched : ℤ → Option (Bytes × Bytes) → St Sys (Option Bytes)
  check_fetched user_id none = pure none
  check_fetched user_id (some (node_id, instance_id)) = do
    cache_user_node user_id node_id instance_id
    check_session user_id node_id instance_id

  unfoldable pub check_cached : ℤ → Option (Bytes × Bytes) → St Sys (Option Bytes)
  unfolding check_fetched
  check_cached user_id (some (node_id, instance_id)) = check_session user_id node_id instance_id
  check_cached user_id none = do
    session ← ask (c.get_user_session user_id)
    check_fetched user_id session

  -- `none` is the result false; the node's id is the output parameter.
  unfoldable pub query_user_node : ℤ → St Sys (Option Bytes)
  unfolding check_cached
  query_user_node user_id = do cached ← get_cached_user_node user_id; check_cached user_id cached

  abbrev with_node : Bytes → Option NodeMeta → Option (Bytes × NodeMeta)
  with_node node_id none = none
  with_node node_id (some meta) = some (node_id, meta)

  unfoldable pub query_found : Option Bytes → St Sys (Option (Bytes × NodeMeta))
  query_found none = pure none
  query_found (some node_id) = do meta ← query_node node_id; pure (with_node node_id meta)

  unfoldable pub resolve_slowly : ℤ → St Sys (Option (Bytes × NodeMeta))
  unfolding query_found
  resolve_slowly user_id = do found ← query_user_node user_id; query_found found

  -- Both caches have what is asked for, and the instances agree.
  unfoldable pub resolve_cached :
      ℤ → Bytes → Bytes → Option NodeMeta → St Sys (Option (Bytes × NodeMeta))
  resolve_cached user_id node_id instance_id meta =
      if is_current meta instance_id then pure (with_node node_id meta) else resolve_slowly user_id

  unfoldable pub resolve_route : ℤ → Option (Bytes × Bytes) → St Sys (Option (Bytes × NodeMeta))
  unfolding resolve_cached
  resolve_route user_id none = resolve_slowly user_id
  resolve_route user_id (some (node_id, instance_id)) = do
    meta ← get_cached_node node_id
    resolve_cached user_id node_id instance_id meta

  unfoldable pub resolve_user_node : ℤ → St Sys (Option (Bytes × NodeMeta))
  unfolding resolve_route
  resolve_user_node user_id = do cached ← get_cached_user_node user_id; resolve_route user_id cached

  unfoldable pub is_self_node : Sys → Bytes → Bool
  is_self_node s node_id = bytes_eq s.registry.self_node.node_id node_id

  unfoldable pub bind_user : ℤ → St Sys Bool
  bind_user user_id s =
      let self = s.registry.self_node in
      let (ok, s') = ask (c.bind_user_node user_id self.node_id self.instance_id) s in
      if ok
      then (true, (cache_user_node user_id self.node_id self.instance_id s').1)
      else (false, s')

  unfoldable pub unbind_user : ℤ → St Sys Bool
  unbind_user user_id s =
      let (_, s') = erase_cached_user_node user_id s in
      ask (c.unbind_user_node user_id s.registry.self_node.node_id) s'

  -- One round of the loop of `listNodes`.
  unfoldable pub keep_queried : Bytes → Option NodeMeta → St Sys (List NodeMeta)
  keep_queried node_id none = do erase_cached_node node_id; pure []
  keep_queried node_id (some m) = pure (m ∷ [])

  unfoldable pub query_each : List Bytes → St Sys (List NodeMeta)
  unfolding keep_queried
  query_each [] = pure []
  query_each (node_id ∷ ids) = do
    meta ← query_node node_id
    found ← keep_queried node_id meta
    rest ← query_each ids
    pure (found ++ rest)

  unfoldable pub list_nodes : St Sys (List NodeMeta)
  list_nodes = do ids ← ask c.get_node_ids; query_each ids

  unfoldable pub unbind_each : List ℤ → Bytes → St Sys (Unit {0})
  unbind_each [] node_id = pure tt
  unbind_each (u ∷ us) node_id = do _ ← ask (c.unbind_user_node u node_id); unbind_each us node_id

  unfoldable pub cleanup_self : St Sys (Unit {0})
  cleanup_self s =
      let self = s.registry.self_node.node_id in
      let (users, s1) = ask (c.get_node_users self) s in
      let (_, s2) = unbind_each users self s1 in
      let (_, s3) = ask (c.unregister_node self) s2 in (tt, set_metas [] (set_routes [] s3))

  -- `init` up to the start of the heartbeat thread, whose rounds are `heartbeat`.
  unfoldable pub init : NodeMeta → ℤ → ℤ → St Sys Bool
  init self interval_ms timeout_ms s =
      let configured = record s {
        registry = record s.registry {
          self_node = self;
          heartbeat_interval_ms = interval_ms;
          heartbeat_timeout_ms = timeout_ms;
          route_cache_ttl_ms = cache_ttl interval_ms;
        };
      } in
      let (_, s1) = cache_node self configured in
      let (ok, s2) = ask (c.register_node self (ttl_seconds timeout_ms)) s1 in
      if ok
      then (true, record s2 { registry = record s2.registry { running = true } })
      else (false, s2)

  -- One round of `heartbeatLoop` after its sleep; `wall_ms` is the system clock.
  unfoldable pub heartbeat : ℤ → St Sys (Unit {0})
  heartbeat wall_ms s =
      let self = record s.registry.self_node { heartbeat_ms = wall_ms } in
      let stamped = record s { registry = record s.registry { self_node = self } } in
      let (_, s1) = cache_node self stamped in
      let (_, s2) = ask (c.register_node self (ttl_seconds s1.registry.heartbeat_timeout_ms)) s1 in
      if s.registry.running then (tt, s2) else (tt, s)

  -- `stop`: the first call ends the loop.
  unfoldable pub stop : St Sys (Unit {0})
  stop s = (tt, record s { registry = record s.registry { running = false } })
