-- ===== src/Registry/Shared.antt =====
-- Two registries over one Redis server: what one binds, the other sees.
use cluster_chat_server_with.Prelude.{
  ℕ, ◌^◌, ◌<◌, ◌≡◌, ◌≢◌, refl, ap, inl, ◌∙◌, true, false, none, some, arith, Bytes, All, is_empty,
  ℤ, pos, find, bytes_eq_inst, int_eq_inst,
}
use cluster_chat_server_with.Types.{NodeMeta, valid}
use cluster_chat_server_with.Redis.{
  get_user_session, RedisServer, node_key, session_key, node_fields, session_value,
}
use cluster_chat_server_with.Redis.Store.{
  IsStore, bind-free, bind-value, bind-fields, bind-taken, session-bound, session-fields,
  node-registered, node-fields,
}
use cluster_chat_server_with.Registry.Resolve.{
  IsSteady, query_user_node-fresh, resolve_user_node-fresh,
}
use cluster_chat_server_with.Registry.Plane.{ControlPlane, redis_plane}
use cluster_chat_server_with.Registry.{
  Sys, ask, cache_user_node, query_user_node, resolve_user_node, bind_user,
}

module _ (r : RedisServer) (d : IsStore r) (clock : r.State → ℕ × r.State)
    (wall_ms : r.State → ℤ) where
  -- To read the clock changes nothing in the store.
  abbrev pub ClockKeeps : Type 0
  ClockKeeps =
      ((w : r.State) (k : Bytes) → d.value_of (clock w).1 k ≡ d.value_of w k)
      × ((w : r.State) (k : Bytes) → d.fields_of (clock w).1 k ≡ d.fields_of w k)

  abbrev pub P : ControlPlane
  P = redis_plane r clock wall_ms

  abbrev pub Bound : ℤ → Sys P → Sys P → Type 0
  Bound u s t =
      ((bind_user P u s).0 ≡ true)
      × (d.value_of t.world (session_key u)
          ≡ some (session_value s.registry.self_node.node_id s.registry.self_node.instance_id))
      × ((k : Bytes) → d.fields_of t.world k ≡ d.fields_of s.world k)

  pub bind_user-Bound :
      (u : ℤ) (s : Sys P)
      → ClockKeeps
      → d.value_of s.world (session_key u) ≡ none
      → Bound u s (bind_user P u s).1
  unfolding bind_user cache_user_node ask
  bind_user-Bound u s (ticks, ticks_fields) e =
      let n = s.registry.self_node.node_id in
      let i = s.registry.self_node.instance_id in
      rw (bind-free r d u n i s.world e) (
        refl,
        ticks _ (session_key u) ∙ bind-value r d u n i s.world e,
        λ k. ticks_fields _ k ∙ bind-fields r d u n i k s.world e,
      )

  -- Where no node holds a session of the user: a node that binds the user succeeds, and from then
  -- on, with the store as it left it, the bind of any other node fails. Redis answers as
  -- documented, and to read the clock changes nothing in it.
  bind_user-once :
      (u : ℤ) (s t : Sys P)
      → ClockKeeps
      → d.value_of s.world (session_key u) ≡ none
      → t.world ≡ (bind_user P u s).1.world
      → ((bind_user P u s).0 ≡ true) × ((bind_user P u t).0 ≡ false)
  unfolding bind_user ask
  bind_user-once u s t ticks e same =
      let (ok, held, _) = bind_user-Bound u s ticks e in
      let self = t.registry.self_node in
      let taken =
        bind-taken r d u self.node_id self.instance_id _ t.world
          (ap (λ w. d.value_of w (session_key u)) same ∙ held) in
      (ok, rw taken refl)

  -- The store holds the node's fields, with some heartbeat, and the node's members are as
  -- `initNode` makes them: an address and ports, and an instance that has no bar.
  pub record IsRegistered (m : NodeMeta) (w : r.State) : Type 0 where
    pub is_valid : valid m ≡ true
    pub client_port_fits : m.client_port < 2 ^ 16
    pub inter_port_fits : m.inter_port < 2 ^ 16
    pub has_instance : is_empty m.instance_id ≡ false
    pub no_bar : All (λ c. c ≢ b'|') m.instance_id
    pub heartbeat_at : ℕ
    pub registered : d.fields_of w (node_key m.node_id) ≡ node_fields m (pos heartbeat_at)

  valid-named : (m : NodeMeta) → valid m ≡ true → is_empty m.node_id ≡ false
  unfolding valid
  valid-named m h = ground arith

  abbrev pub stamped : NodeMeta → ℕ → NodeMeta
  stamped m ms = record m { heartbeat_ms = pos ms }

  registered-IsSteady :
      (m : NodeMeta) (w : r.State) (reg : IsRegistered m w)
      → ClockKeeps
      → IsSteady P m.node_id
          (stamped m reg.heartbeat_at)
          (λ v. d.fields_of v (node_key m.node_id) ≡ node_fields m (pos reg.heartbeat_at))
  registered-IsSteady m w reg ticks = record {
    named = refl;
    clocked = λ v e. ticks.1 v (node_key m.node_id) ∙ e;
    answered = λ v e.
        node-registered r d m reg.heartbeat_at v reg.client_port_fits reg.inter_port_fits
          reg.is_valid e;
    asked = λ v e. node-fields r d m.node_id (node_key m.node_id) v ∙ e;
    looked_up = λ u v e. session-fields r d u (node_key m.node_id) v ∙ e;
  }

  -- The store after the bind holds what a fresh lookup asks for.
  after_bind :
      (u : ℤ) (s t : Sys P) (reg : IsRegistered s.registry.self_node s.world)
      → ClockKeeps
      → d.value_of s.world (session_key u) ≡ none
      → t.world ≡ (bind_user P u s).1.world
      → (d.fields_of t.world (node_key s.registry.self_node.node_id)
          ≡ node_fields s.registry.self_node (pos reg.heartbeat_at))
        × ((get_user_session r u t.world).0
            ≡ some (s.registry.self_node.node_id, s.registry.self_node.instance_id))
  after_bind u s t reg ticks e same =
      let self = s.registry.self_node in
      let (_, held, kept) = bind_user-Bound u s ticks e in
      let key = node_key self.node_id in
      (
        ap (λ w. d.fields_of w key) same ∙ kept key ∙ reg.registered,
        session-bound r d u self.node_id self.instance_id t.world (valid-named self reg.is_valid)
            reg.no_bar (ap (λ w. d.value_of w (session_key u)) same ∙ held),
      )

  -- Where no node holds a session of the user, and a registered node binds the user: another node
  -- that looks the user up in the store as it was left, with neither the user nor that node in its
  -- caches, finds that node. Redis answers as documented, and to read the clock changes nothing in
  -- it.
  pub session_visible :
      (u : ℤ) (s t : Sys P)
      → ClockKeeps
      → IsRegistered s.registry.self_node s.world
      → d.value_of s.world (session_key u) ≡ none
      → t.world ≡ (bind_user P u s).1.world
      → find u t.registry.user_routes ≡ none
      → find s.registry.self_node.node_id t.registry.node_metas ≡ none
      → (query_user_node P u t).0 ≡ some s.registry.self_node.node_id
  session_visible u s t ticks reg e same no_route no_meta =
      let self = s.registry.self_node in
      let (fields, session) = after_bind u s t reg ticks e same in
      ap (λ q. q.0)
        (query_user_node-fresh P self.node_id (stamped self reg.heartbeat_at)
          (λ v. d.fields_of v (node_key self.node_id) ≡ node_fields self (pos reg.heartbeat_at)) u
          self.instance_id t (registered-IsSteady self s.world reg ticks) (fields, inl no_meta)
          no_route session refl reg.has_instance)

  -- What another node makes of a session that has just been bound.
  pub session_resolved :
      (u : ℤ) (s t : Sys P) (reg : IsRegistered s.registry.self_node s.world)
      → ClockKeeps
      → d.value_of s.world (session_key u) ≡ none
      → t.world ≡ (bind_user P u s).1.world
      → find u t.registry.user_routes ≡ none
      → find s.registry.self_node.node_id t.registry.node_metas ≡ none
      → (resolve_user_node P u t).0
        ≡ some (s.registry.self_node.node_id, stamped s.registry.self_node reg.heartbeat_at)
  session_resolved u s t reg ticks e same no_route no_meta =
      let self = s.registry.self_node in
      let (fields, session) = after_bind u s t reg ticks e same in
      resolve_user_node-fresh P self.node_id (stamped self reg.heartbeat_at)
        (λ v. d.fields_of v (node_key self.node_id) ≡ node_fields self (pos reg.heartbeat_at)) u
        self.instance_id t (registered-IsSteady self s.world reg ticks) (fields, inl no_meta)
        no_route session refl reg.has_instance
