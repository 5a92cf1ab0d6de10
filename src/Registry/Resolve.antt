-- ===== src/Registry/Resolve.antt =====
-- The way to a user: `resolveUserNode` when the control plane has a session and the node's entry.
use cluster_chat_server_with.Prelude.{
  ◌+◌, ◌≡◌, refl, ap, inl, inr, ◌⊎◌, false, Option, none, some, Bytes, is_empty, ltb, ℤ, find,
  find-assign_self, bytes_eq_inst, int_eq_inst, bytes_eq_refl, Bool-cases,
}
use cluster_chat_server_with.Types.{NodeMeta}
use cluster_chat_server_with.Registry.Plane.{ControlPlane}
use cluster_chat_server_with.Registry.{
  NodeEntry, Sys, ask, get_cached_user_node, get_cached_node, cache_user_node, cache_node,
  query_node, or_fetch, keep_fetched, is_current, check_session, check_fetched, check_cached,
  query_user_node, query_found, resolve_slowly, resolve_route, resolve_user_node,
}

module _ (c : ControlPlane) (n : Bytes) (m : NodeMeta) (I : c.State → Type 0) where
  -- While `I` holds, the control plane has `m` for the node, and reading it and the clock keeps it so.
  pub record IsSteady : Type 0 where
    pub named : m.node_id ≡ n
    pub clocked : (w : c.State) → I w → I (c.now_ms w).1
    pub answered : (w : c.State) → I w → (c.get_node n w).0 ≡ some m
    pub asked : (w : c.State) → I w → I (c.get_node n w).1
    pub looked_up : (u : ℤ) (w : c.State) → I w → I (c.get_user_session u w).1

  -- The cache has no entry of the node, or the right one.
  abbrev pub Knows : Sys c → Type 0
  Knows s =
      I s.world
      × ((find n s.registry.node_metas ≡ none)
          ⊎ ((e : NodeEntry) × (find n s.registry.node_metas ≡ some e) × (e.node_meta ≡ m)))

  abbrev Finds : Option NodeMeta × Sys c → Type 0
  Finds r = (r.0 ≡ some m) × Knows r.1

  or_fetch-Finds : (s : Sys c) → IsSteady → I s.world → Finds (or_fetch c n none s)
  unfolding or_fetch keep_fetched cache_node ask
  or_fetch-Finds s steady h = rw (steady.answered s.world h) (
    refl,
    (
      steady.clocked _ (steady.asked s.world h),
      inr (
        record {
          node_meta = m;
          expire_at_ms = (c.now_ms (c.get_node n s.world).1).0 + s.registry.route_cache_ttl_ms;
        },
        rw steady.named (find-assign_self n _ s.registry.node_metas),
        refl,
      ),
    ),
  )

  query_node-Finds : (s : Sys c) → IsSteady → Knows s → Finds (query_node c n s)
  unfolding query_node get_cached_node ask
  query_node-Finds s steady (h, inl e) = rw (e, get_cached_node) (or_fetch-Finds s steady h)
  query_node-Finds s steady (h, inr (r, e, same)) =
      elim (Bool-cases (ltb r.expire_at_ms (c.now_ms s.world).0)) [
        | inl old ↦
            rw (e, get_cached_node, old) (or_fetch-Finds _ steady (steady.clocked s.world h))
        | inr new ↦
            rw (e, get_cached_node, new)
              (unfold or_fetch in (ap some same, (steady.clocked s.world h, inr (r, e, same))))
      ]

  check_session-Knows :
      (u : ℤ) (i : Bytes) (s : Sys c)
      → IsSteady
      → Knows s
      → m.instance_id ≡ i
      → is_empty i ≡ false
      → check_session c u n i s ≡ (some n, (query_node c n s).1)
  unfolding check_session is_current
  check_session-Knows u i s steady k e f =
      rw ((query_node-Finds s steady k).0, e, f, bytes_eq_refl i) refl

  abbrev cached_route : ℤ → Bytes → Sys c → Sys c
  cached_route u i s =
      (cache_user_node c u n i (record s { world = (c.get_user_session u s.world).1 })).1

  cached_route-Knows :
      (u : ℤ) (i : Bytes) (s : Sys c) → IsSteady → Knows s → Knows (cached_route u i s)
  unfolding cache_user_node ask
  cached_route-Knows u i s steady (h, k) = (steady.clocked _ (steady.looked_up u s.world h), k)

  pub query_user_node-fresh :
      (u : ℤ) (i : Bytes) (s : Sys c)
      → IsSteady
      → Knows s
      → find u s.registry.user_routes ≡ none
      → (c.get_user_session u s.world).0 ≡ some (n, i)
      → m.instance_id ≡ i
      → is_empty i ≡ false
      → query_user_node c u s ≡ (some n, (query_node c n (cached_route u i s)).1)
  unfolding query_user_node get_cached_user_node check_cached check_fetched ask
  query_user_node-fresh u i s steady k route session e f =
      rw (route, get_cached_user_node, session)
        (check_session-Knows u i (cached_route u i s) steady (cached_route-Knows u i s steady k) e
          f)

  -- A lookup with no cached route finds the node of the session and its entry.
  pub resolve_user_node-fresh :
      (u : ℤ) (i : Bytes) (s : Sys c)
      → IsSteady
      → Knows s
      → find u s.registry.user_routes ≡ none
      → (c.get_user_session u s.world).0 ≡ some (n, i)
      → m.instance_id ≡ i
      → is_empty i ≡ false
      → (resolve_user_node c u s).0 ≡ some (n, m)
  unfolding resolve_user_node get_cached_user_node resolve_route resolve_slowly query_found ask
  resolve_user_node-fresh u i s steady k route session e f =
      let (_, known) =
        query_node-Finds (cached_route u i s) steady (cached_route-Knows u i s steady k) in
      rw
        (
          route,
          get_cached_user_node,
          query_user_node-fresh u i s steady k route session e f,
          (query_node-Finds (query_node c n (cached_route u i s)).1 steady known).0,
        )
        refl
