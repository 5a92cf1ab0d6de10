-- ===== src/Registry/Sessions.antt =====
-- What a lookup of a user's session guarantees.
use cluster_chat_server_with.Prelude.{
  ◌+◌, ◌≤◌, ◌≡◌, refl, sym, ap, ◌∙◌, inl, inr, true, false, Option, none, some, arith, Bytes,
  is_empty, ltb, ℤ, pos, negsuc, find, find-assign_self, find-erase_self, bytes_eq_inst,
  int_eq_inst, bytes_eq_iff, Bool-cases, Option-cases, some_inj,
}
use cluster_chat_server_with.Types.{NodeMeta}
use cluster_chat_server_with.Registry.Plane.{ControlPlane}
use cluster_chat_server_with.Registry.{
  UserRoute, NodeEntry, cache_ttl, Sys, ask, get_cached_user_node, cache_user_node,
  erase_cached_user_node, get_cached_node, cache_node, erase_cached_node, query_node, is_current,
  forget_session, check_session, check_fetched, check_cached, keep_fetched, or_fetch,
  query_user_node,
}

-- `init` bounds the time that a cached route or node is used, whatever interval is configured.
cache_ttl_bounds : (interval : ℤ) → (1 ≤ cache_ttl interval) × (cache_ttl interval ≤ 1000)
unfolding cache_ttl
cache_ttl_bounds (pos n) = ground arith
cache_ttl_bounds (negsuc n) = ground arith

module _ (c : ControlPlane) where
  current_parts :
      (m : NodeMeta) (i : Bytes)
      → is_current c (some m) i ≡ true
      → (m.instance_id ≡ i) × (is_empty i ≡ false)
  unfolding is_current
  current_parts m i h = (ground (arith, bytes_eq_iff m.instance_id i), ground arith)

  cached-none :
      (u : ℤ) (s : Sys c)
      → (get_cached_user_node c u s).0 ≡ none
      → find u (get_cached_user_node c u s).1.registry.user_routes ≡ none
  unfolding get_cached_user_node
  cached-none u s h = elim (Option-cases (find u s.registry.user_routes)) [
    | inl e ↦ rw (e, get_cached_user_node) e
    | inr (r, e) ↦ elim (Bool-cases (ltb r.expire_at_ms (c.now_ms s.world).0)) [
      | inl old ↦ rw (e, get_cached_user_node, old) (find-erase_self u s.registry.user_routes)
      | inr new ↦ absurd (cc (rw (e, get_cached_user_node, new) at h))
    ]
  ]

  cached-some :
      (u : ℤ) (s : Sys c) (n i : Bytes)
      → (get_cached_user_node c u s).0 ≡ some (n, i)
      → (r : UserRoute) × (find u (get_cached_user_node c u s).1.registry.user_routes ≡ some r)
        × (r.node_id ≡ n)
        × (r.instance_id ≡ i)
  unfolding get_cached_user_node
  cached-some u s n i h = elim (Option-cases (find u s.registry.user_routes)) [
    | inl e ↦ absurd (cc (rw (e, get_cached_user_node) at h))
    | inr (r, e) ↦ elim (Bool-cases (ltb r.expire_at_ms (c.now_ms s.world).0)) [
      | inl old ↦ absurd (cc (rw (e, get_cached_user_node, old) at h))
      | inr new ↦
          rw (e, get_cached_user_node, new)
            (
              r,
              e,
              cc (rw (e, get_cached_user_node, new) at h),
              cc (rw (e, get_cached_user_node, new) at h),
            )
    ]
  ]

  check-none :
      (u : ℤ) (n i : Bytes) (s : Sys c)
      → (check_session c u n i s).0 ≡ none
      → find u (check_session c u n i s).1.registry.user_routes ≡ none
  unfolding check_session forget_session erase_cached_user_node
  check-none u n i s h = elim (Bool-cases (is_current c (query_node c n s).0 i)) [
    | inl t ↦ absurd (cc (rw t at h))
    | inr f ↦ rw f (find-erase_self u _)
  ]

  fetched-none :
      (u : ℤ) (session : Option (Bytes × Bytes)) (s : Sys c)
      → find u s.registry.user_routes ≡ none
      → (check_fetched c u session s).0 ≡ none
      → find u (check_fetched c u session s).1.registry.user_routes ≡ none
  unfolding check_fetched
  fetched-none u none s e h = e
  fetched-none u (some (n, i)) s e h = check-none u n i _ h

  checked-none :
      (u : ℤ) (cached : Option (Bytes × Bytes)) (s : Sys c)
      → (cached ≡ none → find u s.registry.user_routes ≡ none)
      → (check_cached c u cached s).0 ≡ none
      → find u (check_cached c u cached s).1.registry.user_routes ≡ none
  unfolding check_cached ask
  checked-none u (some (n, i)) s e h = check-none u n i s h
  checked-none u none s e h = fetched-none u _ _ (e refl) h

  -- A lookup that finds no valid session leaves no cached route for the user, on every path: no
  -- entry, an expired entry, no session in the control plane, a node that is gone, or one that was
  -- started anew.
  pub query_user_node-none :
      (u : ℤ) (s : Sys c)
      → (query_user_node c u s).0 ≡ none
      → find u (query_user_node c u s).1.registry.user_routes ≡ none
  unfolding query_user_node
  query_user_node-none u s h = checked-none u _ _ (cached-none u s) h

  cached_node-routes :
      (n : Bytes) (s : Sys c)
      → (get_cached_node c n s).1.registry.user_routes ≡ s.registry.user_routes
  unfolding get_cached_node ask
  cached_node-routes n s = ground arith

  fetched_node-routes :
      (n : Bytes) (fetched : Option NodeMeta) (s : Sys c)
      → (keep_fetched c n fetched s).1.registry.user_routes ≡ s.registry.user_routes
  unfolding keep_fetched cache_node erase_cached_node ask
  fetched_node-routes n none s = refl
  fetched_node-routes n (some m) s = refl

  or_fetch-routes :
      (n : Bytes) (cached : Option NodeMeta) (s : Sys c)
      → (or_fetch c n cached s).1.registry.user_routes ≡ s.registry.user_routes
  unfolding or_fetch ask
  or_fetch-routes n none s = fetched_node-routes n _ _
  or_fetch-routes n (some m) s = refl

  query_node-routes :
      (n : Bytes) (s : Sys c) → (query_node c n s).1.registry.user_routes ≡ s.registry.user_routes
  unfolding query_node
  query_node-routes n s = or_fetch-routes n _ _ ∙ cached_node-routes n s

  -- Node `n` is cached, with these data.
  abbrev pub Cached : Bytes → NodeMeta → Sys c → Type 0
  Cached n m s = (e : NodeEntry) × (find n s.registry.node_metas ≡ some e) × (e.node_meta ≡ m)

  -- The control plane answers with the node that was asked for.
  abbrev pub IsNamed : Type 0
  IsNamed = (n : Bytes) (w : c.State) (k : NodeMeta) → (c.get_node n w).0 ≡ some k → k.node_id ≡ n

  get_cached_node-Cached :
      (n : Bytes) (s : Sys c) (m : NodeMeta)
      → (get_cached_node c n s).0 ≡ some m
      → Cached n m (get_cached_node c n s).1
  unfolding get_cached_node ask
  get_cached_node-Cached n s m h = elim (Option-cases (find n s.registry.node_metas)) [
    | inl e ↦ absurd (cc (rw (e, get_cached_node) at h))
    | inr (r, e) ↦ elim (Bool-cases (ltb r.expire_at_ms (c.now_ms s.world).0)) [
      | inl old ↦ absurd (cc (rw (e, get_cached_node, old) at h))
      | inr new ↦ rw (e, get_cached_node, new) (r, e, some_inj (rw (e, get_cached_node, new) at h))
    ]
  ]

  fetched_node-some :
      (n : Bytes) (fetched : Option NodeMeta) (s : Sys c) (m : NodeMeta)
      → ((k : NodeMeta) → fetched ≡ some k → k.node_id ≡ n)
      → (keep_fetched c n fetched s).0 ≡ some m
      → Cached n m (keep_fetched c n fetched s).1
  unfolding keep_fetched cache_node ask
  fetched_node-some n none s m law h = absurd (cc)
  fetched_node-some n (some k) s m law h = (
    record { node_meta = k; expire_at_ms = (c.now_ms s.world).0 + s.registry.route_cache_ttl_ms },
    rw (law k refl) (find-assign_self n _ s.registry.node_metas),
    some_inj h,
  )

  or_fetch-some :
      (n : Bytes) (cached : Option NodeMeta) (s : Sys c) (m : NodeMeta)
      → IsNamed
      → (cached ≡ some m → Cached n m s)
      → (or_fetch c n cached s).0 ≡ some m
      → Cached n m (or_fetch c n cached s).1
  unfolding or_fetch ask
  or_fetch-some n none s m law have h = fetched_node-some n _ _ m (law n s.world) h
  or_fetch-some n (some k) s m law have h = have h

  query_node-some :
      (n : Bytes) (s : Sys c) (m : NodeMeta)
      → IsNamed
      → (query_node c n s).0 ≡ some m
      → Cached n m (query_node c n s).1
  unfolding query_node
  query_node-some n s m law h = or_fetch-some n _ _ m law (get_cached_node-Cached n s m) h

  -- The cached route of user `u` names node `n`, which is cached as running the very instance that
  -- the session was bound by.
  abbrev pub IsLive : ℤ → Bytes → Sys c → Type 0
  IsLive u n s =
      (r : UserRoute) × (m : NodeMeta) × (find u s.registry.user_routes ≡ some r)
      × (r.node_id ≡ n)
      × Cached n m s
      × (m.instance_id ≡ r.instance_id)
      × (is_empty r.instance_id ≡ false)

  check-some :
      (u : ℤ) (n i : Bytes) (s : Sys c) (k : Bytes) (r : UserRoute)
      → IsNamed
      → find u s.registry.user_routes ≡ some r
      → r.node_id ≡ n
      → r.instance_id ≡ i
      → (check_session c u n i s).0 ≡ some k
      → IsLive u k (check_session c u n i s).1
  unfolding check_session forget_session is_current
  check-some u n i s k r law e en ei h = elim (Bool-cases (is_current c (query_node c n s).0 i)) [
    | inl t ↦ elim (Option-cases (query_node c n s).0) [
      | inl q ↦ absurd (cc (rw q at t))
      | inr (m, q) ↦
          let same : n ≡ k = some_inj (rw t at h) in
          let parts : (m.instance_id ≡ i) × (is_empty i ≡ false) = current_parts m i (rw q at t) in
          rw (t, ← same)
            (
              r,
              m,
              ap (find u) (query_node-routes n s) ∙ e,
              en,
              query_node-some n s m law q,
              parts.0 ∙ sym ei,
              rw ei parts.1,
            )
    ]
    | inr f ↦ absurd (cc (rw f at h))
  ]

  fetched-some :
      (u : ℤ) (session : Option (Bytes × Bytes)) (s : Sys c) (k : Bytes)
      → IsNamed
      → (check_fetched c u session s).0 ≡ some k
      → IsLive u k (check_fetched c u session s).1
  unfolding check_fetched cache_user_node ask
  fetched-some u none s k law h = absurd (cc)
  fetched-some u (some (n, i)) s k law h =
      check-some u n i _ k _ law (find-assign_self u _ s.registry.user_routes) refl refl h

  checked-some :
      (u : ℤ) (cached : Option (Bytes × Bytes)) (s : Sys c) (k : Bytes)
      → IsNamed
      → ((n i : Bytes)
          → cached ≡ some (n, i)
          → (r : UserRoute) × (find u s.registry.user_routes ≡ some r)
            × (r.node_id ≡ n)
            × (r.instance_id ≡ i))
      → (check_cached c u cached s).0 ≡ some k
      → IsLive u k (check_cached c u cached s).1
  unfolding check_cached ask
  checked-some u none s k law have h = fetched-some u _ _ k law h
  checked-some u (some (n, i)) s k law have h =
      let (r, e, en, ei) = have n i refl in check-some u n i s k r law e en ei h

  -- Where the control plane answers for the node that was asked for, a lookup that succeeds leaves
  -- the user's route cached with the node that it returns, and that node cached as running the
  -- instance that the session was bound by, which is not empty: a session of a node's earlier
  -- instance does not count, on the cached path as on the fetched one.
  pub query_user_node-some :
      (u : ℤ) (s : Sys c) (n : Bytes)
      → IsNamed
      → (query_user_node c u s).0 ≡ some n
      → IsLive u n (query_user_node c u s).1
  unfolding query_user_node
  query_user_node-some u s n law h = checked-some u _ _ n law (cached-some u s) h
