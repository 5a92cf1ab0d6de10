-- ===== src/Registry/Self.antt =====
-- The lookups never change which node the registry speaks for.
use cluster_chat_server_with.Prelude.{
  ◌≡◌, refl, ◌∙◌, List, [], ◌∷◌, Option, none, some, Bytes, arith, ℤ, bytes_eq_inst,
}
use cluster_chat_server_with.Types.{NodeMeta}
use cluster_chat_server_with.Registry.Plane.{ControlPlane}
use cluster_chat_server_with.Registry.{
  Sys, ask, get_cached_node, cache_node, erase_cached_node, keep_fetched, or_fetch, query_node,
  keep_queried, query_each, list_nodes, init,
}

module _ (c : ControlPlane) where
  get_cached_node-same :
      (n : Bytes) (s : Sys c) → (get_cached_node c n s).1.registry.self_node ≡ s.registry.self_node
  unfolding get_cached_node ask
  get_cached_node-same n s = ground arith

  keep_fetched-same :
      (n : Bytes) (o : Option NodeMeta) (s : Sys c)
      → (keep_fetched c n o s).1.registry.self_node ≡ s.registry.self_node
  unfolding keep_fetched cache_node erase_cached_node ask
  keep_fetched-same n none s = refl
  keep_fetched-same n (some m) s = refl

  or_fetch-same :
      (n : Bytes) (o : Option NodeMeta) (s : Sys c)
      → (or_fetch c n o s).1.registry.self_node ≡ s.registry.self_node
  unfolding or_fetch ask
  or_fetch-same n (some m) s = refl
  or_fetch-same n none s = keep_fetched-same n _ _

  query_node-same :
      (n : Bytes) (s : Sys c) → (query_node c n s).1.registry.self_node ≡ s.registry.self_node
  unfolding query_node
  query_node-same n s = or_fetch-same n _ _ ∙ get_cached_node-same n s

  keep_queried-same :
      (n : Bytes) (o : Option NodeMeta) (s : Sys c)
      → (keep_queried c n o s).1.registry.self_node ≡ s.registry.self_node
  unfolding keep_queried erase_cached_node
  keep_queried-same n none s = refl
  keep_queried-same n (some m) s = refl

  query_each-same :
      (ns : List Bytes) (s : Sys c)
      → (query_each c ns s).1.registry.self_node ≡ s.registry.self_node
  unfolding query_each
  query_each-same [] s = refl
  query_each-same (n ∷ ns) s = query_each-same ns _ ∙ keep_queried-same n _ _ ∙ query_node-same n s

  pub list_nodes-same : (s : Sys c) → (list_nodes c s).1.registry.self_node ≡ s.registry.self_node
  unfolding list_nodes ask
  list_nodes-same s = query_each-same _ _

  pub init-same :
      (self : NodeMeta) (interval_ms timeout_ms : ℤ) (s : Sys c)
      → (init c self interval_ms timeout_ms s).1.registry.self_node ≡ self
  unfolding init cache_node ask
  init-same self interval_ms timeout_ms s = ground arith
