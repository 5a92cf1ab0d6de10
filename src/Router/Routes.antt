-- ===== src/Router/Routes.antt =====
-- The table of channels: each key leads to an open channel of its own, to the endpoint asked for.
use cluster_chat_server_with.Prelude.{
  ℕ, ◌<◌, ◌≡◌, ◌≢◌, refl, sym, ap, ◌∙◌, inl, inr, true, false, List, [], ◌∷◌, ◌++◌, none, some,
  arith, Bytes, length, set, length-append, length-set, get_or-set_ne, get_or-concat,
  get_or-append_lt, find, find-assign, find-erase, find-erase_self, find-assign_self, bytes_eq,
  bytes_eq_iff, bytes_eq_refl, bytes_eq_inst, Bool-cases, Option-cases, some_inj,
}
use cluster_chat_server_with.Types.{NodeMeta, no_node}
use cluster_chat_server_with.Router.Channel.{ShardChannel, new_channel, stop_channel}
use cluster_chat_server_with.Router.Table.{
  Router, nth, stop_at, drop_stale, create_channel, get_or_create_channel, make_channel_key,
  same_endpoint, Effect,
}

-- Pointer `p` is that of an open channel named `key`.
abbrev pub Leads : List ShardChannel → Bytes → ℕ → Type 0
Leads cs key p = (p < length cs) × ((nth cs p).channel_id ≡ key) × ((nth cs p).closing ≡ false)

abbrev pub IsRouted : Router → Type 0
IsRouted r = (key : Bytes) (p : ℕ) → find key r.conn_map ≡ some p → Leads r.channels key p

-- A write to another channel, or one more channel, changes nothing.
Leads-set :
    (cs : List ShardChannel) (key : Bytes) (p q : ℕ) (ch : ShardChannel)
    → q ≢ p
    → Leads cs key p
    → Leads (set cs q ch) key p
Leads-set cs key p q ch n (l, i, o) =
    let same = get_or-set_ne cs q p ch (new_channel [] no_node 0 0 0) n in
    (rw (length-set cs q ch) l, rw same i, rw same o)

Leads-concat :
    (cs : List ShardChannel) (key : Bytes) (p : ℕ) (ch : ShardChannel)
    → Leads cs key p
    → Leads (cs ++ ch ∷ []) key p
Leads-concat cs key p ch (l, i, o) =
    let same = get_or-append_lt cs (ch ∷ []) p (new_channel [] no_node 0 0 0) l in
    (omega (arith, length-append cs (ch ∷ []), l), rw same i, rw same o)

Leads-new :
    (cs : List ShardChannel) (ch : ShardChannel)
    → ch.closing ≡ false
    → Leads (cs ++ ch ∷ []) ch.channel_id (length cs)
Leads-new cs ch o =
    let same = get_or-concat cs ch (new_channel [] no_node 0 0 0) in
    (omega (arith, length-append cs (ch ∷ [])), rw same refl, rw same o)

same_endpoint_refl : (meta : NodeMeta) → same_endpoint meta meta ≡ true
unfolding same_endpoint
same_endpoint_refl meta = ground (arith, bytes_eq_refl meta.inter_ip)

module _ (r : Router) (key : Bytes) (v : IsRouted r) where
  drop_stale-IsRouted : (p : ℕ) → find key r.conn_map ≡ some p → IsRouted (drop_stale r key p).0
  unfolding drop_stale stop_at
  drop_stale-IsRouted p h k q e = elim (Bool-cases (bytes_eq key k)) [
    | inl same ↦ absurd (cc (rw (find-erase key k r.conn_map, same) at e))
    | inr other ↦
        let found : find k r.conn_map ≡ some q = rw (find-erase key k r.conn_map, other) at e in
        let apart : p ≢ q = λ (w : p ≡ q). cc (
          bytes_eq_refl key,
          ap (bytes_eq key)
              (sym (v key p h).1 ∙ ap (λ z. (nth r.channels z).channel_id) w ∙ (v k q found).1),
        ) in
        Leads-set r.channels k q p (stop_channel (nth r.channels p)).0 apart (v k q found)
  ]

  create_channel-IsRouted :
      (hash : Bytes → ℕ) (meta : NodeMeta)
      → find key r.conn_map ≡ none
      → IsRouted (create_channel r hash meta key).0
        × (find key (create_channel r hash meta key).0.conn_map
            ≡ some (create_channel r hash meta key).1)
        × ((nth
              (create_channel r hash meta key).0.channels
              (create_channel r hash meta key).1).node_meta
            ≡ meta)
  unfolding create_channel
  create_channel-IsRouted hash meta h =
      rw (h, create_channel)
        (
          (λ k q e. elim (Bool-cases (bytes_eq key k)) [
            | inl same ↦
                let at_end : length r.channels ≡ q =
                  some_inj (rw (find-assign key k (length r.channels) r.conn_map, same) at e) in
                rw (← at_end, ← (bytes_eq_iff key k).0 same) (Leads-new r.channels _ refl)
            | inr other ↦
                Leads-concat r.channels k q _
                  (v k q (rw (find-assign key k (length r.channels) r.conn_map, other) at e))
          ]),
          find-assign_self key (length r.channels) r.conn_map,
          ap (λ (c : ShardChannel). c.node_meta) (get_or-concat r.channels _ _),
        )

abbrev channel_key : NodeMeta → ℕ → Bytes
channel_key meta shard = make_channel_key meta.node_id shard

-- What a caller of `getOrCreateChannel` may rely on: the channel that it gets is the one the table
-- has for the node and the shard, and it goes to the endpoint asked for.
abbrev pub IsRoute : NodeMeta → ℕ → Router × ℕ × List Effect → Type 0
IsRoute meta shard (r, p, acts) =
    IsRouted r
    × (find (channel_key meta shard) r.conn_map ≡ some p)
    × (same_endpoint (nth r.channels p).node_meta meta ≡ true)

create_channel-IsRoute :
    (r : Router) (hash : Bytes → ℕ) (meta : NodeMeta) (shard : ℕ)
    → IsRouted r
    → find (channel_key meta shard) r.conn_map ≡ none
    → IsRoute meta shard (create_channel r hash meta (channel_key meta shard))
create_channel-IsRoute r hash meta shard v h =
    let (routed, found, endpoint) =
      create_channel-IsRouted r (channel_key meta shard) v hash meta h in
    (routed, found, rw endpoint (same_endpoint_refl meta))

replaced_none : (r : Router) (key : Bytes) (p : ℕ) → find key (drop_stale r key p).0.conn_map ≡ none
unfolding drop_stale stop_at
replaced_none r key p = find-erase_self key r.conn_map

-- Where every key of the table leads to an open channel of its own, `getOrCreateChannel` keeps
-- this, and the channel that it returns is in the table under the key of the node and the shard,
-- goes to the endpoint of `meta`, and so is open: a channel with an old endpoint is replaced.
pub get_or_create_channel-IsRoute :
    (r : Router) (hash : Bytes → ℕ) (meta : NodeMeta) (shard : ℕ)
    → IsRouted r
    → IsRoute meta shard (get_or_create_channel r hash meta shard)
unfolding get_or_create_channel
get_or_create_channel-IsRoute r hash meta shard v =
    elim (Option-cases (find (channel_key meta shard) r.conn_map)) [
      | inl h ↦ rw (h, get_or_create_channel) (create_channel-IsRoute r hash meta shard v h)
      | inr (p, h) ↦ elim (Bool-cases (same_endpoint (nth r.channels p).node_meta meta)) [
        | inl same ↦ rw (h, get_or_create_channel, same) (v, h, same)
        | inr other ↦
            rw (h, get_or_create_channel, other)
              (create_channel-IsRoute _ hash meta shard (drop_stale-IsRouted r _ v p h)
                (replaced_none r _ p))
      ]
    ]
