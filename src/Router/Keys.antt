-- ===== src/Router/Keys.antt =====
-- Which channel a message goes to: `pickShard` and `makeChannelKey` (src/server/clusterrouter.cpp).
use cluster_chat_server_with.Prelude.{ℕ, ◌<◌, ◌≡◌, refl, arith, Bytes, ℤ}
use cluster_chat_server_with.Text.{mark_decimal_injective}
use cluster_chat_server_with.Router.Table.{Router, pick_shard, make_channel_key}

-- Two nodes, or two shards of one node, never share a channel key, whatever bytes a node's name
-- holds: the keys are equal only if both the names and the shards are.
pub make_channel_key-injective :
    (n k : Bytes) (i j : ℕ) → make_channel_key n i ≡ make_channel_key k j → (n ≡ k) × (i ≡ j)
unfolding make_channel_key
make_channel_key-injective n k i j e = mark_decimal_injective b'#' n k i j (omega arith) e

-- With at least one shard, every user has a shard within the count, and a user keeps it for as
-- long as the count does not change, whatever else the router holds.
pick_shard-stable :
    (r s : Router) (u : ℤ)
    → 0 < r.shard_count
    → r.shard_count ≡ s.shard_count
    → (pick_shard r u < r.shard_count) × (pick_shard s u ≡ pick_shard r u)
unfolding pick_shard
pick_shard-stable r s u h e = (ground arith, rw e refl)
