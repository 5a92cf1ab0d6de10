-- ===== src/Service/Everyone.antt =====
-- `groupChat` as a whole: no member is left out and none gets the message twice.
use cluster_chat_server_with.Prelude.{
  All, ℕ, ◌+◌, ◌≡◌, Bool, true, List, ◌++◌, map, Bytes, length, ℤ,
}
use cluster_chat_server_with.Service.Connections.{Conn}
use cluster_chat_server_with.Service.Chat.{Peers, Node}
use cluster_chat_server_with.Service.Group.{Groups, send_entry, query_entry}
use cluster_chat_server_with.Service.Members.{
  Connected, users_of, conns_of, on_each, times, times_in,
}

module _ (p : Peers) (loop_of : Conn → ℕ) (in_loop : ℕ → Bool) where
  abbrev E : Type 0
  E = Node p loop_of in_loop

  -- A node took the message for these users: `sendGroupChat` said so, in some state.
  abbrev pub Took : ℤ → Bytes → Bytes × List ℤ → Type 0
  Took user msg entry =
      (x : E) × (let q = query_entry p loop_of in_loop entry.0 x in
        (send_entry p loop_of in_loop q.0 user entry.1 msg q.1).0 ≡ true)

  -- The entries that were `taken`, one message each; all users of the others have joined the
  -- offline ones.
  Spread : ℤ → Bytes → Groups → List ℤ → E → List ℤ × E → Type 0
  Spread user msg g off s r =
      (taken : Groups) × All (Took user msg) taken
      × (r.1.local_delivery_count ≡ s.local_delivery_count)
      × (r.1.remote_route_count ≡ s.remote_route_count + length taken)
      × (r.1.stored ≡ s.stored)
      × (r.1.outbox ≡ s.outbox)
      × ((x : ℤ) → times_in x taken + times x r.0 ≡ times_in x g + times x off)

  -- The members of the group fall into three parts: those `here`, with the connection that this
  -- node has for each, on which the message was written; those of the `taken` entries, one message
  -- each; and those `away`, whose message is stored.
  abbrev pub ReachesAll : ℤ → List ℤ → Bytes → E → E → Type 0
  ReachesAll user members msg s t =
      (here : List (ℤ × Conn)) × (taken : Groups) × (away : List ℤ) × Connected s.buckets here
      × (t.outbox ≡ s.outbox ++ on_each (conns_of here) msg)
      × (t.local_delivery_count ≡ s.local_delivery_count + length here)
      × All (Took user msg) taken
      × (t.remote_route_count ≡ s.remote_route_count + length taken)
      × (t.stored ≡ s.stored ++ map (λ u. (u, msg)) away)
      × ((x : ℤ) → times x (users_of here) + times_in x taken + times x away ≡ times x members)
