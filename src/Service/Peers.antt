-- ===== src/Service/Peers.antt =====
-- The streams of a node's peers do not mix, however their bytes interleave.
use cluster_chat_server_with.Prelude.{
  ℕ, ◌≡◌, refl, sym, ◌∙◌, ap, Bool, List, [], ◌∷◌, ◌++◌, Option, none, some, Bytes, Map, assign,
  nat_eq, if◌then◌else◌, true,
}
use cluster_chat_server_with.Json.{Json}
use cluster_chat_server_with.Wire.Receive.{Delivery, Outcome, on_message, feed}
use cluster_chat_server_with.Wire.Chunks.{on_message_total}
use cluster_chat_server_with.Service.Connections.{Conn}
use cluster_chat_server_with.Service.Interleave.{
  pending_of, Tagged, arrivals, of_conn, serve_all, serve_tagged, interleaved, alone, apart,
}
use cluster_chat_server_with.Service.Chat.{Peers, Node}
use cluster_chat_server_with.Service.Requests.{handle_delivery, serve_deliveries}
use cluster_chat_server_with.Service.ClusterServer.{
  ClusterServer, on_peer_message, peer_event, peer_events,
}

-- What the loop takes out of a text, and what it leaves.
unfoldable take_calls : Bytes → List Delivery × Bytes
take_calls p = elim (on_message [] p) [ none ↦ ([], p) | some o ↦ (o.calls, o.pending) ]

on_message-take_calls :
    (pending chunk : Bytes)
    → (o : Outcome) × (on_message pending chunk ≡ some o)
      × (take_calls (pending ++ chunk) ≡ (o.calls, o.pending))
unfolding take_calls on_message
on_message-take_calls pending chunk =
    let (o, e, _) = on_message_total pending chunk in (o, e, rw (e, take_calls) refl)

-- The outcomes of a chunk and of those after it, as `feed` puts them together.
abbrev both_chunks : Outcome → Outcome → Outcome
both_chunks o r = record {
  calls = o.calls ++ r.calls;
  pending = r.pending;
  cleared = if o.cleared then true else r.cleared;
}

module _ (j : Json) (p : Peers) (loop_of : Conn → ℕ) (in_loop : ℕ → Bool) where
  abbrev N : Type 0
  N = Node p loop_of in_loop

  -- The handler of a call; which connection it came on does not matter to it.
  abbrev pub serve_call : Conn → Delivery → N → N
  serve_call conn = handle_delivery j p loop_of in_loop

  abbrev Calls : Option Outcome → List Delivery × Bytes → Type 0
  Calls r (calls, left) = (o : Outcome) × (r ≡ some o) × (o.calls ≡ calls) × (o.pending ≡ left)

  feed-alone :
      (chunks : List Bytes) (pending : Bytes)
      → Calls (feed pending chunks) (alone take_calls serve_call pending chunks)
  unfolding feed alone
  feed-alone [] pending = (_, refl, refl, refl)
  feed-alone (chunk ∷ chunks) pending =
      let (o, e, t) = on_message-take_calls pending chunk in
      let (r, h, calls, left) = feed-alone chunks (take_calls (pending ++ chunk)).1 in
      let first = take_calls (pending ++ chunk) in
      (
        both_chunks o r,
        rw (e, feed, ap (λ (x : List Delivery × Bytes). feed x.1 chunks) (sym t) ∙ h) refl,
        ap (λ (x : List Delivery × Bytes). x.0 ++ r.calls) (sym t) ∙ ap (λ x. first.0 ++ x) calls,
        left,
      )

  serve_deliveries-all :
      (conn : Conn) (ds : List Delivery) (s : N)
      → serve_deliveries j p loop_of in_loop ds s ≡ serve_all serve_call conn ds s
  unfolding serve_deliveries serve_all
  serve_deliveries-all conn [] s = refl
  serve_deliveries-all conn (d ∷ ds) s = serve_deliveries-all conn ds _

  abbrev as_server : Map Conn Bytes × N → ClusterServer j p loop_of in_loop
  as_server (contexts, node) = record { contexts = contexts; node = node }

  peer_events-interleaved :
      (chunks : Tagged Bytes) (contexts : Map Conn Bytes) (node : N)
      → peer_events j p loop_of in_loop (arrivals chunks) (as_server (contexts, node))
        ≡ some (as_server (interleaved take_calls serve_call chunks (contexts, node)))
  unfolding peer_events peer_event on_peer_message interleaved
  peer_events-interleaved [] contexts node = refl
  peer_events-interleaved ((k, chunk) ∷ rest) contexts node =
      let (o, e, t) = on_message-take_calls (pending_of contexts k) chunk in
      rw (e, peer_events, serve_deliveries-all k o.calls node)
        (peer_events-interleaved rest (assign k o.pending contexts)
          (serve_all serve_call k o.calls node))
      ∙ ap
          (λ (x : List Delivery × Bytes). some (
            as_server (
              interleaved take_calls serve_call rest
                (assign k x.1 contexts, serve_all serve_call k x.0 node))))
          (sym t)

  -- Chunks arrive from any peers in any order: the node takes them all, and ends as if the calls
  -- of one list had been made on it; and for every connection, the calls in that list that are its
  -- own, and the buffer that it is left with, are what its own chunks give when no other
  -- connection is there.
  pub peers_apart :
      (chunks : Tagged Bytes) (s : ClusterServer j p loop_of in_loop)
      → (t : ClusterServer j p loop_of in_loop) × (served : Tagged Delivery) × (peer_events j p
            loop_of in_loop
            (arrivals chunks)
            s
          ≡ some t)
        × (t.node ≡ serve_tagged serve_call served s.node)
        × ((conn : Conn)
            → (o : Outcome) × (feed (pending_of s.contexts conn) (of_conn conn chunks) ≡ some o)
              × (o.calls ≡ of_conn conn served)
              × (o.pending ≡ pending_of t.contexts conn))
  peers_apart chunks s =
      let (served, state, own) = apart take_calls serve_call chunks s.contexts s.node in
      (
        as_server (interleaved take_calls serve_call chunks (s.contexts, s.node)),
        served,
        peer_events-interleaved chunks s.contexts s.node,
        state,
        λ conn.
            let (o, e, calls, left) =
              feed-alone (of_conn conn chunks) (pending_of s.contexts conn) in
            (
              o,
              e,
              calls ∙ ap (λ (x : List Delivery × Bytes). x.0) (own conn),
              left ∙ ap (λ (x : List Delivery × Bytes). x.1) (own conn),
            ),
      )
