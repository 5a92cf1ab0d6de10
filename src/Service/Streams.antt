-- ===== src/Service/Streams.antt =====
-- The streams of a server's clients do not mix, however their bytes interleave.
use cluster_chat_server_with.Prelude.{
  ℕ, suc, ◌≡◌, refl, ◌∙◌, ap, Bool, List, [], ◌∷◌, ◌++◌, some, arith, Bytes, length, Map, assign,
  nat_eq,
}
use cluster_chat_server_with.Json.{Json}
use cluster_chat_server_with.Wire.Client.{on_client_message, feed_client}
use cluster_chat_server_with.Wire.Requests.{scan, split-scan}
use cluster_chat_server_with.Service.Connections.{Conn}
use cluster_chat_server_with.Service.Interleave.{
  pending_of, Tagged, arrivals, of_conn, serve_all, serve_tagged, taken, interleaved, alone, apart,
}
use cluster_chat_server_with.Service.Chat.{Peers, Node}
use cluster_chat_server_with.Service.Requests.{handle_request, serve_requests}
use cluster_chat_server_with.Service.Server.{Server, on_server_message, server_event, server_events}

on_client_message-scan :
    (pending chunk : Bytes) → on_client_message pending chunk ≡ some (scan [] (pending ++ chunk))
unfolding on_client_message
on_client_message-scan pending chunk =
    split-scan (suc (length (pending ++ chunk))) (pending ++ chunk) (omega arith)

module _ (j : Json) (p : Peers) (loop_of : Conn → ℕ) (in_loop : ℕ → Bool) where
  abbrev N : Type 0
  N = Node p loop_of in_loop

  abbrev serve : Conn → Bytes → N → N
  serve = handle_request j p loop_of in_loop

  feed_client-alone :
      (chunks : List Bytes) (pending : Bytes)
      → feed_client pending chunks ≡ some (alone (scan []) serve pending chunks)
  unfolding feed_client alone
  feed_client-alone [] pending = refl
  feed_client-alone (chunk ∷ chunks) pending =
      rw
        (
          on_client_message-scan pending chunk,
          feed_client,
          feed_client-alone chunks (scan [] (pending ++ chunk)).1,
        )
        refl

  serve_requests-all :
      (conn : Conn) (rs : List Bytes) (s : N)
      → serve_requests j p loop_of in_loop conn rs s ≡ serve_all serve conn rs s
  unfolding serve_requests serve_all
  serve_requests-all conn [] s = refl
  serve_requests-all conn (r ∷ rs) s = serve_requests-all conn rs _

  abbrev as_server : Map Conn Bytes × N → Server j p loop_of in_loop
  as_server (contexts, node) = record { contexts = contexts; node = node }

  server_events-interleaved :
      (chunks : Tagged Bytes) (contexts : Map Conn Bytes) (node : N)
      → server_events j p loop_of in_loop (arrivals chunks) (as_server (contexts, node))
        ≡ some (as_server (interleaved (scan []) serve chunks (contexts, node)))
  unfolding server_events server_event on_server_message interleaved
  server_events-interleaved [] contexts node = refl
  server_events-interleaved ((k, chunk) ∷ rest) contexts node =
      let (requests, left) = taken (scan []) serve contexts k chunk in
      rw
        (
          on_client_message-scan (pending_of contexts k) chunk,
          server_events,
          serve_requests-all k requests node,
        )
        (server_events-interleaved rest (assign k left contexts) (serve_all serve k requests node))

  -- Chunks arrive on any connections in any order: the server takes them all, and ends as if its
  -- handlers had been called on one list of requests; and for every connection, the requests in
  -- that list that are its own, and the text that it is left with, are what its own chunks give
  -- when no other connection is there.
  pub streams_apart :
      (chunks : Tagged Bytes) (s : Server j p loop_of in_loop)
      → (t : Server j p loop_of in_loop) × (served : Tagged Bytes) × (server_events j p loop_of
            in_loop
            (arrivals chunks)
            s
          ≡ some t)
        × (t.node ≡ serve_tagged (handle_request j p loop_of in_loop) served s.node)
        × ((conn : Conn)
            → feed_client (pending_of s.contexts conn) (of_conn conn chunks)
              ≡ some (of_conn conn served, pending_of t.contexts conn))
  streams_apart chunks s =
      let (served, state, own) = apart (scan []) serve chunks s.contexts s.node in
      (
        as_server (interleaved (scan []) serve chunks (s.contexts, s.node)),
        served,
        server_events-interleaved chunks s.contexts s.node,
        state,
        λ conn.
            feed_client-alone (of_conn conn chunks) (pending_of s.contexts conn)
            ∙ ap some (own conn),
      )
