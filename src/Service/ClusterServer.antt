-- ===== src/Service/ClusterServer.antt =====
-- `ClusterServer` (src/server/clusterserver.cpp) with the connections of all its peers: what its
-- callbacks do, event by event, and that the peers' streams do not mix.
use cluster_chat_server_with.Prelude.{
  ℕ, Bool, true, false, List, [], ◌∷◌, Option, none, some, Bytes, Map, assign, nat_eq,
}
use cluster_chat_server_with.Json.{Json}
use cluster_chat_server_with.Wire.Receive.{on_message}
use cluster_chat_server_with.Service.Connections.{Conn}
use cluster_chat_server_with.Service.Interleave.{Event, opened, closed, received, pending_of}
use cluster_chat_server_with.Service.Chat.{Peers, Node}
use cluster_chat_server_with.Service.Requests.{serve_deliveries}

module _ (j : Json) (p : Peers) (loop_of : Conn → ℕ) (in_loop : ℕ → Bool) where
  pub record ClusterServer : Type 0 where
    pub contexts : Map Conn Bytes
    pub node : Node p loop_of in_loop

  -- `onConnection`; the `shutdown` of a connection that is gone does nothing.
  unfoldable pub on_peer_connection : Bool → Conn → ClusterServer → ClusterServer
  on_peer_connection true conn s = record s { contexts = assign conn [] s.contexts }
  on_peer_connection false conn s = s

  -- `onMessage`; `none` means that its loop ran out of fuel.
  unfoldable pub on_peer_message : Conn → Bytes → ClusterServer → Option ClusterServer
  unfolding pending_of
  on_peer_message conn chunk s = elim (on_message (pending_of s.contexts conn) chunk) [
    | none ↦ none
    | some o ↦ some (record {
      contexts = assign conn o.pending s.contexts;
      node = serve_deliveries j p loop_of in_loop o.calls s.node;
    })
  ]

  unfoldable pub peer_event : Event → ClusterServer → Option ClusterServer
  unfolding on_peer_connection on_peer_message
  peer_event (opened conn) s = some (on_peer_connection true conn s)
  peer_event (closed conn) s = some (on_peer_connection false conn s)
  peer_event (received conn chunk) s = on_peer_message conn chunk s

  unfoldable pub peer_events : List Event → ClusterServer → Option ClusterServer
  unfolding peer_event
  peer_events [] s = some s
  peer_events (event ∷ rest) s = elim (peer_event event s) [
    | none ↦ none
    | some t ↦ peer_events rest t
  ]
