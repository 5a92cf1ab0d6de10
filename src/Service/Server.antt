-- ===== src/Service/Server.antt =====
-- `ChatServer` (src/server/chatserver.cpp) with all its connections: what its callbacks do, event by
-- event.
use cluster_chat_server_with.Prelude.{
  ℕ, Bool, true, false, List, [], ◌∷◌, Option, none, some, Bytes, Map, assign, nat_eq,
}
use cluster_chat_server_with.Json.{Json}
use cluster_chat_server_with.Wire.Client.{on_client_message}
use cluster_chat_server_with.Service.Connections.{Conn}
use cluster_chat_server_with.Service.Interleave.{Event, opened, closed, received, pending_of}
use cluster_chat_server_with.Service.Chat.{Peers, Node}
use cluster_chat_server_with.Service.Session.{client_close_exception}
use cluster_chat_server_with.Service.Requests.{serve_requests}

module _ (j : Json) (p : Peers) (loop_of : Conn → ℕ) (in_loop : ℕ → Bool) where
  pub record Server : Type 0 where
    pub contexts : Map Conn Bytes
    pub node : Node p loop_of in_loop

  -- `onConnection`; the `shutdown` of a connection that is gone does nothing.
  unfoldable pub on_connection : Bool → Conn → Server → Server
  on_connection true conn s = record s { contexts = assign conn [] s.contexts }
  on_connection false conn s = record s {
    node = (client_close_exception p loop_of in_loop conn s.node).1;
  }

  -- `onMessage`; `none` means that its loop ran out of fuel.
  unfoldable pub on_server_message : Conn → Bytes → Server → Option Server
  unfolding pending_of
  on_server_message conn chunk s = elim (on_client_message (pending_of s.contexts conn) chunk) [
    | none ↦ none
    | some (requests, rest) ↦ some (record {
      contexts = assign conn rest s.contexts;
      node = serve_requests j p loop_of in_loop conn requests s.node;
    })
  ]

  unfoldable pub server_event : Event → Server → Option Server
  unfolding on_connection on_server_message
  server_event (opened conn) s = some (on_connection true conn s)
  server_event (closed conn) s = some (on_connection false conn s)
  server_event (received conn chunk) s = on_server_message conn chunk s

  unfoldable pub server_events : List Event → Server → Option Server
  unfolding server_event
  server_events [] s = some s
  server_events (event ∷ rest) s = elim (server_event event s) [
    | none ↦ none
    | some t ↦ server_events rest t
  ]
