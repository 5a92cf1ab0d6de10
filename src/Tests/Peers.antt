-- ===== src/Tests/Peers.antt =====
-- Two peers whose messages arrive in turns.
use cluster_chat_server_with.Prelude.{◌≡◌, [], ◌∷◌, ◌++◌, some, Bytes, take, drop, pos}
use cluster_chat_server_with.Text.{codes}
use cluster_chat_server_with.Wire.Frame.{one_chat_frame}
use cluster_chat_server_with.Wire.Receive.{Delivery, Outcome, feed}
use cluster_chat_server_with.Service.Connections.{Conn}
use cluster_chat_server_with.Service.Interleave.{
  pending_of, Tagged, arrivals, of_conn, serve_tagged,
}
use cluster_chat_server_with.Service.ClusterServer.{ClusterServer, peer_events}
use cluster_chat_server_with.Service.Peers.{serve_call, peers_apart}
use cluster_chat_server_with.Tests.Service.{peers_now, loop_now, here_now, node_now}
use cluster_chat_server_with.Tests.Client.{chat_json}

abbrev frame : Bytes
frame = one_chat_frame (pos 2) (codes "hello")

abbrev two_peers : Tagged Bytes
two_peers = (3, take 5 frame) ∷ (4, codes "{}" ++ 0 ∷ codes "{") ∷ (3, drop 5 frame) ∷ []

abbrev receiver : ClusterServer chat_json peers_now loop_now here_now
receiver = record { contexts = []; node = node_now }

peers_apart_example :
    (t : ClusterServer chat_json peers_now loop_now here_now) × (served : Tagged Delivery)
    × (peer_events chat_json peers_now loop_now here_now (arrivals two_peers) receiver ≡ some t)
    × (t.node ≡ serve_tagged (serve_call chat_json peers_now loop_now here_now) served node_now)
    × ((conn : Conn)
        → (o : Outcome) × (feed (pending_of [] conn) (of_conn conn two_peers) ≡ some o)
          × (o.calls ≡ of_conn conn served)
          × (o.pending ≡ pending_of t.contexts conn))
peers_apart_example = peers_apart chat_json peers_now loop_now here_now two_peers receiver
