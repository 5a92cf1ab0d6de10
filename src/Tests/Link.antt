-- ===== src/Tests/Link.antt =====
-- Connections that carry two requests, or two messages between nodes.
use cluster_chat_server_with.Prelude.{
  false, ◌≡◌, refl, true, List, [], ◌∷◌, ◌++◌, some, arith, Bytes, concat, map, pos, find, bytes_eq,
  bytes_eq_inst, take, drop,
}
use cluster_chat_server_with.Text.{codes, decimal, digits_of}
use cluster_chat_server_with.Json.{Json, Fields}
use cluster_chat_server_with.Wire.Frame.{IsInt, one_chat_frame, append_uint32}
use cluster_chat_server_with.Wire.Receive.{Outcome, feed}
use cluster_chat_server_with.Wire.Client.{feed_client}
use cluster_chat_server_with.Router.Table.{GroupMessage}
use cluster_chat_server_with.Client.Input.{line_then, fits}
use cluster_chat_server_with.Client.Commands.{back, chat_fields, groupchat_fields, menu_round}
use cluster_chat_server_with.Client.Served.{typed_chat, typed_groupchat}
use cluster_chat_server_with.Service.Chat.{one_chat}
use cluster_chat_server_with.Service.Group.{group_chat}
use cluster_chat_server_with.Service.Requests.{
  group_fields, handle_request, serve_requests, serve_deliveries,
}
use cluster_chat_server_with.Service.Link.{
  Outgoing, to_user, to_users, outgoing_bytes, direct_calls, link_refines, feed_client-requests,
}
use cluster_chat_server_with.Service.Connections.{Conn}
use cluster_chat_server_with.Service.Server.{Server, server_events}
use cluster_chat_server_with.Service.Interleave.{
  pending_of, Tagged, arrivals, of_conn, serve_tagged,
}
use cluster_chat_server_with.Service.Streams.{streams_apart}
use cluster_chat_server_with.Tests.Service.{peers_now, loop_now, here_now, node_now}
use cluster_chat_server_with.Tests.Client.{two_objects, two_objects-other, logged_in, chat_json}

abbrev group_message : GroupMessage
group_message = record {
  from_node = codes "n1";
  to_node = codes "n2";
  to_users = pos 2 ∷ pos 7 ∷ [];
  payload = codes "hi";
  trace_id = [];
}

abbrev to_all_json : Json
to_all_json = two_objects (group_fields group_message) (group_fields group_message)

abbrev messages : List Outgoing
messages = to_user (pos 2) (codes "hello") ∷ to_users group_message ∷ []

abbrev stream : Bytes
stream = concat (map (outgoing_bytes to_all_json) messages)

link_refines_example :
    (o : Outcome) × (feed [] (take 5 stream ∷ drop 5 stream ∷ []) ≡ some o)
    × (o.pending ≡ [])
    × (serve_deliveries to_all_json peers_now loop_now here_now o.calls node_now
        ≡ direct_calls to_all_json peers_now loop_now here_now messages node_now)
unfolding outgoing_bytes one_chat_frame find append_uint32 group_fields bytes_eq
link_refines_example =
    link_refines to_all_json peers_now loop_now here_now messages
      (take 5 stream ∷ drop 5 stream ∷ []) node_now
      (
        ((unfold IsInt in omega arith), omega arith),
        (
          two_objects-other (group_fields group_message) (group_fields group_message)
              (unfold group_fields find bytes_eq in refl),
          tt,
        ),
      )
      refl

feed_client-requests_example :
    feed_client [] (codes "{a" ∷ (125 ∷ 0 ∷ codes "{b}") ∷ (0 ∷ []) ∷ [])
    ≡ some (codes "{a}" ∷ codes "{b}" ∷ [], [])
feed_client-requests_example =
    feed_client-requests (codes "{a}" ∷ codes "{b}" ∷ [])
      (codes "{a" ∷ (125 ∷ 0 ∷ codes "{b}") ∷ (0 ∷ []) ∷ [])
      (
        (omega arith, (omega arith, (omega arith, (omega arith, tt)))),
        ((omega arith, (omega arith, (omega arith, (omega arith, tt)))), tt),
      )
      refl

-- The message holds a colon.
typed_chat_example :
    (menu_round chat_json
        (codes "now")
        true
        logged_in
        (line_then (codes "chat:" ++ (decimal 5 ++ b':' ∷ codes "hi: you")) (codes "logout"))
      ≡ (
        back (record logged_in { sent = (codes "{1}" ++ 0 ∷ []) ∷ [] }),
        record { typed = codes "logout"; failed = false },
      ))
    × ((rs : List Bytes) × (feed_client [] (codes "{1" ∷ (125 ∷ 0 ∷ []) ∷ []) ≡ some (rs, []))
        × (serve_requests chat_json peers_now loop_now here_now 8 rs node_now
            ≡ (one_chat peers_now loop_now here_now (pos 2) (pos 5) (codes "{1}") node_now).1))
unfolding find bytes_eq
typed_chat_example =
    typed_chat chat_json peers_now loop_now here_now logged_in 5 (codes "hi: you") (codes "now")
      (codes "logout") 8 (codes "{1" ∷ (125 ∷ 0 ∷ []) ∷ []) node_now (omega arith)
      (unfold fits decimal digits_of in refl)
      (two_objects-other (chat_fields logged_in (pos 5) (codes "hi: you") (codes "now"))
        (chat_fields logged_in (pos 5) (codes "hi: you") (codes "now"))
        (unfold find bytes_eq in refl))
      (unfold find bytes_eq in refl)

abbrev to_group : Fields
to_group = groupchat_fields logged_in (pos 3) (codes "all") (codes "now")

abbrev to_group_json : Json
to_group_json = two_objects to_group to_group

typed_groupchat_example :
    (menu_round to_group_json
        (codes "now")
        true
        logged_in
        (line_then (codes "groupchat:" ++ (decimal 3 ++ b':' ∷ codes "all")) (codes "logout"))
      ≡ (
        back (record logged_in { sent = (codes "{1}" ++ 0 ∷ []) ∷ [] }),
        record { typed = codes "logout"; failed = false },
      ))
    × ((rs : List Bytes) × (feed_client [] (codes "{1" ∷ (125 ∷ 0 ∷ []) ∷ []) ≡ some (rs, []))
        × (serve_requests to_group_json peers_now loop_now here_now 8 rs node_now
            ≡ (group_chat peers_now loop_now here_now (pos 2) (pos 3) (codes "{1}") node_now).1))
unfolding find bytes_eq
typed_groupchat_example =
    typed_groupchat to_group_json peers_now loop_now here_now logged_in 3 (codes "all")
      (codes "now") (codes "logout") 8 (codes "{1" ∷ (125 ∷ 0 ∷ []) ∷ []) node_now (omega arith)
      (unfold fits decimal digits_of in refl)
      (two_objects-other to_group to_group (unfold find bytes_eq in refl))
      (unfold find bytes_eq in refl)

abbrev two_clients : Tagged Bytes
two_clients = (8, codes "{a") ∷ (9, codes "{b}" ++ 0 ∷ codes "{") ∷ (8, codes "}" ++ 0 ∷ []) ∷ []

abbrev server : Server chat_json peers_now loop_now here_now
server = record { contexts = []; node = node_now }

streams_apart_example :
    (t : Server chat_json peers_now loop_now here_now) × (served : Tagged Bytes) × (server_events
        chat_json peers_now loop_now here_now
        (arrivals two_clients)
        server
      ≡ some t)
    × (t.node ≡ serve_tagged (handle_request chat_json peers_now loop_now here_now) served node_now)
    × ((conn : Conn)
        → feed_client (pending_of [] conn) (of_conn conn two_clients)
          ≡ some (of_conn conn served, pending_of t.contexts conn))
streams_apart_example = streams_apart chat_json peers_now loop_now here_now two_clients server
