-- ===== src/Tests/Group.antt =====
-- A client of node n1 writes to a group whose two other members are at node n2.
use cluster_chat_server_with.Prelude.{
  ◌+◌, ◌≡◌, refl, true, [], ◌∷◌, Bytes, pos, find, assign, bytes_eq, bytes_eq_inst, int_eq_inst,
  take, drop,
}
use cluster_chat_server_with.Text.{codes, decimal, digits_of, to_string}
use cluster_chat_server_with.Types.{no_node}
use cluster_chat_server_with.Json.{Json}
use cluster_chat_server_with.Registry
use cluster_chat_server_with.Registry.{new_registry, ask}
use cluster_chat_server_with.Router.Channel.{send}
use cluster_chat_server_with.Router.Table.{GroupMessage}
use cluster_chat_server_with.Service.Connections.{get_local_connection, pick_conn_bucket}
use cluster_chat_server_with.Service.Chat.{resolve, peers}
use cluster_chat_server_with.Service.Group.{send_group}
use cluster_chat_server_with.Service.Requests.{group_fields}
use cluster_chat_server_with.Service.Link.{to_users, outgoing_bytes}
use cluster_chat_server_with.Cluster.Machine.{build_trace_id, cluster_peers, in_registry, trace}
use cluster_chat_server_with.Cluster.Start.{ChatNode}
use cluster_chat_server_with.Cluster.GroupAcross.{MembersElsewhere}
use cluster_chat_server_with.Cluster.GroupReached.{Takes, group_across}
use cluster_chat_server_with.Tests.Service.{peers_now, loop_now, here_now, node_now}
use cluster_chat_server_with.Tests.Client.{two_objects, two_objects-other}
use cluster_chat_server_with.Tests.Cluster.{plane, tables, hash, far, router, router-IsReady}

abbrev group_message : GroupMessage
group_message = record {
  from_node = codes "n1";
  to_node = codes "n2";
  to_users = pos 2 ∷ pos 7 ∷ [];
  payload = codes "hi";
  trace_id = codes "n1-1-0";
}

abbrev json : Json
json = two_objects (group_fields group_message) (group_fields group_message)

abbrev near : ChatNode plane tables json hash loop_now here_now
near = record {
  world = record {
    sys = record {
      registry = record new_registry { self_node = record no_node { node_id = codes "n1" } };
      world = 0;
    };
    router = router;
    db = 0;
    up = λ p. true;
    effects = [];
  };
  buckets = [] ∷ [];
  dispatchers = [];
  local_queue_limit = 4;
  clustered = true;
  self_node = record no_node { node_id = codes "n1" };
  outbox = [];
  queued = [];
  stored = [];
  local_delivery_count = 0;
  remote_route_count = 0;
  remote_route_fail_count = 0;
  offline_fallback_count = 0;
  stale_session_count = 0;
}

near-MembersElsewhere :
    MembersElsewhere plane tables json hash loop_now here_now
      (pos 2)
      (pos 7 ∷ [])
      (codes "n2")
      far
      0
      3
      near
unfolding find bytes_eq get_local_connection pick_conn_bucket Registry.resolve_user_node
    Registry.resolve_route Registry.resolve_slowly Registry.query_found Registry.query_user_node
    Registry.check_cached Registry.check_fetched Registry.check_session Registry.query_node
    Registry.or_fetch Registry.keep_fetched Registry.is_current Registry.get_cached_user_node
    Registry.get_cached_node Registry.cache_user_node Registry.cache_node ask assign resolve peers
    in_registry
near-MembersElsewhere = record {
  in_cluster = refl;
  not_here = (refl, (refl, tt));
  is_other = refl;
  found_as = far;
  all_found = (refl, (refl, tt));
  queried = refl;
  is_ready = router-IsReady;
}

abbrev stream : Bytes
stream = outgoing_bytes json (to_users group_message)

group_across_example :
    let s =
      (send_group
        (cluster_peers plane tables json hash)
        loop_now
        here_now
        (pos 1)
        (pos 2 ∷ pos 7 ∷ [])
        (codes "hi")
        near).1 in
    (s.world.effects ≡ (0, send 3 stream) ∷ [])
    × (s.stored ≡ [])
    × (s.remote_route_count ≡ 0 + 1)
    × Takes plane tables json hash loop_now here_now peers_now loop_now here_now
        (pos 2 ∷ pos 7 ∷ [])
        (codes "hi")
        (take 5 stream ∷ drop 5 stream ∷ [])
        node_now
unfolding find bytes_eq get_local_connection pick_conn_bucket Registry.resolve_user_node
    Registry.resolve_route Registry.resolve_slowly Registry.query_found Registry.query_user_node
    Registry.check_cached Registry.check_fetched Registry.check_session Registry.query_node
    Registry.or_fetch Registry.keep_fetched Registry.is_current Registry.get_cached_user_node
    Registry.get_cached_node Registry.cache_user_node Registry.cache_node ask assign resolve peers
    in_registry trace build_trace_id decimal digits_of to_string
group_across_example =
    group_across plane tables json hash loop_now here_now peers_now loop_now here_now (pos 1)
      (pos 2) (pos 7 ∷ []) (codes "n2") far (codes "hi") 0 3 (take 5 stream ∷ drop 5 stream ∷ [])
      near node_now near-MembersElsewhere
      (two_objects-other (group_fields group_message) (group_fields group_message)
        (unfold group_fields find bytes_eq in refl))
      (unfold outgoing_bytes group_fields find bytes_eq in refl)
