-- ===== src/Tests/Store/Moves.antt =====
-- User 4, who is logged in at node n1, loses the connection and logs in at node n2.
use cluster_chat_server_with.Prelude.{
  ◌≡◌, refl, true, [], ◌∷◌, some, pos, arith, find, erase, bytes_eq, bytes_eq_inst, int_eq_inst,
}
use cluster_chat_server_with.Text.{codes}
use cluster_chat_server_with.Types.{valid}
use cluster_chat_server_with.Config.{atoi}
use cluster_chat_server_with.Models
use cluster_chat_server_with.Redis.{
  unbind_user_node, run_commands, node_fields, session_key, session_value,
}
use cluster_chat_server_with.Registry.{new_registry, unbind_user, erase_cached_user_node, ask}
use cluster_chat_server_with.Registry.Shared.{IsRegistered}
use cluster_chat_server_with.Service.Connections.{
  get_local_connection, remove_local_connection_by_conn, find_conn,
}
use cluster_chat_server_with.Service.Chat.{peers}
use cluster_chat_server_with.Service.Session.{login, client_close_exception, unbind_session}
use cluster_chat_server_with.Cluster.Machine.{cluster_peers, in_tables, in_registry}
use cluster_chat_server_with.Cluster.Start.{ChatNode}
use cluster_chat_server_with.Cluster.LoggedIn.{is_admitted}
use cluster_chat_server_with.Cluster.Moves.{closes, Ends, Comes, left, login_moves}
use cluster_chat_server_with.Tests.Service.{loop_now, here_now}
use cluster_chat_server_with.Tests.Store.{
  server, server-IsStore, member, clock, wall_ms, plane, world,
}
use cluster_chat_server_with.Tests.Store.Sessions.{server-IsKeyed}
use cluster_chat_server_with.Tests.Store.Reached.{rows, node_at}
use cluster_chat_server_with.Tests.Cluster.{json, hash}

-- Node n1 has the user with connection 6, and the store has the session.
abbrev settled : ChatNode plane rows json hash loop_now here_now
settled =
    record (node_at
      (record {
        registry = record new_registry { self_node = member (codes "n1") };
        world = record world {
          values = (session_key (pos 4), session_value (codes "n1") (codes "n1#1")) ∷ [];
        };
      })
      (codes "n1")) { buckets = ((pos 4, 6) ∷ []) ∷ [] }

abbrev gone : ChatNode plane rows json hash loop_now here_now
gone =
    left server server-IsStore server-IsKeyed clock wall_ms rows json hash loop_now here_now
      (closes 6) (pos 4) settled

abbrev other_node : ChatNode plane rows json hash loop_now here_now
other_node =
    node_at
      (record {
        registry = record new_registry { self_node = member (codes "n2") };
        world = gone.world.sys.world;
      })
      (codes "n2")

ends :
    Ends server server-IsStore server-IsKeyed clock wall_ms rows json hash loop_now here_now
      (closes 6)
      (pos 4)
      settled
unfolding remove_local_connection_by_conn find_conn
ends = (refl, refl)

other_node-IsRegistered :
    IsRegistered server server-IsStore clock wall_ms
      (member (codes "n2"))
      other_node.world.sys.world
unfolding server-IsStore valid find bytes_eq client_close_exception unbind_session unbind_user
    unbind_user_node run_commands remove_local_connection_by_conn find_conn peers in_tables
    in_registry node_fields erase erase_cached_user_node ask
other_node-IsRegistered = record {
  is_valid = refl;
  client_port_fits = omega arith;
  inter_port_fits = omega arith;
  has_instance = refl;
  no_bar = (λ e. omega arith, (λ e. omega arith, (λ e. omega arith, (λ e. omega arith, tt))));
  heartbeat_at = 4;
  registered = refl;
}

other_node-Comes :
    Comes server server-IsStore server-IsKeyed clock wall_ms rows json hash loop_now here_now
      (pos 4)
      (codes "pw")
      gone.world.sys.world
      other_node
unfolding Models.query_user atoi bytes_eq find
other_node-Comes = record {
  same_store = refl;
  has_bucket = omega arith;
  in_cluster = refl;
  is_right = refl;
  no_own_route = refl;
  clock_keeps = ((λ w k. refl), (λ w k. refl));
  is_registered = other_node-IsRegistered;
}

login_moves_example :
    let q =
      login
        (cluster_peers plane rows json hash)
        loop_now
        here_now
        7
        (pos 4)
        (codes "pw")
        other_node in
    (is_admitted q.0 ≡ true)
    × (get_local_connection (pos 4) q.1.buckets ≡ some 7)
    × (server-IsStore.value_of q.1.world.sys.world (session_key (pos 4))
        ≡ some (session_value (codes "n2") (codes "n2#1")))
login_moves_example =
    login_moves server server-IsStore server-IsKeyed clock wall_ms rows json hash loop_now here_now
      (closes 6) 7 (pos 4) (codes "pw") settled other_node refl ends other_node-Comes
