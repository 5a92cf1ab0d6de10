-- ===== src/Tests/Registry.antt =====
-- A small control plane, and what is written into Redis and MySQL.
use cluster_chat_server_with.Prelude.{
  ℕ, ◌≡◌, refl, sym, ap, true, [], ◌∷◌, map, some, some_inj, none, arith, Bytes, pos, find,
  bytes_eq, zero, suc, int_eq_inst, bytes_eq_inst,
}
use cluster_chat_server_with.Text.{codes, to_string}
use cluster_chat_server_with.Types.{NodeMeta, no_node}
use cluster_chat_server_with.Redis.{node_fields, read_fields}
use cluster_chat_server_with.Redis.Encoding.{read_fields-node_fields}
use cluster_chat_server_with.Registry.Plane.{ControlPlane}
use cluster_chat_server_with.Registry.{
  new_registry, Sys, ask, query_user_node, check_cached, check_fetched, check_session, query_node,
  or_fetch, keep_fetched, is_current, forget_session, get_cached_user_node, get_cached_node,
  cache_user_node, cache_node,
}
use cluster_chat_server_with.Registry.Sessions.{IsLive, query_user_node-none, query_user_node-some}
use cluster_chat_server_with.Models.{format_sql, insert_offline_text}
use cluster_chat_server_with.Models.Statements.{count, insert_offline-unclosed}

abbrev node : Bytes → NodeMeta
node id = record {
  node_id = id;
  instance_id = codes "i2";
  client_ip = codes "10.0.0.2";
  client_port = 6000;
  inter_ip = codes "10.0.0.2";
  inter_port = 7000;
  heartbeat_ms = pos 5;
}

read_fields-node_fields_example :
    read_fields no_node (map some (node_fields (node (codes "n2")) (pos 99)))
    ≡ record (node (codes "n2")) { heartbeat_ms = pos 99 }
read_fields-node_fields_example =
    read_fields-node_fields (node (codes "n2")) 99 (omega arith) (omega arith)

-- The clock stands at the state; each user has a session of node n2, whose instance is i2.
abbrev plane : Bytes → ControlPlane
plane instance_id = record {
  State = ℕ;
  now_ms = λ w. (w, w);
  register_node = λ m ttl w. (true, w);
  unregister_node = λ n w. (true, w);
  get_node = λ n w. (some (node n), w);
  get_node_ids = λ w. (codes "n2" ∷ [], w);
  bind_user_node = λ u n i w. (true, w);
  unbind_user_node = λ u n w. (true, w);
  get_user_session = λ u w. (some (codes "n2", instance_id), w);
  get_node_users = λ n w. ([], w);
}

-- A session that an earlier instance bound, cached.
abbrev stale : Sys (plane (codes "i1"))
stale = record {
  registry = record new_registry {
    user_routes =
        (pos 7, record { node_id = codes "n2"; instance_id = codes "i1"; expire_at_ms = 500 }) ∷ [];
  };
  world = 100;
}

query_user_node-none_example :
    find (pos 7) (query_user_node (plane (codes "i1")) (pos 7) stale).1.registry.user_routes ≡ none
unfolding query_user_node check_cached check_session query_node or_fetch keep_fetched is_current
    forget_session get_cached_user_node get_cached_node ask cache_node find bytes_eq
query_user_node-none_example = query_user_node-none (plane (codes "i1")) (pos 7) stale refl

abbrev empty : Sys (plane (codes "i2"))
empty = record { registry = new_registry; world = 100 }

query_user_node-some_example :
    IsLive
      (plane (codes "i2"))
      (pos 7)
      (codes "n2")
      (query_user_node (plane (codes "i2")) (pos 7) empty).1
unfolding query_user_node check_cached check_fetched check_session query_node or_fetch keep_fetched
    is_current forget_session get_cached_user_node get_cached_node ask cache_node cache_user_node
    find bytes_eq
query_user_node-some_example =
    query_user_node-some (plane (codes "i2")) (pos 7) empty (codes "n2")
      (λ n w k e. ap (λ (m : NodeMeta). m.node_id) (sym (some_inj e))) refl

abbrev zeros : ℕ → Bytes
zeros zero = []
zeros (suc n) = b'0' ∷ zeros n

insert_offline-unclosed_example :
    count b'\'' (format_sql (insert_offline_text (pos 7) (zeros 990))) ≡ 1
unfolding to_string
insert_offline-unclosed_example =
    insert_offline-unclosed (pos 7) (zeros 990) (omega arith) refl (omega arith)
