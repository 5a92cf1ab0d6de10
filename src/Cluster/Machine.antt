-- ===== src/Cluster/Machine.antt =====
-- What `ChatService` (src/server/chatservice.cpp) uses, as the registry, the router and the tables
-- give it: an instance of `Peers`.
use cluster_chat_server_with.Prelude.{ℕ, Bool, List, ◌++◌, Bytes, ℤ, St}
use cluster_chat_server_with.Text.{codes, decimal, to_string}
use cluster_chat_server_with.Types.{NodeMeta}
use cluster_chat_server_with.Json.{Json}
use cluster_chat_server_with.Models
use cluster_chat_server_with.Models.{Database}
use cluster_chat_server_with.Registry
use cluster_chat_server_with.Registry.Plane.{ControlPlane}
use cluster_chat_server_with.Registry.{Sys, ask}
use cluster_chat_server_with.Router.Table
use cluster_chat_server_with.Router.Table.{Router, Effect, GroupMessage}
use cluster_chat_server_with.Service.Chat.{Peers}
use cluster_chat_server_with.Service.Requests.{group_fields}

-- `buildTraceId`, with the steady clock's milliseconds.
unfoldable pub build_trace_id : Bytes → ℤ → ℕ → Bytes
build_trace_id node_id from_user_id now_ms =
    node_id ++ (codes "-" ++ (to_string from_user_id ++ (codes "-" ++ decimal now_ms)))

-- `hash` stands for `std::hash<string>`.
module _ (c : ControlPlane) (d : Database) (j : Json) (hash : Bytes → ℕ) where
  -- `up` is the state of the connections that the router's channels hold, and `effects` what the
  -- router has asked of the network library and of the loops.
  pub record Machine : Type 0 where
    pub sys : Sys c
    pub router : Router
    pub db : d.State
    pub up : ℕ → Bool
    pub effects : List Effect

  unfoldable pub in_registry : {A : Type 0} → St (Sys c) A → St Machine A
  in_registry f m = let r = f m.sys in (r.0, record m { sys = r.1 })

  unfoldable pub in_tables : {A : Type 0} → St d.State A → St Machine A
  in_tables f m = let r = f m.db in (r.0, record m { db = r.1 })

  unfoldable pub prewarm : NodeMeta → St Machine (Unit {0})
  prewarm meta m =
      let r = Table.prewarm_node m.router hash m.up meta in
      (tt, record m { router = r.0; effects = m.effects ++ r.1 })

  unfoldable pub send_one : NodeMeta → ℤ → Bytes → St Machine Bool
  send_one meta to_user payload m =
      let (router, sent, acts) = Table.send_one_chat m.router hash m.up meta to_user payload in
      (sent, record m { router = router; effects = m.effects ++ acts })

  abbrev dump : GroupMessage → Bytes
  dump g = j.dump (j.make (group_fields g))

  unfoldable pub send_many : NodeMeta → Bytes → List ℤ → Bytes → Bytes → St Machine Bool
  send_many meta from_node to_users payload trace_id m =
      let (router, sent, acts) =
        Table.send_group_chat dump m.router hash m.up meta from_node to_users payload trace_id in
      (sent, record m { router = router; effects = m.effects ++ acts })

  unfoldable pub trace : ℤ → St Machine Bytes
  unfolding build_trace_id in_registry ask
  trace from_user_id m =
      let (now, t) = in_registry (ask c c.now_ms) m in
      (build_trace_id t.sys.registry.self_node.node_id from_user_id now, t)

  unfoldable pub stop_registry : St Machine (Unit {0})
  unfolding in_registry
  stop_registry m =
      let (_, stopped) = in_registry (Registry.stop c) m in
      in_registry (Registry.cleanup_self c) stopped

  unfoldable pub close_router : St Machine (Unit {0})
  close_router m =
      let (router, acts) = Table.close_all m.router in
      (tt, record m { router = router; effects = m.effects ++ acts })

  abbrev pub cluster_peers : Peers
  cluster_peers = record {
    State = Machine;
    resolve_user_node = λ u. in_registry (Registry.resolve_user_node c u);
    query_user_node = λ u. in_registry (Registry.query_user_node c u);
    query_node = λ n. in_registry (Registry.query_node c n);
    bind_user = λ u. in_registry (Registry.bind_user c u);
    unbind_user = λ u. in_registry (Registry.unbind_user c u);
    prewarm_node = prewarm;
    send_one_chat = λ meta from_node to_user payload trace_id. send_one meta to_user payload;
    send_group_chat = send_many;
    build_trace_id = trace;
    insert_offline = λ u msg. in_tables (Models.insert_offline d u msg);
    query_group_users = λ u g. in_tables (Models.query_group_users d u g);
    update_state = λ u. in_tables (Models.update_state d u);
    reset_state = in_tables (Models.reset_state d);
    insert_user = λ u. in_tables (Models.insert_user d u);
    query_user = λ u. in_tables (Models.query_user d u);
    query_offline = λ u. in_tables (Models.query_offline d u);
    remove_offline = λ u. in_tables (Models.remove_offline d u);
    insert_friend = λ u f. in_tables (Models.insert_friend d u f);
    query_friends = λ u. in_tables (Models.query_friends d u);
    create_group = λ g. in_tables (Models.create_group d g);
    add_group = λ u g role. in_tables (Models.add_group d u g role);
    query_groups = λ u. in_tables (Models.query_groups d u);
    get_node_users = λ n. in_registry (ask c (c.get_node_users n));
    stop_registry = stop_registry;
    close_all = close_router;
  }
