-- ===== src/Cluster/Excluded.antt =====
-- A user who is logged in at one node logs in at another (`login`, src/server/chatservice.cpp).
use cluster_chat_server_with.Prelude.{
  if_holds, ℕ, ◌≡◌, refl, Bool, true, ◌&&◌, Option, none, some, Bytes, ℤ, int_eq, bytes_eq,
}
use cluster_chat_server_with.Json.{Json}
use cluster_chat_server_with.Models.{Database, User}
use cluster_chat_server_with.Redis.{RedisServer}
use cluster_chat_server_with.Redis.Store.{IsStore}
use cluster_chat_server_with.Redis.Sessions.{IsKeyed}
use cluster_chat_server_with.Registry.{Sys}
use cluster_chat_server_with.Registry.Plane.{ControlPlane, redis_plane}
use cluster_chat_server_with.Registry.Shared.{session_visible}
use cluster_chat_server_with.Service.Connections.{Conn, Buckets}
use cluster_chat_server_with.Service.Chat.{Peers, peers}
use cluster_chat_server_with.Service.Session.{
  Reply, refused, in_use, find_session, check_session_free, login,
}
use cluster_chat_server_with.Cluster.Machine.{cluster_peers, in_registry, in_tables}
use cluster_chat_server_with.Cluster.Start.{ChatNode}
use cluster_chat_server_with.Cluster.Bound.{JustBound}
use cluster_chat_server_with.Cluster.LoggedIn.{is_admitted, CanLogIn, user_row, looked, login-Done}
use cluster_chat_server_with.Cluster.Reached.{Shares, just_bound}

module _ (r : RedisServer) (d : IsStore r) (k : IsKeyed r d) (clock : r.State → ℕ × r.State)
    (wall_ms : r.State → ℤ) (b : Database) (j : Json) (hash : Bytes → ℕ) (loop_of : Conn → ℕ)
    (in_loop : ℕ → Bool) where
  abbrev C : ControlPlane
  C = redis_plane r clock wall_ms

  abbrev N : Type 0
  N = ChatNode C b j hash loop_of in_loop

  abbrev P : Peers
  P = cluster_peers C b j hash

  -- The node asks for the right row, in the cluster.
  pub record Knocks (id : ℤ) (pwd : Bytes) (t : N) : Type 0 where
    pub in_cluster : t.clustered ≡ true
    pub is_right :
        (int_eq (user_row r d k clock wall_ms b j hash loop_of in_loop id t).id id
          && bytes_eq (user_row r d k clock wall_ms b j hash loop_of in_loop id t).password pwd)
        ≡ true

  abbrev Refused : Buckets → Reply × N → Type 0
  Refused bs q = (q.0 ≡ refused in_use) × (q.1.buckets ≡ bs)

  found-there :
      (id : ℤ) (sys : Sys C) (t : N)
      → t.clustered ≡ true
      → JustBound r d clock wall_ms id sys t.world.sys
      → let q = find_session P loop_of in_loop id t in
        (q.0 ≡ some sys.registry.self_node.node_id) × (q.1.buckets ≡ t.buckets)
  unfolding find_session peers in_registry
  found-there id sys t clustered h =
      if_holds
        (λ (q : Option Bytes × N).
          (q.0 ≡ some sys.registry.self_node.node_id) × (q.1.buckets ≡ t.buckets))
        t.clustered _ _ clustered
        ((
          session_visible r d clock wall_ms id sys t.world.sys h.clock_keeps h.is_registered
              h.was_free h.same_store h.no_route h.no_meta,
          refl,
        ))

  checked-Refused :
      (session : Option Bytes) (n : Bytes) (conn : Conn) (user : User) (id : ℤ) (bs : Buckets)
      (t : N)
      → session ≡ some n
      → t.buckets ≡ bs
      → Refused bs (check_session_free P loop_of in_loop session conn user id t)
  unfolding check_session_free
  checked-Refused none n conn user id bs t e same = absurd (cc)
  checked-Refused (some m) n conn user id bs t e same = (refl, same)

  bound-Refused :
      (conn : Conn) (id : ℤ) (pwd : Bytes) (sys : Sys C) (t : N)
      → Knocks id pwd t
      → JustBound r d clock wall_ms id sys t.world.sys
      → Refused t.buckets (login P loop_of in_loop conn id pwd t)
  unfolding login peers in_tables
  bound-Refused conn id pwd sys t g h =
      let t1 = (peers P loop_of in_loop (P.query_user id) t).1 in
      let (there, same) = found-there id sys t1 g.in_cluster h in
      let row = user_row r d k clock wall_ms b j hash loop_of in_loop id t in
      let f = find_session P loop_of in_loop id t1 in
      if_holds (λ (q : Reply × N). Refused t.buckets q)
        (int_eq row.id id && bytes_eq row.password pwd) _ _ g.is_right
        (checked-Refused f.0 _ conn row id t.buckets f.1 there same)

  -- A user logs in at a node of the cluster, with the right password, while no node has the user,
  -- and then at another node of the cluster, also with the right password, that shares the store
  -- as it was left and has neither the user nor the first node in its caches: the first login is
  -- admitted, the second is told that the account is in use, and no connection of the second node
  -- changes. The first node is registered, Redis answers as documented, and to read the clock
  -- changes nothing in it.
  pub login_once :
      (conn1 conn2 : Conn) (id : ℤ) (pwd1 pwd2 : Bytes) (s t : N)
      → CanLogIn r d k clock wall_ms b j hash loop_of in_loop id pwd1 s
      → Shares r d k clock wall_ms b j hash loop_of in_loop conn1 id pwd1 s t
      → Knocks id pwd2 t
      → (is_admitted (login P loop_of in_loop conn1 id pwd1 s).0 ≡ true)
        × ((login P loop_of in_loop conn2 id pwd2 t).0 ≡ refused in_use)
        × ((login P loop_of in_loop conn2 id pwd2 t).1.buckets ≡ t.buckets)
  login_once conn1 conn2 id pwd1 pwd2 s t h g knocks =
      let (let_in, _) = login-Done r d k clock wall_ms b j hash loop_of in_loop conn1 id pwd1 s h in
      let bound = just_bound r d k clock wall_ms b j hash loop_of in_loop conn1 id pwd1 s t h g in
      let (refusal, same) =
        bound-Refused conn2 id pwd2 (looked r clock wall_ms id s.world.sys) t knocks bound in
      (let_in, refusal, same)
