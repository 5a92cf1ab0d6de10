-- ===== src/Cluster/LoggedIn.antt =====
-- A login at a node of the cluster, of a user that no node has (`login`,
-- src/server/chatservice.cpp, over its registry and Redis).
use cluster_chat_server_with.Prelude.{
  if_holds, ℕ, ◌<◌, ◌≡◌, refl, ap, ◌∙◌, Bool, true, false, ◌&&◌, Option, none, some, Bytes, length,
  arith, if_cases, ℤ, int_eq, bytes_eq, find, int_eq_inst,
}
use cluster_chat_server_with.Json.{Json}
use cluster_chat_server_with.Models
use cluster_chat_server_with.Models.{Database, User, online}
use cluster_chat_server_with.Redis.{RedisServer, session_key, get_user_session}
use cluster_chat_server_with.Redis.Store.{IsStore}
use cluster_chat_server_with.Redis.Sessions.{IsKeyed}
use cluster_chat_server_with.Registry.{
  Sys, ask, bind_user, query_user_node, get_cached_user_node, check_cached, check_fetched,
}
use cluster_chat_server_with.Registry.Plane.{ControlPlane, redis_plane}
use cluster_chat_server_with.Registry.Shared.{ClockKeeps, IsRegistered, bind_user-Bound}
use cluster_chat_server_with.Service.Connections.{Conn, add_local_connection}
use cluster_chat_server_with.Service.Chat.{Peers, peers, count_stale}
use cluster_chat_server_with.Service.Session.{
  Reply, refused, admitted, greet, finish_login, clear_stale, bind_session, admit, find_session,
  check_session_free, login,
}
use cluster_chat_server_with.Cluster.Machine.{cluster_peers, in_registry, in_tables}
use cluster_chat_server_with.Cluster.Start.{ChatNode}

unfoldable pub is_admitted : Reply → Bool
is_admitted (refused e) = false
is_admitted (admitted id name messages friends groups) = true

-- The registry after the lookup that finds no session.
abbrev pub looked :
    (r : RedisServer) (clock : r.State → ℕ × r.State) (wall_ms : r.State → ℤ)
    → ℤ
    → Sys (redis_plane r clock wall_ms)
    → Sys (redis_plane r clock wall_ms)
looked r clock wall_ms id s = record s { world = (get_user_session r id s.world).1 }

pub looked-free :
    (r : RedisServer) (d : IsStore r) (k : IsKeyed r d) (id : ℤ) (w : r.State)
    → d.value_of w (session_key id) ≡ none
    → d.value_of (get_user_session r id w).1 (session_key id) ≡ none
unfolding get_user_session
looked-free r d k id w e = k.got_values (session_key id) (session_key id) w ∙ e

module _ (r : RedisServer) (d : IsStore r) (k : IsKeyed r d) (clock : r.State → ℕ × r.State)
    (wall_ms : r.State → ℤ) (b : Database) (j : Json) (hash : Bytes → ℕ) (loop_of : Conn → ℕ)
    (in_loop : ℕ → Bool) where
  abbrev C : ControlPlane
  C = redis_plane r clock wall_ms

  abbrev N : Type 0
  N = ChatNode C b j hash loop_of in_loop

  abbrev P : Peers
  P = cluster_peers C b j hash

  abbrev pub user_row : ℤ → N → User
  user_row id s = (Models.query_user b id s.world.db).0

  -- The user's row has the id and the password, no node has the user, and this node is registered.
  pub record CanLogIn (id : ℤ) (pwd : Bytes) (s : N) : Type 0 where
    pub has_bucket : 0 < length s.buckets
    pub in_cluster : s.clustered ≡ true
    pub is_right : (int_eq (user_row id s).id id && bytes_eq (user_row id s).password pwd) ≡ true
    pub no_own_route : find id s.world.sys.registry.user_routes ≡ none
    pub nobody_has : d.value_of s.world.sys.world (session_key id) ≡ none
    pub clock_keeps : ClockKeeps r d clock wall_ms
    pub is_registered :
        IsRegistered r d clock wall_ms s.world.sys.registry.self_node s.world.sys.world

  no_session :
      (id : ℤ) (w : r.State)
      → d.value_of w (session_key id) ≡ none
      → (get_user_session r id w).0 ≡ none
  unfolding get_user_session
  no_session id w e = rw (d.got (session_key id) w, e) refl

  query-free :
      (id : ℤ) (s : Sys C)
      → find id s.registry.user_routes ≡ none
      → d.value_of s.world (session_key id) ≡ none
      → query_user_node C id s ≡ (none, looked r clock wall_ms id s)
  unfolding query_user_node get_cached_user_node check_cached check_fetched ask
  query-free id s route free = rw (route, get_cached_user_node, no_session id s.world free) refl

  -- What is left to show of a login: it admits the user, and the registry has bound the user.
  abbrev Done : ℤ → Sys C → Reply × N → Type 0
  Done id sys q = (is_admitted q.0 ≡ true) × (q.1.world.sys ≡ (bind_user C id sys).1)

  greet-sys :
      (user : User) (id : ℤ) (s : N) → (greet P loop_of in_loop user id s).1.world.sys ≡ s.world.sys
  unfolding greet peers in_tables
  greet-sys user id s = ground arith

  finish-Done :
      (bound : Bool) (user : User) (id : ℤ) (sys : Sys C) (s : N)
      → bound ≡ true
      → s.world.sys ≡ (bind_user C id sys).1
      → Done id sys (finish_login P loop_of in_loop bound user id s)
  unfolding finish_login greet is_admitted peers in_tables
  finish-Done false user id sys s e same = absurd (cc)
  finish-Done true user id sys s e same =
      (refl, greet-sys (record user { state = online }) id _ ∙ same)

  -- A state of the node with this registry, in the cluster.
  abbrev With : Sys C → N → Type 0
  With sys s = (s.clustered ≡ true) × (s.world.sys ≡ sys)

  clear_stale-With :
      (sys : Sys C) (user : User) (s : N)
      → With sys s
      → With sys (clear_stale P loop_of in_loop user s).1
  unfolding clear_stale count_stale peers in_tables
  clear_stale-With sys user s h =
      if_cases (λ (q : Unit {0} × N). With sys q.1) (bytes_eq user.state online) _ _ (λ _. h)
        (λ _. h)

  bind-With :
      (id : ℤ) (sys : Sys C) (s : N)
      → (bind_user C id sys).0 ≡ true
      → With sys s
      → let q = bind_session P loop_of in_loop id s in
        (q.0 ≡ true) × (q.1.world.sys ≡ (bind_user C id sys).1)
  unfolding bind_session peers in_registry
  bind-With id sys s ok (clustered, same) =
      if_holds (λ (q : Bool × N). (q.0 ≡ true) × (q.1.world.sys ≡ (bind_user C id sys).1))
        s.clustered _ _ clustered
        ((ap (λ v. (bind_user C id v).0) same ∙ ok, ap (λ v. (bind_user C id v).1) same))

  admit-Done :
      (conn : Conn) (user : User) (id : ℤ) (sys : Sys C) (s : N)
      → (bind_user C id sys).0 ≡ true
      → With sys s
      → Done id sys (admit P loop_of in_loop conn user id s)
  unfolding admit
  admit-Done conn user id sys s ok h =
      let s1 = (clear_stale P loop_of in_loop user s).1 in
      let s2 = record s1 { buckets = add_local_connection id conn s1.buckets } in
      let (bound, same) = bind-With id sys s2 ok (clear_stale-With sys user s h) in
      let q = bind_session P loop_of in_loop id s2 in finish-Done q.0 user id sys q.1 bound same

  find-With :
      (id : ℤ) (s : N)
      → s.clustered ≡ true
      → find id s.world.sys.registry.user_routes ≡ none
      → d.value_of s.world.sys.world (session_key id) ≡ none
      → let q = find_session P loop_of in_loop id s in
        (q.0 ≡ none) × With (looked r clock wall_ms id s.world.sys) q.1
  unfolding find_session peers in_registry
  find-With id s clustered route free =
      let query = query-free id s.world.sys route free in
      if_holds
        (λ (q : Option Bytes × N). (q.0 ≡ none) × With (looked r clock wall_ms id s.world.sys) q.1)
        s.clustered _ _ clustered ((ap (λ q. q.0) query, (clustered, ap (λ q. q.1) query)))

  checked-Done :
      (session : Option Bytes) (conn : Conn) (user : User) (id : ℤ) (sys : Sys C) (s : N)
      → session ≡ none
      → (bind_user C id sys).0 ≡ true
      → With sys s
      → Done id sys (check_session_free P loop_of in_loop session conn user id s)
  unfolding check_session_free
  checked-Done (some n) conn user id sys s e ok h = absurd (cc)
  checked-Done none conn user id sys s e ok h = admit-Done conn user id sys s ok h

  -- The login is admitted, and what it leaves of the registry is a bind after a lookup.
  pub login-Done :
      (conn : Conn) (id : ℤ) (pwd : Bytes) (s : N)
      → CanLogIn id pwd s
      → Done id (looked r clock wall_ms id s.world.sys) (login P loop_of in_loop conn id pwd s)
  unfolding login peers in_tables
  login-Done conn id pwd s h =
      let s1 = (peers P loop_of in_loop (P.query_user id) s).1 in
      let (no_one, with_it) = find-With id s1 h.in_cluster h.no_own_route h.nobody_has in
      let sys = looked r clock wall_ms id s.world.sys in
      let (ok, _, _) =
        bind_user-Bound r d clock wall_ms id sys h.clock_keeps
          (looked-free r d k id s.world.sys.world h.nobody_has) in
      let f = find_session P loop_of in_loop id s1 in
      if_holds (λ (q : Reply × N). Done id sys q)
        (int_eq (user_row id s).id id && bytes_eq (user_row id s).password pwd) _ _ h.is_right
        (checked-Done f.0 conn (user_row id s) id sys f.1 no_one ok with_it)
