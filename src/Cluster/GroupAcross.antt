-- ===== src/Cluster/GroupAcross.antt =====
-- A group message whose members are all at one other node.
use cluster_chat_server_with.Prelude.{
  ℕ, ◌+◌, ◌≡◌, refl, ap, ◌∙◌, Bool, true, false, List, [], ◌∷◌, Option, none, some, Bytes, All,
  if_cases, ℤ, bytes_eq,
}
use cluster_chat_server_with.Types.{NodeMeta}
use cluster_chat_server_with.Json.{Json}
use cluster_chat_server_with.Models.{Database}
use cluster_chat_server_with.Registry
use cluster_chat_server_with.Registry.{Sys, ask}
use cluster_chat_server_with.Registry.Plane.{ControlPlane}
use cluster_chat_server_with.Router.Table.{GroupMessage}
use cluster_chat_server_with.Router.Ready.{IsReady, send_group_chat-IsReady}
use cluster_chat_server_with.Service.Connections.{Conn, get_local_connection}
use cluster_chat_server_with.Service.Chat.{Peers, peers, resolve, count_remote}
use cluster_chat_server_with.Service.Group.{
  Groups, resolve_each, send_local, send_entry, query_entry, close_entry, send_each, store_each,
  send_group,
}
use cluster_chat_server_with.Service.Elsewhere.{
  AllAt, all_resolved, split_local-absent, resolve_each-one,
}
use cluster_chat_server_with.Service.Requests.{group_fields}
use cluster_chat_server_with.Service.Link.{to_users, outgoing_bytes}
use cluster_chat_server_with.Cluster.Machine.{Machine, cluster_peers, in_registry, send_many, trace}
use cluster_chat_server_with.Cluster.Start.{ChatNode}
use cluster_chat_server_with.Cluster.Across.{sent_machine, prewarm-idle}

module _ (c : ControlPlane) (d : Database) (j : Json) (hash : Bytes → ℕ) (loop_of : Conn → ℕ)
    (in_loop : ℕ → Bool) where
  abbrev N : Type 0
  N = ChatNode c d j hash loop_of in_loop

  abbrev P : Peers
  P = cluster_peers c d j hash

  -- All members, `u` first, are found at node `n`, which the router can send to.
  pub record MembersElsewhere (u : ℤ) (us : List ℤ) (n : Bytes) (meta : NodeMeta) (p conn : ℕ)
      (s : N) : Type 0 where
    pub in_cluster : s.clustered ≡ true
    pub not_here : All (λ v. get_local_connection v s.buckets ≡ none) (u ∷ us)
    pub is_other : bytes_eq s.self_node.node_id n ≡ false
    pub found_as : NodeMeta
    pub all_found : AllAt P loop_of in_loop n found_as (u ∷ us) s
    pub queried :
        (Registry.query_node c n (all_resolved P loop_of in_loop (u ∷ us) s).world.sys).0
        ≡ some meta
    pub is_ready : IsReady s.world.router s.world.up meta u p conn

  abbrev with_sys : N → Sys c → N
  with_sys s sys = record s { world = record s.world { sys = sys } }

  resolve-rest :
      (u : ℤ) (s : N)
      → (resolve P loop_of in_loop u s).1 ≡ with_sys s (resolve P loop_of in_loop u s).1.world.sys
  unfolding resolve peers in_registry
  resolve-rest u s =
      if_cases (λ (q : Option (Bytes × NodeMeta) × N). q.1 ≡ with_sys s q.1.world.sys) s.clustered _
        _ (λ _. refl) (λ _. refl)

  all_resolved-rest :
      (us : List ℤ) (s : N)
      → all_resolved P loop_of in_loop us s
        ≡ with_sys s (all_resolved P loop_of in_loop us s).world.sys
  all_resolved-rest [] s = refl
  all_resolved-rest (u ∷ us) s =
      let t = (resolve P loop_of in_loop u s).1 in
      all_resolved-rest us t
      ∙ ap (λ v. with_sys v (all_resolved P loop_of in_loop us t).world.sys) (resolve-rest u s)

  abbrev pub group_bytes : GroupMessage → Bytes
  group_bytes g = outgoing_bytes j (to_users g)

  abbrev pub group_message : N → NodeMeta → List ℤ → Bytes → Bytes → GroupMessage
  group_message s meta members msg trace_id = record {
    from_node = s.self_node.node_id;
    to_node = meta.node_id;
    to_users = members;
    payload = msg;
    trace_id = trace_id;
  }

  send_many-IsReady :
      (m : Machine c d j hash) (meta : NodeMeta) (u : ℤ) (us : List ℤ) (s : N)
      (msg trace_id : Bytes) (p conn : ℕ)
      → IsReady m.router m.up meta u p conn
      → send_many c d j hash meta s.self_node.node_id (u ∷ us) msg trace_id m ≡ (
        true,
        sent_machine c d j hash loop_of in_loop m p conn
            (group_bytes (group_message s meta (u ∷ us) msg trace_id)),
      )
  unfolding send_many outgoing_bytes
  send_many-IsReady m meta u us s msg trace_id p conn h =
      rw
        (send_group_chat-IsReady (λ g. j.dump (j.make (group_fields g))) m.router hash m.up meta
          s.self_node.node_id u us msg trace_id p conn h)
        refl

  send_entry-IsReady :
      (meta : NodeMeta) (from_id u : ℤ) (us : List ℤ) (msg : Bytes) (p conn : ℕ) (s : N)
      → IsReady s.world.router s.world.up meta u p conn
      → let (trace_id, m) = trace c d j hash from_id s.world in
        send_entry P loop_of in_loop (some meta) from_id (u ∷ us) msg s ≡ (
          true,
          record s {
            world =
                sent_machine c d j hash loop_of in_loop m p conn
                  (group_bytes (group_message s meta (u ∷ us) msg trace_id));
          },
        )
  unfolding send_entry peers trace in_registry ask
  send_entry-IsReady meta from_id u us msg p conn s h =
      let (trace_id, m) = trace c d j hash from_id s.world in
      rw
        (
          prewarm-idle c d j hash loop_of in_loop s.world meta u p conn h,
          send_many-IsReady m meta u us s msg trace_id p conn h,
        )
        refl

  query_entry-clustered :
      (n : Bytes) (s : N)
      → s.clustered ≡ true
      → query_entry P loop_of in_loop n s ≡ (
        (Registry.query_node c n s.world.sys).0,
        with_sys s (Registry.query_node c n s.world.sys).1,
      )
  unfolding query_entry peers in_registry
  query_entry-clustered n s h =
      if_cases (λ q. q ≡ peers P loop_of in_loop (P.query_node n) s) s.clustered _ _ (λ _. refl)
        (λ e. absurd (cc))

  -- The machine that takes the trace id, after all the lookups.
  abbrev pub asked_machine : ℤ → List ℤ → Bytes → N → Machine c d j hash
  asked_machine from_id members n s =
      let sys = (all_resolved P loop_of in_loop members s).world.sys in
      record s.world { sys = (Registry.query_node c n sys).1 }

  abbrev sent_group : ℤ → ℤ → List ℤ → Bytes → NodeMeta → Bytes → ℕ → ℕ → N → N
  sent_group from_id u us n meta msg p conn s =
      let (trace_id, m) = trace c d j hash from_id (asked_machine from_id (u ∷ us) n s) in
      record s {
        world =
            sent_machine c d j hash loop_of in_loop m p conn
              (group_bytes (group_message s meta (u ∷ us) msg trace_id));
        remote_route_count = s.remote_route_count + 1;
      }

  -- `groupChat` behind its first two loops.
  abbrev routed : Groups → ℤ → Bytes → List ℤ → N → N
  routed g from_id msg offline s =
      let (left, t) = send_each P loop_of in_loop g from_id msg offline s in
      (store_each P loop_of in_loop left msg t).1

  -- The end of the entry's round, and what follows the loop.
  abbrev closed : ℤ → List ℤ → Bytes → Bool × N → N
  closed u us msg (sent, t) =
      let (left, t') = close_entry P loop_of in_loop sent (u ∷ us) [] t in
      (store_each P loop_of in_loop left msg t').1

  routed-one :
      (from_id u : ℤ) (us : List ℤ) (n : Bytes) (meta : NodeMeta) (msg : Bytes) (p conn : ℕ) (s : N)
      → MembersElsewhere u us n meta p conn s
      → routed
          ((n, u ∷ us) ∷ [])
          from_id
          msg
          []
          (with_sys s (all_resolved P loop_of in_loop (u ∷ us) s).world.sys)
        ≡ sent_group from_id u us n meta msg p conn s
  unfolding send_each close_entry count_remote store_each trace in_registry ask
  routed-one from_id u us n meta msg p conn s h =
      let sys = (all_resolved P loop_of in_loop (u ∷ us) s).world.sys in
      let s1 = with_sys s sys in
      let s2 = with_sys s (Registry.query_node c n sys).1 in
      ap (λ q. closed u us msg (send_entry P loop_of in_loop q.0 from_id (u ∷ us) msg q.1))
        (query_entry-clustered n s1 h.in_cluster)
      ∙ ap (λ o. closed u us msg (send_entry P loop_of in_loop o from_id (u ∷ us) msg s2)) h.queried
      ∙ ap (closed u us msg) (send_entry-IsReady meta from_id u us msg p conn s2 h.is_ready)

  pub send_group-elsewhere :
      (from_id u : ℤ) (us : List ℤ) (n : Bytes) (meta : NodeMeta) (msg : Bytes) (p conn : ℕ) (s : N)
      → MembersElsewhere u us n meta p conn s
      → (send_group P loop_of in_loop from_id (u ∷ us) msg s).1
        ≡ sent_group from_id u us n meta msg p conn s
  unfolding send_group send_local
  send_group-elsewhere from_id u us n meta msg p conn s h =
      let members : List ℤ = u ∷ us in
      let resolved = all_resolved P loop_of in_loop members s in
      ap
        (λ (l : List Conn × List ℤ).
          (let r = resolve_each P loop_of in_loop l.1 [] [] s in
            routed r.0.0 from_id msg r.0.1 (send_local P loop_of in_loop l.0 msg r.1).1))
        (split_local-absent members s.buckets h.not_here)
      ∙ ap (λ (r : (Groups × List ℤ) × N). routed r.0.0 from_id msg r.0.1 r.1)
          (resolve_each-one P loop_of in_loop u us n h.found_as s h.is_other h.all_found)
      ∙ ap (routed ((n, members) ∷ []) from_id msg []) (all_resolved-rest members s)
      ∙ routed-one from_id u us n meta msg p conn s h
