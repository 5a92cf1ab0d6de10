-- ===== src/Cluster/Across.antt =====
-- A chat message from a client of one node to a client of another.
use cluster_chat_server_with.Prelude.{
  ℕ, ◌+◌, ◌<◌, ◌≡◌, refl, sym, ap, ◌∙◌, Bool, true, false, List, [], ◌∷◌, ◌++◌, none, some, Bytes,
  concat, length, append-nil, if_cases, ℤ, bytes_eq,
}
use cluster_chat_server_with.Types.{NodeMeta}
use cluster_chat_server_with.Json.{Json}
use cluster_chat_server_with.Models.{Database}
use cluster_chat_server_with.Registry
use cluster_chat_server_with.Registry.Plane.{ControlPlane}
use cluster_chat_server_with.Registry.{ask}
use cluster_chat_server_with.Router.Channel.{send}
use cluster_chat_server_with.Router.Ready.{
  IsReady, same_channels, prewarm_node-IsReady, send_one_chat-IsReady,
}
use cluster_chat_server_with.Wire.Frame.{one_chat_frame, IsInt, u32_mod}
use cluster_chat_server_with.Wire.Receive.{Outcome, feed}
use cluster_chat_server_with.Service.Connections.{Conn, get_local_connection}
use cluster_chat_server_with.Service.Chat.{
  Peers, Node, peers, is_self, resolve, deliver_to_local_user, deliver_on, after_local, route_one,
  send_remote, finish_remote, count_remote, count_local, one_chat, after_frame,
  enqueue_local_delivery, handle_cluster_one_chat_frame,
}
use cluster_chat_server_with.Service.Requests.{serve_deliveries}
use cluster_chat_server_with.Service.Link.{
  to_user, outgoing_bytes, direct_calls, direct_call, link_refines,
}
use cluster_chat_server_with.Cluster.Machine.{
  Machine, cluster_peers, in_registry, prewarm, send_one, trace,
}
use cluster_chat_server_with.Cluster.Start.{ChatNode}

module _ (c : ControlPlane) (d : Database) (j : Json) (hash : Bytes → ℕ) (loop_of : Conn → ℕ)
    (in_loop : ℕ → Bool) where
  abbrev N : Type 0
  N = ChatNode c d j hash loop_of in_loop

  abbrev P : Peers
  P = cluster_peers c d j hash

  abbrev with_world : N → Machine c d j hash → N
  with_world s m = record s { world = m }

  -- The user is found at another node, which the router can send to on the connection `conn`.
  pub record LivesElsewhere (to_id : ℤ) (meta : NodeMeta) (p conn : ℕ) (s : N) : Type 0 where
    pub in_cluster : s.clustered ≡ true
    pub not_here : get_local_connection to_id s.buckets ≡ none
    pub node_found : Bytes
    pub resolved : (Registry.resolve_user_node c to_id s.world.sys).0 ≡ some (node_found, meta)
    pub is_other : bytes_eq s.self_node.node_id node_found ≡ false
    pub is_ready : IsReady s.world.router s.world.up meta to_id p conn

  -- The machine after the lookup, and after the trace id.
  abbrev looked_up : ℤ → N → Machine c d j hash
  looked_up to_id s = (in_registry c d j hash (Registry.resolve_user_node c to_id) s.world).1

  abbrev pub traced : ℤ → ℤ → N → Machine c d j hash
  traced from_id to_id s = (trace c d j hash from_id (looked_up to_id s)).1

  abbrev pub sent_machine : Machine c d j hash → ℕ → ℕ → Bytes → Machine c d j hash
  sent_machine m p conn frame = record m {
    router = same_channels m.router p;
    effects = m.effects ++ (p, send conn frame) ∷ [];
  }

  pub prewarm-idle :
      (m : Machine c d j hash) (meta : NodeMeta) (user : ℤ) (p conn : ℕ)
      → IsReady m.router m.up meta user p conn
      → (prewarm c d j hash meta m).1 ≡ m
  unfolding prewarm
  prewarm-idle m meta user p conn h =
      rw (prewarm_node-IsReady m.router hash m.up meta user p conn h, append-nil m.effects) refl

  send_one-IsReady :
      (m : Machine c d j hash) (meta : NodeMeta) (user : ℤ) (payload : Bytes) (p conn : ℕ)
      → IsReady m.router m.up meta user p conn
      → send_one c d j hash meta user payload m
        ≡ (true, sent_machine m p conn (one_chat_frame user payload))
  unfolding send_one
  send_one-IsReady m meta user payload p conn h =
      rw (send_one_chat-IsReady m.router hash m.up meta user payload p conn h) refl

  send_remote-IsReady :
      (meta : NodeMeta) (from_id to_id : ℤ) (msg : Bytes) (p conn : ℕ) (s : N)
      → IsReady s.world.router s.world.up meta to_id p conn
      → (send_remote P loop_of in_loop meta from_id to_id msg s).1 ≡ record s {
        world = sent_machine (trace c d j hash from_id s.world).1 p conn (one_chat_frame to_id msg);
        remote_route_count = s.remote_route_count + 1;
      }
  unfolding send_remote peers finish_remote count_remote trace in_registry ask
  send_remote-IsReady meta from_id to_id msg p conn s h =
      rw
        (
          prewarm-idle s.world meta to_id p conn h,
          send_one-IsReady (trace c d j hash from_id s.world).1 meta to_id msg p conn h,
        )
        refl

  resolve-clustered :
      (to_id : ℤ) (s : N)
      → s.clustered ≡ true
      → resolve P loop_of in_loop to_id s
        ≡ ((Registry.resolve_user_node c to_id s.world.sys).0, with_world s (looked_up to_id s))
  unfolding resolve peers in_registry
  resolve-clustered to_id s h =
      if_cases (λ r. r ≡ peers P loop_of in_loop (P.resolve_user_node to_id) s) s.clustered _ _
        (λ _. refl) (λ e. absurd (cc))

  route_one-other :
      (n : Bytes) (meta : NodeMeta) (from_id to_id : ℤ) (msg : Bytes) (s : N)
      → bytes_eq s.self_node.node_id n ≡ false
      → route_one P loop_of in_loop (some (n, meta)) from_id to_id msg s
        ≡ send_remote P loop_of in_loop meta from_id to_id msg s
  unfolding route_one is_self
  route_one-other n meta from_id to_id msg s h = rw h refl

  one_chat-absent :
      (from_id to_id : ℤ) (msg : Bytes) (s : N)
      → get_local_connection to_id s.buckets ≡ none
      → one_chat P loop_of in_loop from_id to_id msg s ≡ (
          let r = resolve P loop_of in_loop to_id s in
          route_one P loop_of in_loop r.0 from_id to_id msg r.1)
  unfolding one_chat deliver_to_local_user deliver_on after_local
  one_chat-absent from_id to_id msg s h = rw h refl

  pub one_chat-elsewhere :
      (from_id to_id : ℤ) (msg : Bytes) (meta : NodeMeta) (p conn : ℕ) (s : N)
      → LivesElsewhere to_id meta p conn s
      → (one_chat P loop_of in_loop from_id to_id msg s).1 ≡ record s {
        world = sent_machine (traced from_id to_id s) p conn (one_chat_frame to_id msg);
        remote_route_count = s.remote_route_count + 1;
      }
  unfolding in_registry
  one_chat-elsewhere from_id to_id msg meta p conn s h =
      let t = with_world s (looked_up to_id s) in
      ap (λ r. r.1) (one_chat-absent from_id to_id msg s h.not_here)
      ∙ ap (λ r. (route_one P loop_of in_loop r.0 from_id to_id msg r.1).1)
          (resolve-clustered to_id s h.in_cluster)
      ∙ ap (λ o. (route_one P loop_of in_loop o from_id to_id msg t).1) h.resolved
      ∙ ap (λ r. r.1) (route_one-other h.node_found meta from_id to_id msg t h.is_other)
      ∙ send_remote-IsReady meta from_id to_id msg p conn t h.is_ready

  -- The receiving node is any node.
  module _ (q : Peers) (loop_of' : Conn → ℕ) (in_loop' : ℕ → Bool) where
    -- The user is connected here, and the queue of that connection's loop takes the message.
    pub record IsReachable (to_id : ℤ) (msg : Bytes) (k : Conn) (t : Node q loop_of' in_loop')
        : Type 0 where
      pub is_here : get_local_connection to_id t.buckets ≡ some k
      pub has_room : (enqueue_local_delivery q loop_of' in_loop' k msg t).0 ≡ true

    abbrev pub handed : Conn → Bytes → Node q loop_of' in_loop' → Node q loop_of' in_loop'
    handed k msg t =
        (count_local q loop_of' in_loop' (enqueue_local_delivery q loop_of' in_loop' k msg t).1).1

    frame-handed :
        (to_id : ℤ) (msg : Bytes) (k : Conn) (t : Node q loop_of' in_loop')
        → IsReachable to_id msg k t
        → (handle_cluster_one_chat_frame q loop_of' in_loop' to_id msg t).1 ≡ handed k msg t
    unfolding handle_cluster_one_chat_frame deliver_to_local_user deliver_on after_frame
    frame-handed to_id msg k t h = rw (h.is_here, h.has_room) refl

    -- The user that a chat message is for is found at another node, to which the router holds a
    -- channel that is up and idle; the user is connected there, and the queue there has room. Then
    -- `oneChat` sends one frame on that channel, stores nothing, and counts one message sent; and
    -- when the frame's bytes reach the other node, in any chunks, that node hands the message to
    -- the loop of the user's connection, once, with the same text, and counts one delivery. The
    -- user's id is an int and the message fits a frame.
    pub across_nodes :
        (from_id to_id : ℤ) (msg : Bytes) (meta : NodeMeta) (p conn : ℕ) (k : Conn)
        (chunks : List Bytes) (s : N) (t : Node q loop_of' in_loop')
        → IsInt to_id
        → 4 + length msg < u32_mod
        → LivesElsewhere to_id meta p conn s
        → IsReachable to_id msg k t
        → concat chunks ≡ one_chat_frame to_id msg
        → let s' = (one_chat P loop_of in_loop from_id to_id msg s).1 in
          (s'.world.effects ≡ s.world.effects ++ (p, send conn (one_chat_frame to_id msg)) ∷ [])
          × (s'.stored ≡ s.stored)
          × (s'.remote_route_count ≡ s.remote_route_count + 1)
          × ((o : Outcome) × (feed [] chunks ≡ some o)
              × (o.pending ≡ [])
              × (serve_deliveries j q loop_of' in_loop' o.calls t ≡ handed k msg t))
    unfolding direct_calls direct_call outgoing_bytes in_registry trace ask
    across_nodes from_id to_id msg meta p conn k chunks s t int fits h g e =
        let done = one_chat-elsewhere from_id to_id msg meta p conn s h in
        let (o, fed, empty, served) =
          link_refines j q loop_of' in_loop' (to_user to_id msg ∷ []) chunks t ((int, fits), tt)
            (e ∙ sym (append-nil (one_chat_frame to_id msg))) in
        (
          ap (λ n. n.world.effects) done,
          ap (λ n. n.stored) done,
          ap (λ n. n.remote_route_count) done,
          (o, fed, empty, served ∙ frame-handed to_id msg k t g),
        )
