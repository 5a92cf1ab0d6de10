-- ===== src/Cluster/GroupReached.antt =====
-- A group message from a client of one node to members who are all at another.
use cluster_chat_server_with.Prelude.{
  ℕ, ◌+◌, ◌≡◌, sym, ap, subst, ◌∙◌, Bool, List, [], ◌∷◌, ◌++◌, some, Bytes, concat, length,
  append-nil, ℤ,
}
use cluster_chat_server_with.Types.{NodeMeta}
use cluster_chat_server_with.Json.{Json, IsFaithful}
use cluster_chat_server_with.Models.{Database}
use cluster_chat_server_with.Registry.{ask}
use cluster_chat_server_with.Registry.Plane.{ControlPlane}
use cluster_chat_server_with.Router.Channel.{send}
use cluster_chat_server_with.Router.Table.{GroupMessage}
use cluster_chat_server_with.Wire.Receive.{Outcome, feed}
use cluster_chat_server_with.Service.Connections.{Conn}
use cluster_chat_server_with.Service.Chat.{Peers, Node, handle_cluster_group_chat}
use cluster_chat_server_with.Service.Group.{send_group}
use cluster_chat_server_with.Service.Settle.{EachEnds, handle_cluster_group_chat-each}
use cluster_chat_server_with.Service.Requests.{group_fields, serve_deliveries}
use cluster_chat_server_with.Service.Link.{
  to_users, outgoing_bytes, direct_calls, direct_call, link_refines,
}
use cluster_chat_server_with.Cluster.Machine.{cluster_peers, in_registry, trace}
use cluster_chat_server_with.Cluster.Start.{ChatNode}
use cluster_chat_server_with.Cluster.GroupAcross.{
  MembersElsewhere, group_message, asked_machine, send_group-elsewhere,
}

module _ (c : ControlPlane) (d : Database) (j : Json) (hash : Bytes → ℕ) (loop_of : Conn → ℕ)
    (in_loop : ℕ → Bool) where
  abbrev N : Type 0
  N = ChatNode c d j hash loop_of in_loop

  -- The message that `sendGroupChat` makes, with the trace id of the node's clock.
  abbrev pub message_for : ℤ → List ℤ → Bytes → NodeMeta → Bytes → N → GroupMessage
  message_for from_id members n meta msg s =
      group_message c d j hash loop_of in_loop s meta members msg
        (trace c d j hash from_id (asked_machine c d j hash loop_of in_loop from_id members n s)).0

  -- The receiving node is any node.
  module _ (q : Peers) (loop_of' : Conn → ℕ) (in_loop' : ℕ → Bool) where
    -- What the receiving node does with the bytes of a message for these members.
    abbrev pub Takes : List ℤ → Bytes → List Bytes → Node q loop_of' in_loop' → Type 0
    Takes members msg chunks t =
        (o : Outcome) × (feed [] chunks ≡ some o)
        × (o.pending ≡ [])
        × (let t' = serve_deliveries j q loop_of' in_loop' o.calls t in
            (t' ≡ (handle_cluster_group_chat q loop_of' in_loop' members msg t).1)
            × EachEnds q loop_of' in_loop' members msg t t'
            × (t'.remote_route_count ≡ t.remote_route_count)
            × (t'.local_delivery_count + length t'.stored
                ≡ t.local_delivery_count + length t.stored + length members))

    -- The members of a group who are not the sender, one or more, are all found at another node,
    -- to which the router holds a channel, for the shard of the first, that is up and idle. Then a
    -- group message goes out as one message on that channel, with all the members and the text; it
    -- stores nothing, and counts one message sent. When its bytes reach the other node, in any
    -- chunks, that node runs its handler of group messages once, with the same members and text:
    -- there, for each member, in order, the message is queued for the connection that the node has
    -- for that member, or could not be and is stored for that member, and nothing is sent on. The
    -- JSON library is right about the message.
    pub group_across :
        (from_id u : ℤ) (us : List ℤ) (n : Bytes) (meta : NodeMeta) (msg : Bytes) (p conn : ℕ)
        (chunks : List Bytes) (s : N) (t : Node q loop_of' in_loop')
        → let g = message_for from_id (u ∷ us) n meta msg s in
          MembersElsewhere c d j hash loop_of in_loop u us n meta p conn s
          → IsFaithful j (group_fields g)
          → concat chunks ≡ outgoing_bytes j (to_users g)
          → let s' =
              (send_group (cluster_peers c d j hash) loop_of in_loop from_id (u ∷ us) msg s).1 in
            (s'.world.effects
              ≡ s.world.effects ++ (p, send conn (outgoing_bytes j (to_users g))) ∷ [])
            × (s'.stored ≡ s.stored)
            × (s'.remote_route_count ≡ s.remote_route_count + 1)
            × Takes (u ∷ us) msg chunks t
    unfolding direct_calls direct_call trace in_registry ask
    group_across from_id u us n meta msg p conn chunks s t h faithful e =
        let g = message_for from_id (u ∷ us) n meta msg s in
        let done =
          send_group-elsewhere c d j hash loop_of in_loop from_id u us n meta msg p conn s h in
        let (o, fed, empty, served) =
          link_refines j q loop_of' in_loop' (to_users g ∷ []) chunks t (faithful, tt)
            (e ∙ sym (append-nil (outgoing_bytes j (to_users g)))) in
        let (each, none_on, total) =
          handle_cluster_group_chat-each q loop_of' in_loop' (u ∷ us) msg t in
        (
          ap (λ v. v.world.effects) done,
          ap (λ v. v.stored) done,
          ap (λ v. v.remote_route_count) done,
          (
            o,
            fed,
            empty,
            (
              served,
              subst (λ v. EachEnds q loop_of' in_loop' (u ∷ us) msg t v) (sym served) each,
              ap (λ v. v.remote_route_count) served ∙ none_on,
              ap (λ v. v.local_delivery_count + length v.stored) served ∙ total,
            ),
          ),
        )
