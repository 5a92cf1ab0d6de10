-- ===== src/Service/Settle.antt =====
-- Where a message ends: every handler brings it to exactly one place.
use cluster_chat_server_with.Prelude.{
  ℕ, ◌+◌, ◌≡◌, refl, sym, ◌∙◌, ap, ◌⊎◌, inl, inr, Bool, true, false, List, [], ◌∷◌, ◌++◌, Option,
  none, some, arith, Bytes, length, length-append, if_cases, ℤ,
}
use cluster_chat_server_with.Types.{NodeMeta}
use cluster_chat_server_with.Service.Connections.{Conn, get_local_connection}
use cluster_chat_server_with.Service.Chat.{
  Peers, Node, peers, count_local, count_remote, count_remote_fail, count_stale, put_dispatcher,
  schedule, enqueue_local_delivery, deliver_on, deliver_to_local_user, store_offline, finish_remote,
  send_remote, forget_stale, is_self, route_one, resolve, after_local, one_chat, note_absent,
  check_absent, after_frame, handle_cluster_one_chat_frame, handle_cluster_group_chat,
}

module _ (p : Peers) (loop_of : Conn → ℕ) (in_loop : ℕ → Bool) where
  abbrev N : Type 0
  N = Node p loop_of in_loop

  -- The messages delivered here and sent to other nodes, and those stored, are the same.
  abbrev Keeps : N → N → Type 0
  Keeps s t =
      (t.local_delivery_count ≡ s.local_delivery_count)
      × (t.remote_route_count ≡ s.remote_route_count)
      × (t.stored ≡ s.stored)

  -- The message went to exactly one place: a client of this node, another node, or the table of
  -- offline messages.
  abbrev pub Settles : ℤ → Bytes → N → N → Type 0
  Settles u m s t =
      ((t.local_delivery_count ≡ s.local_delivery_count + 1)
        × (t.remote_route_count ≡ s.remote_route_count)
        × (t.stored ≡ s.stored))
      ⊎ (((t.local_delivery_count ≡ s.local_delivery_count)
            × (t.remote_route_count ≡ s.remote_route_count + 1)
            × (t.stored ≡ s.stored))
          ⊎ ((t.local_delivery_count ≡ s.local_delivery_count)
              × (t.remote_route_count ≡ s.remote_route_count)
              × (t.stored ≡ s.stored ++ (u, m) ∷ [])))

  Keeps-Settles : (u : ℤ) (m : Bytes) (s t r : N) → Keeps s t → Settles u m t r → Settles u m s r
  Keeps-Settles u m s t r (a, b, c) (inl h) = inl (rw (← a, ← b, ← c) h)
  Keeps-Settles u m s t r (a, b, c) (inr (inl h)) = inr (inl (rw (← a, ← b, ← c) h))
  Keeps-Settles u m s t r (a, b, c) (inr (inr h)) = inr (inr (rw (← a, ← b, ← c) h))

  enqueue-Keeps :
      (conn : Conn) (msg : Bytes) (s : N)
      → Keeps s (enqueue_local_delivery p loop_of in_loop conn msg s).1
  unfolding enqueue_local_delivery schedule put_dispatcher
  enqueue-Keeps conn msg s = ground arith

  deliver_on-Keeps :
      (conn : Option Conn) (msg : Bytes) (s : N)
      → Keeps s (deliver_on p loop_of in_loop conn msg s).1
  unfolding deliver_on
  deliver_on-Keeps none msg s = (refl, refl, refl)
  deliver_on-Keeps (some conn) msg s = enqueue-Keeps conn msg s

  deliver-Keeps :
      (u : ℤ) (msg : Bytes) (s : N) → Keeps s (deliver_to_local_user p loop_of in_loop u msg s).1
  unfolding deliver_to_local_user
  deliver-Keeps u msg s = deliver_on-Keeps (get_local_connection u s.buckets) msg s

  stored_at_last :
      (u : ℤ) (m : Bytes) (s : N) → Settles u m s (store_offline p loop_of in_loop u m s).1
  unfolding store_offline peers
  stored_at_last u m s = inr (inr (refl, refl, refl))

  finish_remote-Settles :
      (sent : Bool) (u : ℤ) (m : Bytes) (s : N)
      → Settles u m s (finish_remote p loop_of in_loop sent u m s).1
  unfolding finish_remote count_remote count_remote_fail store_offline peers
  finish_remote-Settles true u m s = inr (inl (refl, refl, refl))
  finish_remote-Settles false u m s = inr (inr (refl, refl, refl))

  route_one-Settles :
      (found : Option (Bytes × NodeMeta)) (from u : ℤ) (m : Bytes) (s : N)
      → Settles u m s (route_one p loop_of in_loop found from u m s).1
  unfolding route_one forget_stale send_remote count_stale peers store_offline
  route_one-Settles none from u m s = stored_at_last u m s
  route_one-Settles (some (n, meta)) from u m s =
      if_cases (λ (r : Unit {0} × N). Settles u m s r.1) (is_self p loop_of in_loop n s) _ _
        (λ _. inr (inr (refl, refl, refl)))
        λ _.
          let s1 = (peers p loop_of in_loop (p.prewarm_node meta) s).1 in
          let (trace, s2) = peers p loop_of in_loop (p.build_trace_id from) s1 in
          let (sent, s3) =
            peers p loop_of in_loop (p.send_one_chat meta s2.self_node.node_id u m trace) s2 in
          finish_remote-Settles sent u m s3

  resolve-Keeps : (u : ℤ) (s : N) → Keeps s (resolve p loop_of in_loop u s).1
  unfolding resolve peers
  resolve-Keeps u s = ground arith

  after_local-Settles :
      (delivered : Bool) (from u : ℤ) (m : Bytes) (s : N)
      → Settles u m s (after_local p loop_of in_loop delivered from u m s).1
  unfolding after_local count_local
  after_local-Settles true from u m s = inl (refl, refl, refl)
  after_local-Settles false from u m s =
      let r = resolve p loop_of in_loop u s in
      Keeps-Settles u m s r.1 (route_one p loop_of in_loop r.0 from u m r.1).1 (resolve-Keeps u s)
        (route_one-Settles r.0 from u m r.1)

  -- Whatever the registry, the router and the tables answer, `oneChat` brings a message to exactly
  -- one place: it counts one delivery to a client of this node, or one message sent to another
  -- node, or hands the message, for the user it is for, to the table of offline messages.
  pub one_chat-Settles :
      (from u : ℤ) (m : Bytes) (s : N) → Settles u m s (one_chat p loop_of in_loop from u m s).1
  unfolding one_chat
  one_chat-Settles from u m s =
      let r = deliver_to_local_user p loop_of in_loop u m s in
      Keeps-Settles u m s r.1 (after_local p loop_of in_loop r.0 from u m r.1).1
        (deliver-Keeps u m s) (after_local-Settles r.0 from u m r.1)

  check_absent-Keeps : (u : ℤ) (s : N) → Keeps s (check_absent p loop_of in_loop u s).1
  unfolding check_absent note_absent peers count_stale
  check_absent-Keeps u s =
      if_cases (λ (r : Unit {0} × N). Keeps s r.1) s.clustered _ _ (λ _. noted _ _)
        (λ _. (refl, refl, refl))
    where
      noted : (found : Option Bytes) (t : N) → Keeps t (note_absent p loop_of in_loop found u t).1
      noted none t = (refl, refl, refl)
      noted (some n) t = ground arith

  -- The message is queued for the connection that the node has for the user, and counted.
  abbrev pub HandsOver : ℤ → Bytes → N → N → Type 0
  HandsOver u m s t =
      (conn : Conn) × (get_local_connection u s.buckets ≡ some conn)
      × ((enqueue_local_delivery p loop_of in_loop conn m s).0 ≡ true)
      × (t
          ≡ (count_local p loop_of in_loop (enqueue_local_delivery p loop_of in_loop conn m s).1).1)

  -- The user has no connection here whose queue has room, and the message is stored for the user.
  abbrev pub Stores : ℤ → Bytes → N → N → Type 0
  Stores u m s t =
      ((deliver_to_local_user p loop_of in_loop u m s).0 ≡ false)
      × (t.local_delivery_count ≡ s.local_delivery_count)
      × (t.stored ≡ s.stored ++ (u, m) ∷ [])

  -- A message that came from another node for the user `u` goes to a connection of that user, or
  -- is stored for that user, and goes to no third node.
  abbrev pub Ends : ℤ → Bytes → N → N → Type 0
  Ends u m s t =
      (t.remote_route_count ≡ s.remote_route_count) × (HandsOver u m s t ⊎ Stores u m s t)

  deliver_on-HandsOver :
      (conn : Option Conn) (u : ℤ) (m : Bytes) (s : N)
      → get_local_connection u s.buckets ≡ conn
      → (deliver_on p loop_of in_loop conn m s).0 ≡ true
      → HandsOver u m s (count_local p loop_of in_loop (deliver_on p loop_of in_loop conn m s).1).1
  unfolding deliver_on
  deliver_on-HandsOver none u m s e ok = absurd (cc)
  deliver_on-HandsOver (some conn) u m s e ok = (conn, e, ok, refl)

  stores_at_last :
      (u : ℤ) (m : Bytes) (s t : N)
      → (deliver_to_local_user p loop_of in_loop u m s).0 ≡ false
      → Keeps s t
      → Ends u m s (store_offline p loop_of in_loop u m (check_absent p loop_of in_loop u t).1).1
  unfolding store_offline peers
  stores_at_last u m s t failed (a, b, c) =
      let (a1, b1, c1) = check_absent-Keeps u t in (b1 ∙ b, inr (failed, a1 ∙ a, rw (c1, c) refl))

  frame-Ends :
      (u : ℤ) (m : Bytes) (s : N)
      → Ends u m s (handle_cluster_one_chat_frame p loop_of in_loop u m s).1
  unfolding handle_cluster_one_chat_frame after_frame deliver_to_local_user count_local
  frame-Ends u m s = ended (deliver_to_local_user p loop_of in_loop u m s).0 refl
    where
      ended :
          (delivered : Bool)
          → (deliver_to_local_user p loop_of in_loop u m s).0 ≡ delivered
          → Ends u m s
              (after_frame p loop_of in_loop delivered u m
                (deliver_to_local_user p loop_of in_loop u m s).1).1
      ended true e = (
        (deliver-Keeps u m s).1,
        inl (deliver_on-HandsOver (get_local_connection u s.buckets) u m s refl e),
      )
      ended false e =
          stores_at_last u m s (deliver_to_local_user p loop_of in_loop u m s).1 e
            (deliver-Keeps u m s)

  deliver_on-buckets :
      (conn : Option Conn) (m : Bytes) (s : N)
      → (deliver_on p loop_of in_loop conn m s).1.buckets ≡ s.buckets
  unfolding deliver_on enqueue_local_delivery schedule put_dispatcher
  deliver_on-buckets none m s = refl
  deliver_on-buckets (some conn) m s = ground arith

  note_absent-buckets :
      (found : Option Bytes) (u : ℤ) (s : N)
      → (note_absent p loop_of in_loop found u s).1.buckets ≡ s.buckets
  unfolding note_absent peers count_stale
  note_absent-buckets none u s = refl
  note_absent-buckets (some n) u s = ground arith

  after_frame-buckets :
      (delivered : Bool) (u : ℤ) (m : Bytes) (s : N)
      → (after_frame p loop_of in_loop delivered u m s).1.buckets ≡ s.buckets
  unfolding after_frame count_local check_absent store_offline peers
  after_frame-buckets true u m s = refl
  after_frame-buckets false u m s =
      if_cases (λ (r : Unit {0} × N). r.1.buckets ≡ s.buckets) s.clustered _ _
        (λ _. note_absent-buckets _ u _) (λ _. refl)

  frame-buckets :
      (u : ℤ) (m : Bytes) (s : N)
      → (handle_cluster_one_chat_frame p loop_of in_loop u m s).1.buckets ≡ s.buckets
  unfolding handle_cluster_one_chat_frame deliver_to_local_user
  frame-buckets u m s =
      let conn = get_local_connection u s.buckets in
      after_frame-buckets (deliver_on p loop_of in_loop conn m s).0 u m
        (deliver_on p loop_of in_loop conn m s).1
      ∙ deliver_on-buckets conn m s

  -- The users are served one after the other, and none of it changes the table of connections.
  abbrev pub EachEnds : List ℤ → Bytes → N → N → Type 0
  EachEnds [] m s t = s ≡ t
  EachEnds (u ∷ us) m s t =
      (next : N) × (next.buckets ≡ s.buckets) × Ends u m s next × EachEnds us m next t

  EachEnds-total :
      (us : List ℤ) (m : Bytes) (s t : N)
      → EachEnds us m s t
      → (t.remote_route_count ≡ s.remote_route_count)
        × (t.local_delivery_count + length t.stored
            ≡ s.local_delivery_count + length s.stored + length us)
  unfolding count_local
  EachEnds-total [] m s t e = (ap (λ v. v.remote_route_count) (sym e), rw e (omega arith))
  EachEnds-total (u ∷ us) m s t (next, table, (b, ends), rest) =
      let (b1, more) = EachEnds-total us m next t rest in
      (
        b1 ∙ b,
        elim ends [
          | inl (conn, here, ok, same) ↦
              let (a, b2, c) = enqueue-Keeps conn m s in
              omega (
                arith,
                more,
                a,
                ap length c,
                ap (λ v. v.local_delivery_count) same,
                ap (λ v. length v.stored) same,
              )
          | inr (failed, a, c) ↦
              omega (arith, more, a, ap length c, length-append s.stored ((u, m) ∷ []))
        ],
      )

  handled-EachEnds :
      (us : List ℤ) (m : Bytes) (s : N)
      → EachEnds us m s (handle_cluster_group_chat p loop_of in_loop us m s).1
  unfolding handle_cluster_group_chat
  handled-EachEnds [] m s = refl
  handled-EachEnds (u ∷ us) m s =
      let next = (handle_cluster_one_chat_frame p loop_of in_loop u m s).1 in
      (next, frame-buckets u m s, frame-Ends u m s, handled-EachEnds us m next)

  -- A message from another node for users of this one: the handler serves them one after the
  -- other, in order. For each, either the message is queued for the connection that the node then
  -- has for that user, and one delivery is counted, or it could not be, and the message is stored
  -- for that user. The deliveries and the stored messages together grow by the number of users,
  -- and nothing is sent on to a third node.
  pub handle_cluster_group_chat-each :
      (us : List ℤ) (m : Bytes) (s : N)
      → let t = (handle_cluster_group_chat p loop_of in_loop us m s).1 in
        EachEnds us m s t
        × (t.remote_route_count ≡ s.remote_route_count)
        × (t.local_delivery_count + length t.stored
            ≡ s.local_delivery_count + length s.stored + length us)
  handle_cluster_group_chat-each us m s =
      let each = handled-EachEnds us m s in
      let t = (handle_cluster_group_chat p loop_of in_loop us m s).1 in
      let (none_on, total) = EachEnds-total us m s t each in (each, none_on, total)
