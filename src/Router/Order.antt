-- ===== src/Router/Order.antt =====
-- The order of a channel's messages, and that none is lost or sent twice.
use cluster_chat_server_with.Prelude.{
  ℕ, ap, ◌+◌, ◌≤◌, ◌≡◌, refl, sym, ◌∙◌, subst, Bool, false, List, [], ◌∷◌, ◌++◌, none, some, Option,
  arith, Bytes, length, length-append, append_assoc, append-nil, if_cases, not, ◌||◌,
}
use mathlib.Core.List.{Perm}
use mathlib.Core.List.Perm
use cluster_chat_server_with.Types.{NodeMeta}
use cluster_chat_server_with.Router.Channel.{
  ShardChannel, is_connected, conn_of, drain_round, handle_connected, handle_disconnected,
  handle_write_complete, handle_high_water_mark, connect_check, connect_client, ensure_client,
  prewarm_channel, stop_channel, stop_in_loop,
}
use cluster_chat_server_with.Router.Flow.{
  Flow, through, past, queued_of, past_of, warmed, round_of, rounded, dialled, Step, enqueues,
  sends_held, schedules_connect, schedules_drain, warms, drains, rounds, sends_taken, completes,
  overloads, checks, dials, opens, breaks, closes, stops, stops_client, Reach, here, then_step,
  fresh,
}
use cluster_chat_server_with.Router.Accept.{
  InOrder, ahead, queued_of-append, past_of-append, one_sent, enqueued-InOrder,
}

-- A step that changes neither the queue nor the logs.
keeps-InOrder :
    (f g : Flow)
    → InOrder f
    → (g.accepted ≡ f.accepted)
      × (g.sent ≡ f.sent)
      × (g.held ≡ f.held)
      × (g.taken ≡ f.taken)
      × (g.lost ≡ f.lost)
    → (g.channel.pending ≡ f.channel.pending)
      × (g.channel.closing ≡ f.channel.closing)
      × (g.channel.pending_limit ≡ f.channel.pending_limit)
    → InOrder g
keeps-InOrder f g v (a, s, h, t, x) (p, c, l) = record {
  kept = rw (a, s, t, x, p) v.kept;
  passed = rw (a, s, h) v.passed;
  one_taken = rw t v.one_taken;
  left_queue = rw (a, s, t, x) v.left_queue;
  open_lost = rw (c, x) v.open_lost;
  closed_empty = rw (c, p) v.closed_empty;
  bounded = rw (p, l) v.bounded;
}

-- A round that takes the first message of the queue.
take_first :
    (f : Flow) (m : Bytes) (ms : List Bytes)
    → f.channel.closing ≡ false
    → f.channel.pending ≡ m ∷ ms
    → f.taken ≡ []
    → InOrder f
    → InOrder (record f { channel = record f.channel { pending = ms }; taken = m ∷ [] })
take_first f m ms o e none_taken v = record {
  kept = v.kept ∙ rw (none_taken, v.open_lost o, e) refl;
  passed = v.passed;
  one_taken = omega arith;
  left_queue = omega (arith, v.left_queue, ap length none_taken);
  open_lost = v.open_lost;
  closed_empty = λ h. absurd (cc);
  bounded = omega (arith, v.bounded, ap length e);
}

rounded-InOrder : (f : Flow) → f.taken ≡ [] → InOrder f → InOrder (rounded f)
unfolding rounded drain_round
rounded-InOrder f e v =
    if_cases (λ r. InOrder (round_of f r)) (f.channel.closing || f.channel.overloaded) _ _
      (λ _. ended)
      λ o.
        if_cases (λ r. InOrder (round_of f r)) (not (is_connected f.up f.channel)) _ _ (λ _. ended)
          (λ _. from_queue (ground arith) f.channel.pending refl)
  where
    ended : InOrder (record f { draining = false })
    ended =
        keeps-InOrder f (record f { draining = false }) v (refl, refl, refl, refl, refl)
          (refl, refl, refl)

    from_queue :
        f.channel.closing ≡ false
        → (q : List Bytes) → f.channel.pending ≡ q
        → InOrder (
            round_of f (elim q [
              | [] ↦ (none, f.channel)
              | m ∷ ms ↦ (some (conn_of f.channel, m), record f.channel { pending = ms })
            ]))
    from_queue o [] h = ended
    from_queue o (m ∷ ms) h = take_first f m ms o h e v

stop-InOrder :
    (f : Flow)
    → InOrder f
    → InOrder
        (record f { channel = (stop_channel f.channel).0; lost = f.lost ++ f.channel.pending })
unfolding stop_channel
stop-InOrder f v = record {
  kept = rw append-nil v.kept;
  passed = v.passed;
  one_taken = v.one_taken;
  left_queue = omega (arith, v.left_queue, length-append f.lost f.channel.pending);
  open_lost = λ h. absurd (cc);
  closed_empty = λ h. refl;
  bounded = omega arith;
}

sent_taken-InOrder :
    (f : Flow) (m : Bytes)
    → f.taken ≡ m ∷ []
    → InOrder f
    → InOrder (record f { taken = []; sent = f.sent ++ through m ∷ [] })
sent_taken-InOrder f m e v = record {
  kept = v.kept ∙ rw (e, queued_of-append f.sent (through m ∷ [])) (simp append_assoc);
  passed = rw (past_of-append f.sent (through m ∷ []), append-nil) v.passed;
  one_taken = omega arith;
  left_queue = omega (
    arith,
    v.left_queue,
    ap length e,
    ap length (queued_of-append f.sent (through m ∷ [])),
    length-append (queued_of f.sent) (m ∷ []),
  );
  open_lost = v.open_lost;
  closed_empty = v.closed_empty;
  bounded = v.bounded;
}

sent_held-InOrder :
    (f : Flow) (before after : List Bytes) (m : Bytes)
    → f.held ≡ before ++ m ∷ after
    → InOrder f
    → InOrder (record f { held = before ++ after; sent = f.sent ++ past m ∷ [] })
sent_held-InOrder f before after m e v = record {
  kept = rw (queued_of-append f.sent (past m ∷ []), append-nil) v.kept;
  passed =
      subst (λ t. Perm (past_of f.accepted) (t ++ (before ++ after)))
        (sym (past_of-append f.sent (past m ∷ [])))
        (one_sent (past_of f.accepted) (past_of f.sent) before after m
          (subst (λ h. Perm (past_of f.accepted) (past_of f.sent ++ h)) e v.passed));
  one_taken = v.one_taken;
  left_queue = rw (queued_of-append f.sent (past m ∷ []), append-nil) v.left_queue;
  open_lost = v.open_lost;
  closed_empty = v.closed_empty;
  bounded = v.bounded;
}

-- The parts of a channel that its invariant is about.
abbrev Alike : ShardChannel → ShardChannel → Type 0
Alike ch now =
    (now.pending ≡ ch.pending) × (now.closing ≡ ch.closing) × (now.pending_limit ≡ ch.pending_limit)

warm-Alike : (up : Bool) (ch : ShardChannel) → Alike ch (prewarm_channel up ch).0
unfolding prewarm_channel
warm-Alike up ch = ground arith

check-Alike : (up : Bool) (ch : ShardChannel) → Alike ch (connect_check up ch).1
unfolding connect_check
check-Alike up ch = ground arith

client-Alike : (ch : ShardChannel) → Alike ch (connect_client ch).0
unfolding connect_client ensure_client
client-Alike ch = ground arith

stopped-Alike : (ch : ShardChannel) (captured : Option ℕ) → Alike ch (stop_in_loop ch captured).0
unfolding stop_in_loop
stopped-Alike ch captured = ground arith

pub Step-InOrder : {f g : Flow} → Step f g → InOrder f → InOrder g
Step-InOrder (enqueues f m) v = enqueued-InOrder f m v
Step-InOrder (sends_held f before after m e) v = sent_held-InOrder f before after m e v
Step-InOrder (schedules_connect f n e) v = assumption
Step-InOrder (schedules_drain f n e) v = assumption
Step-InOrder (warms f) v =
    unfold warmed in
    keeps-InOrder f (warmed f) v (refl, refl, refl, refl, refl) (warm-Alike f.up f.channel)
Step-InOrder (drains f n e r s) v = assumption
Step-InOrder (rounds f d e) v = rounded-InOrder f e v
Step-InOrder (sends_taken f m e) v = sent_taken-InOrder f m e v
Step-InOrder (completes f r s) v = unfold handle_write_complete in assumption
Step-InOrder (overloads f) v = unfold handle_high_water_mark in assumption
Step-InOrder (checks f n e r s) v =
    keeps-InOrder f _ v (refl, refl, refl, refl, refl) (check-Alike f.up f.channel)
Step-InOrder (dials f e) v =
    unfold dialled in
    keeps-InOrder f (dialled f) v (refl, refl, refl, refl, refl) (client-Alike f.channel)
Step-InOrder (opens f conn r d) v = unfold handle_connected in assumption
Step-InOrder (breaks f r) v = assumption
Step-InOrder (closes f r u h) v = unfold handle_disconnected in assumption
Step-InOrder (stops f) v = stop-InOrder f v
Step-InOrder (stops_client f captured r c) v =
    keeps-InOrder f _ v (refl, refl, refl, refl, refl) (stopped-Alike f.channel captured)

Reach-InOrder : {f g : Flow} → InOrder f → Reach f g → InOrder g
Reach-InOrder v here = v
Reach-InOrder v (then_step r s) = Step-InOrder s (Reach-InOrder v r)

-- After any steps of senders and of a channel's loop, in any order, where a sender sends and
-- schedules, and the drain sends, without the lock: the messages that were accepted into the queue
-- are those of them that were sent, then the one at most that the drain has taken and not sent,
-- then those that stopChannel threw away, then those still queued, in the order of acceptance;
-- those that were accepted before a later message went past the queue have all left it, so that, while
-- the channel is open, the later one overtakes no more of them than the one that the drain has
-- taken;
-- the messages that were accepted to go past the queue are, in some order, those of them that were
-- sent and those that their senders still hold; none is thrown away while the channel is open; and
-- the queue is no longer than its limit.
pub channel_in_order :
    (id : Bytes) (meta : NodeMeta) (loop limit water_mark : ℕ) (f : Flow)
    → Reach (fresh id meta loop limit water_mark) f
    → (queued_of f.accepted ≡ queued_of f.sent ++ (f.taken ++ (f.lost ++ f.channel.pending)))
      × (length f.taken ≤ 1)
      × (ahead f.accepted ≤ length (queued_of f.sent) + length f.taken + length f.lost)
      × Perm (past_of f.accepted) (past_of f.sent ++ f.held)
      × (f.channel.closing ≡ false → f.lost ≡ [])
      × (length f.channel.pending ≤ f.channel.pending_limit)
channel_in_order id meta loop limit water_mark f r =
    let v = Reach-InOrder start r in
    (v.kept, v.one_taken, v.left_queue, v.passed, v.open_lost, v.bounded)
  where
    start : InOrder (fresh id meta loop limit water_mark)
    start = record {
      kept = refl;
      passed = Perm.refl [];
      one_taken = omega arith;
      left_queue = omega arith;
      open_lost = λ _. refl;
      closed_empty = λ _. refl;
      bounded = omega arith;
    }
