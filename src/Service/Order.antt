-- ===== src/Service/Order.antt =====
-- What the dispatcher of a loop guarantees under every interleaving of its senders with its drain.
use cluster_chat_server_with.Prelude.{
  ℕ, ◌≤◌, ◌≡◌, refl, ◌∙◌, inl, inr, true, false, ◌&&◌, ◌||◌, List, [], ◌∷◌, ◌++◌, arith, length,
  length-append, append_assoc, append-nil, is_empty, Bool-cases,
}
use cluster_chat_server_with.Service.Dispatch.{
  Task, enqueue, take_tasks, Traffic, accept, refill, Tick, accepts, starts, delivers, refills,
  Ticks, none_yet, one_more, quiet,
}

record InTurn (f : Traffic) : Type 0 where
  kept : f.accepted ≡ f.sent ++ (f.batch ++ f.dispatcher.pending)
  bounded : length f.dispatcher.pending ≤ f.dispatcher.pending_limit
  scheduled : f.dispatcher.flush_scheduled ≡ (f.queued || f.active)
  single : (f.queued && f.active) ≡ false
  idle : f.active ≡ false → f.batch ≡ []
  waiting : (is_empty f.dispatcher.pending || f.dispatcher.flush_scheduled) ≡ true

kept_more :
    (a s b p : List Task) (t : Task) → a ≡ s ++ (b ++ p) → a ++ t ∷ [] ≡ s ++ (b ++ (p ++ t ∷ []))
kept_more a s b p t e = rw e (simp append_assoc)

accept-InTurn : (f : Traffic) (t : Task) → InTurn f → InTurn (accept f t)
unfolding accept enqueue
accept-InTurn f t v = record {
  kept = ground (arith, v.kept, kept_more f.accepted f.sent f.batch f.dispatcher.pending t v.kept);
  bounded = ground (arith, v.bounded, length-append f.dispatcher.pending (t ∷ []));
  scheduled = ground (arith, v.scheduled);
  single = ground (arith, v.scheduled, v.single);
  idle = v.idle;
  waiting = ground (arith, v.waiting);
}

refill-InTurn : (f : Traffic) → f.active ≡ true → f.batch ≡ [] → InTurn f → InTurn (refill f)
unfolding refill take_tasks
refill-InTurn f a e v = elim (Bool-cases (is_empty f.dispatcher.pending)) [
  | inl h ↦ rw h (record {
    kept = v.kept;
    bounded = v.bounded;
    scheduled = ground (arith, v.single);
    single = ground (arith, v.single);
    idle = λ _. e;
    waiting = rw h refl;
  })
  | inr h ↦ rw h (record {
    kept = v.kept ∙ rw e (simp append-nil);
    bounded = omega arith;
    scheduled = v.scheduled;
    single = v.single;
    idle = λ n. absurd (cc);
    waiting = refl;
  })
]

Tick-InTurn : {f g : Traffic} → Tick f g → InTurn f → InTurn g
Tick-InTurn (accepts f t) v = accept-InTurn f t v
Tick-InTurn (starts f q) v = record {
  kept = v.kept;
  bounded = v.bounded;
  scheduled = ground (arith, v.scheduled);
  single = refl;
  idle = λ n. absurd (cc);
  waiting = v.waiting;
}
Tick-InTurn (delivers f t ts a e) v = record {
  kept = v.kept ∙ rw e (simp append_assoc);
  bounded = v.bounded;
  scheduled = v.scheduled;
  single = v.single;
  idle = λ n. absurd (cc);
  waiting = v.waiting;
}
Tick-InTurn (refills f a e) v = refill-InTurn f a e v

Ticks-InTurn : {f g : Traffic} → InTurn f → Ticks f g → InTurn g
Ticks-InTurn v none_yet = v
Ticks-InTurn v (one_more r s) = Tick-InTurn s (Ticks-InTurn v r)

-- After any calls of senders and of the loop, in any order: the accepted tasks are the sent ones,
-- followed by those that the drain has taken and those still queued, in the order of acceptance;
-- the queue is no longer than its limit; a drain is not queued while one is under way; and while
-- a task waits, a drain is queued or under way.
pub dispatched_in_order :
    (loop limit : ℕ) (f : Traffic)
    → Ticks (quiet loop limit) f
    → (f.accepted ≡ f.sent ++ (f.batch ++ f.dispatcher.pending))
      × (length f.dispatcher.pending ≤ f.dispatcher.pending_limit)
      × ((f.queued && f.active) ≡ false)
      × ((is_empty f.dispatcher.pending || f.queued || f.active) ≡ true)
dispatched_in_order loop limit f r =
    let v = Ticks-InTurn start r in
    (v.kept, v.bounded, v.single, ground (arith, v.waiting, v.scheduled))
  where
    start : InTurn (quiet loop limit)
    start = record {
      kept = refl;
      bounded = omega arith;
      scheduled = refl;
      single = refl;
      idle = λ _. refl;
      waiting = refl;
    }
