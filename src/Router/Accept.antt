-- ===== src/Router/Accept.antt =====
-- The messages of a channel as a sender leaves them: the parts of `enqueueOrSend`
-- (src/server/clusterrouter.cpp).
use cluster_chat_server_with.Prelude.{
  ℕ, ap, ◌+◌, ◌≤◌, ◌<◌, ◌≡◌, refl, sym, ◌∙◌, subst, Bool, true, false, List, [], ◌∷◌, ◌++◌, none,
  some, Option, arith, Bytes, length, length-append, append_assoc, append-nil, if◌then◌else◌,
  if_cases, not, ◌&&◌, is_empty, leb,
}
use mathlib.Core.List.{Perm, perm_middle}
use mathlib.Core.List.Perm
use cluster_chat_server_with.Router.Channel.{
  ShardChannel, run_connect, run_drain, is_connected, Locked, rejected, enqueue_locked,
  after_unlock,
}
use cluster_chat_server_with.Router.Flow.{
  Flow, Message, through, past, queued_of, past_of, logged, sends, connects_in, drains_in, enqueued,
}

abbrev has_past : List Message → Bool
has_past [] = false
has_past (through m ∷ rest) = has_past rest
has_past (past m ∷ rest) = true

-- How many messages were queued before a later one went past the queue.
abbrev pub ahead : List Message → ℕ
ahead [] = 0
ahead (through m ∷ rest) = let n = ahead rest in if has_past rest then n + 1 else 0
ahead (past m ∷ rest) = ahead rest

pub record InOrder (f : Flow) : Type 0 where
  pub kept : queued_of f.accepted ≡ queued_of f.sent ++ (f.taken ++ (f.lost ++ f.channel.pending))
  pub passed : Perm (past_of f.accepted) (past_of f.sent ++ f.held)
  pub one_taken : length f.taken ≤ 1
  pub left_queue : ahead f.accepted ≤ length (queued_of f.sent) + length f.taken + length f.lost
  pub open_lost : f.channel.closing ≡ false → f.lost ≡ []
  pub closed_empty : f.channel.closing ≡ true → f.channel.pending ≡ []
  pub bounded : length f.channel.pending ≤ f.channel.pending_limit

pub queued_of-append : (s t : List Message) → queued_of (s ++ t) ≡ queued_of s ++ queued_of t
queued_of-append [] t = refl
queued_of-append (through m ∷ s) t = rw (queued_of-append s t) refl
queued_of-append (past m ∷ s) t = queued_of-append s t

pub past_of-append : (s t : List Message) → past_of (s ++ t) ≡ past_of s ++ past_of t
past_of-append [] t = refl
past_of-append (through m ∷ s) t = past_of-append s t
past_of-append (past m ∷ s) t = rw (past_of-append s t) refl

has_past-append :
    (s : List Message) (m : Bytes)
    → (has_past (s ++ through m ∷ []) ≡ has_past s) × (has_past (s ++ past m ∷ []) ≡ true)
has_past-append [] m = (refl, refl)
has_past-append (through x ∷ s) m = has_past-append s m
has_past-append (past x ∷ s) m = (refl, refl)

ahead-through : (s : List Message) (m : Bytes) → ahead (s ++ through m ∷ []) ≡ ahead s
ahead-through [] m = refl
ahead-through (through x ∷ s) m = rw ((has_past-append s m).0, ahead-through s m) refl
ahead-through (past x ∷ s) m = ahead-through s m

ahead-past : (s : List Message) (m : Bytes) → ahead (s ++ past m ∷ []) ≡ length (queued_of s)
ahead-past [] m = refl
ahead-past (through x ∷ s) m = rw ((has_past-append s m).1, ahead-past s m) (omega arith)
ahead-past (past x ∷ s) m = ahead-past s m

empty_queue : (a b : Bool) (q : List Bytes) → (a && b && is_empty q) ≡ true → q ≡ []
empty_queue a b q h = ground arith

connected-some :
    (up : Bool) (ch : ShardChannel) → is_connected up ch ≡ true → (c : ℕ) × (ch.connection ≡ some c)
connected-some up ch h = held ch.connection h
  where
    held : (o : Option ℕ) → (elim o [ none ↦ false | some c ↦ up ]) ≡ true → (c : ℕ) × (o ≡ some c)
    held none h = absurd (cc)
    held (some c) h = (c, refl)

-- The three outcomes of the locked part: refused, to be sent past an empty queue, or queued.
enqueue_cases {ℓ} :
    (P : Locked → Type ℓ) (up : Bool) (ch : ShardChannel) (m : Bytes)
    → P (rejected ch)
    → ((c : ℕ)
        → ch.closing ≡ false
        → ch.pending ≡ []
        → P (record (rejected ch) { accepted = true; direct = some c }))
    → ((c con dr : Bool)
        → ch.closing ≡ false
        → length ch.pending < ch.pending_limit
        → P (record {
          channel = record ch { pending = ch.pending ++ m ∷ []; connecting = c };
          accepted = true;
          direct = none;
          should_connect = con;
          should_drain = dr;
        }))
    → P (enqueue_locked up ch m)
unfolding enqueue_locked
enqueue_cases P up ch m refused direct queued =
    if_cases P ch.closing _ _ (λ _. refused)
      λ o.
        if_cases P (is_connected up ch && not ch.overloaded && is_empty ch.pending) _ _
          (λ h.
            let (c, e) = connected-some up ch (ground arith) in
            subst (λ d. P (record (rejected ch) { accepted = true; direct = d })) (sym e)
              (direct c o (empty_queue (is_connected up ch) (not ch.overloaded) ch.pending h)))
          λ _.
            if_cases P (leb ch.pending_limit (length ch.pending)) _ _ (λ _. refused)
              λ l.
                let room : length ch.pending < ch.pending_limit = ground arith in
                if_cases P (not (is_connected up ch) && not ch.connecting) _ _
                  (λ _. queued true true false o room)
                  λ _.
                    if_cases P (is_connected up ch && not ch.overloaded) _ _
                      (λ _. queued ch.connecting false true o room)
                      (λ _. queued ch.connecting false false o room)

more_past :
    (a s h : List Bytes) (m : Bytes) → Perm a (s ++ h) → Perm (a ++ m ∷ []) (s ++ (h ++ m ∷ []))
more_past a s h m e =
    subst (λ t. Perm (a ++ m ∷ []) t) (append_assoc s h (m ∷ [])) (Perm.append_right (m ∷ []) e)

pub one_sent :
    (a s x y : List Bytes) (m : Bytes)
    → Perm a (s ++ (x ++ m ∷ y))
    → Perm a ((s ++ m ∷ []) ++ (x ++ y))
one_sent a s x y m e =
    subst (λ t. Perm a t) (sym (append_assoc s (m ∷ []) (x ++ y)))
      (Perm.trans e (Perm.append_left s (perm_middle x y)))

queue_more :
    (a s t l p : List Bytes) (m : Bytes)
    → a ≡ s ++ (t ++ (l ++ p))
    → a ++ m ∷ [] ≡ s ++ (t ++ (l ++ (p ++ m ∷ [])))
queue_more a s t l p m e = rw e (simp append_assoc)

-- The state behind the locked part of a sender's call, and what the sender holds then.
abbrev after_lock : Flow → Bytes → Locked → Flow
after_lock f m l = record f {
  channel = l.channel;
  held = f.held ++ sends (after_unlock l m);
  connects_held = f.connects_held + connects_in (after_unlock l m);
  drains_held = f.drains_held + drains_in (after_unlock l m);
  accepted = f.accepted ++ logged l.accepted l.direct m;
}

still_held :
    (con dr : Bool) (h : List Bytes)
    → h ≡ h ++ sends (if con then run_connect ∷ [] else if dr then run_drain ∷ [] else [])
still_held true dr h = sym (append-nil h)
still_held false true h = sym (append-nil h)
still_held false false h = sym (append-nil h)

-- Where the queue is empty, every message that was accepted into it has left it.
all_left :
    (f : Flow) (m : Bytes)
    → f.channel.pending ≡ []
    → InOrder f
    → ahead (f.accepted ++ past m ∷ []) ≤ length (queued_of f.sent) + length f.taken + length f.lost
all_left f m e v = omega (
  arith,
  ahead-past f.accepted m,
  ap length v.kept,
  ap length e,
  length-append (queued_of f.sent) (f.taken ++ (f.lost ++ f.channel.pending)),
  length-append f.taken (f.lost ++ f.channel.pending),
  length-append f.lost f.channel.pending,
)

pub enqueued-InOrder : (f : Flow) (m : Bytes) → InOrder f → InOrder (enqueued f m)
unfolding enqueued after_unlock
enqueued-InOrder f m v =
    enqueue_cases (λ l. InOrder (after_lock f m l)) f.up f.channel m
      (record {
        kept = rw append-nil v.kept;
        passed = rw (append-nil, append-nil) v.passed;
        one_taken = v.one_taken;
        left_queue = rw (append-nil f.accepted) v.left_queue;
        open_lost = v.open_lost;
        closed_empty = v.closed_empty;
        bounded = v.bounded;
      })
      (λ c o e. record {
        kept =
            queued_of-append f.accepted (past m ∷ [])
            ∙ (append-nil (queued_of f.accepted) ∙ v.kept);
        passed =
            subst (λ a. Perm a (past_of f.sent ++ (f.held ++ m ∷ [])))
              (sym (past_of-append f.accepted (past m ∷ [])))
              (more_past (past_of f.accepted) (past_of f.sent) f.held m v.passed);
        one_taken = v.one_taken;
        left_queue = all_left f m e v;
        open_lost = v.open_lost;
        closed_empty = v.closed_empty;
        bounded = v.bounded;
      })
      (λ c con dr o l. record {
        kept =
            queued_of-append f.accepted (through m ∷ [])
            ∙ queue_more (queued_of f.accepted) (queued_of f.sent) f.taken f.lost f.channel.pending
                m v.kept;
        passed =
            subst (λ h. Perm (past_of (f.accepted ++ through m ∷ [])) (past_of f.sent ++ h))
              (still_held con dr f.held)
              (subst (λ a. Perm a (past_of f.sent ++ f.held))
                (sym (past_of-append f.accepted (through m ∷ []) ∙ append-nil (past_of f.accepted)))
                v.passed);
        one_taken = v.one_taken;
        left_queue = rw (ahead-through f.accepted m) v.left_queue;
        open_lost = v.open_lost;
        closed_empty = λ h. absurd (cc);
        bounded = omega (arith, length-append f.channel.pending (m ∷ []));
      })
