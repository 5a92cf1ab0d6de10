-- ===== src/Wire/Chunks.antt =====
-- How TCP cuts the stream into chunks does not matter to the node that receives it.
use cluster_chat_server_with.Prelude.{
  suc, ◌≡◌, refl, sym, ◌∙◌, ap, inl, inr, true, false, List, [], ◌∷◌, ◌++◌, Option, none, some,
  arith, Bytes, length, if◌then◌else◌, append_assoc, append-nil, concat, Bool-cases, Option-cases,
  some_inj,
}
use cluster_chat_server_with.Wire.Receive.{Delivery, Outcome, called, on_message, feed}
use cluster_chat_server_with.Wire.Rounds.{next-Extends}
use cluster_chat_server_with.Wire.Run.{
  idle, emptied, map_outcome, run, on_message-run, run-nil, run-wait, run-drop_all, run-deliver,
  run-skip, run_induction,
}

abbrev after : List Delivery → Outcome → Outcome
after ds o = record o { calls = ds ++ o.calls }

-- What the loop does with `s` behind a buffer on which it came to this outcome.
abbrev resume : Bytes → Option Outcome → Option Outcome
resume s none = none
resume s (some o) = if o.cleared then some o else map_outcome (after o.calls) (run (o.pending ++ s))

map-after-nil : (o : Option Outcome) → map_outcome (after []) o ≡ o
map-after-nil none = refl
map-after-nil (some o) = refl

map-after-called :
    (d : Delivery) (ds : List Delivery) (o : Option Outcome)
    → map_outcome (called d) (map_outcome (after ds) o) ≡ map_outcome (after (d ∷ ds)) o
map-after-called d ds none = refl
map-after-called d ds (some o) = refl

resume-called :
    (d : Delivery) (s : Bytes) (o : Option Outcome)
    → map_outcome (called d) (resume s o) ≡ resume s (map_outcome (called d) o)
resume-called d s none = refl
resume-called d s (some o) = elim (Bool-cases o.cleared) [
  | inl e ↦ rw e refl
  | inr e ↦ rw e (map-after-called d o.calls (run (o.pending ++ s)))
]

run_append : (p s : Bytes) → run (p ++ s) ≡ resume s (run p)
run_append p s =
    run_induction (λ q. run (q ++ s) ≡ resume s (run q)) (rw run-nil (sym (map-after-nil (run s))))
      (λ c cs e. rw (run-wait c cs e) (sym (map-after-nil (run (c ∷ (cs ++ s))))))
      (λ c cs e.
        rw (run-drop_all c cs e) (run-drop_all c (cs ++ s) (rw e at (next-Extends c cs s))))
      (λ c cs d r e ih.
        rw
          (
            run-deliver c cs d r e,
            run-deliver c (cs ++ s) d (r ++ s) (rw e at (next-Extends c cs s)),
          )
          (ap (map_outcome (called d)) ih ∙ resume-called d s (run r)))
      (λ c cs r e ih.
        rw (run-skip c cs r e, run-skip c (cs ++ s) (r ++ s) (rw e at (next-Extends c cs s))) ih)
      (suc (length p)) p (omega arith)

-- The loop stops, and takes nothing more out of the buffer that it leaves.
abbrev IsSettled : Option Outcome → Type 0
IsSettled r = (o : Outcome) × (r ≡ some o) × (run o.pending ≡ some (idle o.pending))

IsSettled-called :
    (d : Delivery) (r : Option Outcome) → IsSettled r → IsSettled (map_outcome (called d) r)
IsSettled-called d r (o, e, h) = (called d o, rw e, h)

run-IsSettled : (p : Bytes) → IsSettled (run p)
run-IsSettled p =
    run_induction (λ q. IsSettled (run q)) (idle [], run-nil, run-nil)
      (λ c cs e. (idle (c ∷ cs), run-wait c cs e, run-wait c cs e))
      (λ c cs e. (emptied, run-drop_all c cs e, run-nil))
      (λ c cs d r e ih. rw (run-deliver c cs d r e) (IsSettled-called d (run r) ih))
      (λ c cs r e ih. rw (run-skip c cs r e) ih) (suc (length p)) p (omega arith)

-- `onMessage` returns on every buffer and every chunk, and a further event with no new bytes makes
-- no call and leaves the buffer as it is.
pub on_message_total :
    (pending chunk : Bytes)
    → (o : Outcome) × (on_message pending chunk ≡ some o)
      × (on_message o.pending []
          ≡ some (record { calls = []; pending = o.pending; cleared = false }))
on_message_total pending chunk =
    let (o, e, h) = run-IsSettled (pending ++ chunk) in
    (o, on_message-run pending chunk ∙ e, on_message-run o.pending [] ∙ rw append-nil h)

cleared_no_more : (o1 o : Outcome) → o1.cleared ≡ true → some o1 ≡ some o → o.cleared ≡ false → ⊥
cleared_no_more o1 o c e n = ground arith

cleared_none : (o : Outcome) → none ≡ some o → ⊥
cleared_none o e = cc

feed_step :
    (p chunk : Bytes) (chunks : List Bytes) (o r : Outcome)
    → on_message p chunk ≡ some o
    → o.cleared ≡ false
    → feed o.pending chunks ≡ some r
    → feed p (chunk ∷ chunks) ≡ some (after o.calls r)
unfolding feed
feed_step p chunk chunks o r e c h = rw (e, feed, h, c) refl

feed-settled :
    (chunks : List Bytes) (p : Bytes) (o : Outcome)
    → run p ≡ some (idle p)
    → run (p ++ concat chunks) ≡ some o
    → o.cleared ≡ false
    → feed p chunks ≡ some o
unfolding feed
feed-settled [] p o settled e n = sym settled ∙ (rw append-nil at e)
feed-settled (chunk ∷ chunks) p o settled e n =
    let (o1, e1, h1) = run-IsSettled (p ++ chunk) in
    let whole : resume (concat chunks) (some o1) ≡ some o =
      ap (resume (concat chunks)) (sym e1)
      ∙ sym (run_append (p ++ chunk) (concat chunks))
      ∙ rw append_assoc e in
    elim (Bool-cases o1.cleared) [
      | inl c ↦ absurd (cleared_no_more o1 o c (rw c at whole) n)
      | inr c ↦ elim (Option-cases (run (o1.pending ++ concat chunks))) [
        | inl none_left ↦ absurd (cleared_none o (rw (c, none_left) at whole))
        | inr (r, er) ↦
            let same : after o1.calls r ≡ o = some_inj (rw (c, er) at whole) in
            feed_step p chunk chunks o1 r (on_message-run p chunk ∙ e1) c
              (feed-settled chunks o1.pending r h1 er (ap (λ (x : Outcome). x.cleared) same ∙ n))
            ∙ ap some same
      ]
    ]

-- Any way to cut a stream into chunks makes the calls that the whole stream in one chunk makes,
-- and leaves the same buffer, if the loop clears nothing on the whole stream.
pub feed_chunks :
    (chunks : List Bytes) {o : Outcome}
    → on_message [] (concat chunks) ≡ some o
    → o.cleared ≡ false
    → feed [] chunks ≡ some o
feed_chunks chunks {o} e n =
    feed-settled chunks [] o run-nil (sym (on_message-run [] (concat chunks)) ∙ e) n
