-- ===== src/Wire/Run.antt =====
-- The receive loop with the fuel that `onMessage` gives it: it ends, and each round is one equation.
use cluster_chat_server_with.Prelude.{
  ℕ, zero, suc, ◌<◌, ◌≡◌, refl, sym, ◌∙◌, ap, ◌⊎◌, inl, inr, true, false, [], ◌∷◌, ◌++◌, Option,
  none, some, arith, Bytes, length,
}
use cluster_chat_server_with.Wire.Receive.{
  Delivery, Round, wait, drop_all, deliver, skip, next, Outcome, called, receive, on_message,
}
use cluster_chat_server_with.Wire.Rounds.{next-Shrinks}

pub Round-cases :
    (r : Round)
    → (r ≡ wait)
      ⊎ ((r ≡ drop_all)
          ⊎ (((d : Delivery) × (s : Bytes) × (r ≡ deliver d s)) ⊎ ((s : Bytes) × (r ≡ skip s))))
Round-cases wait = inl refl
Round-cases drop_all = inr (inl refl)
Round-cases (deliver d s) = inr (inr (inl (d, s, refl)))
Round-cases (skip s) = inr (inr (inr (s, refl)))

abbrev pub idle : Bytes → Outcome
idle p = record { calls = []; pending = p; cleared = false }

abbrev pub emptied : Outcome
emptied = record { calls = []; pending = []; cleared = true }

abbrev pub map_outcome : (Outcome → Outcome) → Option Outcome → Option Outcome
map_outcome f none = none
map_outcome f (some o) = some (f o)

module _ (f : ℕ) (c : ℕ) (cs : Bytes) where
  receive-wait : next (c ∷ cs) ≡ wait → receive (suc f) (c ∷ cs) ≡ some (idle (c ∷ cs))
  unfolding receive
  receive-wait e = rw (e, receive)

  receive-drop_all : next (c ∷ cs) ≡ drop_all → receive (suc f) (c ∷ cs) ≡ some emptied
  unfolding receive
  receive-drop_all e = rw (e, receive)

  receive-deliver :
      (d : Delivery) (r : Bytes)
      → next (c ∷ cs) ≡ deliver d r
      → receive (suc f) (c ∷ cs) ≡ map_outcome (called d) (receive f r)
  unfolding receive
  receive-deliver d r e = ground arith

  receive-skip : (r : Bytes) → next (c ∷ cs) ≡ skip r → receive (suc f) (c ∷ cs) ≡ receive f r
  unfolding receive
  receive-skip r e = rw (e, receive)

deliver-lt :
    (c : ℕ) (cs : Bytes) (d : Delivery) (r : Bytes)
    → next (c ∷ cs) ≡ deliver d r
    → length r < length (c ∷ cs)
deliver-lt c cs d r e = rw e at (next-Shrinks c cs)

skip-lt : (c : ℕ) (cs r : Bytes) → next (c ∷ cs) ≡ skip r → length r < length (c ∷ cs)
skip-lt c cs r e = rw e at (next-Shrinks c cs)

-- More fuel than the length of the buffer makes no difference.
receive_fuel : (f g : ℕ) (p : Bytes) → length p < f → length p < g → receive f p ≡ receive g p
receive_fuel zero g p hf hg = absurd (omega arith)
receive_fuel (suc f) zero p hf hg = absurd (omega arith)
receive_fuel (suc f) (suc g) [] hf hg = unfold receive in refl
receive_fuel (suc f) (suc g) (c ∷ cs) hf hg = elim (Round-cases (next (c ∷ cs))) [
  | inl e ↦ receive-wait f c cs e ∙ sym (receive-wait g c cs e)
  | inr (inl e) ↦ receive-drop_all f c cs e ∙ sym (receive-drop_all g c cs e)
  | inr (inr (inl (d, r, e))) ↦
      rw (receive-deliver f c cs d r e, receive-deliver g c cs d r e)
        (ap (map_outcome (called d)) (
          receive_fuel f g r (omega (arith, deliver-lt c cs d r e))
            (omega (arith, deliver-lt c cs d r e))))
  | inr (inr (inr (r, e))) ↦
      rw (receive-skip f c cs r e, receive-skip g c cs r e)
        (receive_fuel f g r (omega (arith, skip-lt c cs r e)) (omega (arith, skip-lt c cs r e)))
]

-- The loop over a buffer, with the fuel that `on_message` gives it.
unfoldable pub run : Bytes → Option Outcome
run p = receive (suc (length p)) p

pub on_message-run : (p chunk : Bytes) → on_message p chunk ≡ run (p ++ chunk)
unfolding on_message run
on_message-run p chunk = refl

pub run-nil : run [] ≡ some (idle [])
unfolding run receive
run-nil = refl

module _ (c : ℕ) (cs : Bytes) where
  pub run-wait : next (c ∷ cs) ≡ wait → run (c ∷ cs) ≡ some (idle (c ∷ cs))
  unfolding run
  run-wait e = receive-wait _ c cs e

  pub run-drop_all : next (c ∷ cs) ≡ drop_all → run (c ∷ cs) ≡ some emptied
  unfolding run
  run-drop_all e = receive-drop_all _ c cs e

  pub run-deliver :
      (d : Delivery) (r : Bytes)
      → next (c ∷ cs) ≡ deliver d r
      → run (c ∷ cs) ≡ map_outcome (called d) (run r)
  unfolding run
  run-deliver d r e =
      receive-deliver _ c cs d r e
      ∙ ap (map_outcome (called d))
          (receive_fuel _ _ r (omega (arith, deliver-lt c cs d r e)) (omega arith))

  pub run-skip : (r : Bytes) → next (c ∷ cs) ≡ skip r → run (c ∷ cs) ≡ run r
  unfolding run
  run-skip r e =
      receive-skip _ c cs r e ∙ receive_fuel _ _ r (omega (arith, skip-lt c cs r e)) (omega arith)

pub run_induction {ℓ} :
    (P : Bytes → Type ℓ)
    → P []
    → ((c : ℕ) (cs : Bytes) → next (c ∷ cs) ≡ wait → P (c ∷ cs))
    → ((c : ℕ) (cs : Bytes) → next (c ∷ cs) ≡ drop_all → P (c ∷ cs))
    → ((c : ℕ) (cs : Bytes) (d : Delivery) (r : Bytes)
        → next (c ∷ cs) ≡ deliver d r
        → P r
        → P (c ∷ cs))
    → ((c : ℕ) (cs r : Bytes) → next (c ∷ cs) ≡ skip r → P r → P (c ∷ cs))
    → (n : ℕ) (p : Bytes) → length p < n
    → P p
run_induction P e w d l s zero p h = absurd (omega arith)
run_induction P e w d l s (suc n) [] h = e
run_induction P e w d l s (suc n) (c ∷ cs) h = elim (Round-cases (next (c ∷ cs))) [
  | inl q ↦ w c cs q
  | inr (inl q) ↦ d c cs q
  | inr (inr (inl (x, r, q))) ↦
      l c cs x r q (run_induction P e w d l s n r (omega (arith, deliver-lt c cs x r q)))
  | inr (inr (inr (r, q))) ↦
      s c cs r q (run_induction P e w d l s n r (omega (arith, skip-lt c cs r q)))
]
