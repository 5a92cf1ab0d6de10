-- ===== src/Pool/Lent.antt =====
-- A connection of the pool is in one place at a time.
use cluster_chat_server_with.Prelude.{
  ℕ, zero, suc, ◌+◌, ◌≤◌, ◌<◌, ◌≡◌, refl, ap, ◌∙◌, Bool, List, [], ◌∷◌, ◌++◌, some, some_inj, arith,
  eqb, if◌then◌else◌, ℤ, is_nonpos, to_nat,
}
use cluster_chat_server_with.Pool.{Pool, open_from, new_pool, get_connection, drop_one, give_back}

-- How often a connection stands in a list.
abbrev pub copies : ℕ → List ℕ → ℕ
copies c [] = 0
copies c (d ∷ rest) = (if eqb d c then 1 else 0) + copies c rest

copies-append : (c : ℕ) (s t : List ℕ) → copies c (s ++ t) ≡ copies c s + copies c t
copies-append c [] t = omega arith
copies-append c (d ∷ rest) t = omega (arith, copies-append c rest t)

-- A call of a borrower that does not wait, or the end of a loan.
pub data Move : Pool → Pool → Type 0 where
  borrows : (p q : Pool) (c : ℕ) → get_connection p ≡ some (c, q) → Move p q
  returns : (p : Pool) (c : ℕ) → 0 < copies c p.lent → Move p (give_back c p)

pub data Moves (p : Pool) : Pool → Type 0 where
  unmoved : Moves p p
  moved : {q r : Pool} → Moves p q → Move q r → Moves p r

held : ℕ → Pool → ℕ
held c p = copies c p.queue + copies c p.lent

copies-drop_one :
    (c d : ℕ) (l : List ℕ)
    → 0 < copies d l
    → copies c (drop_one d l) + copies c (d ∷ []) ≡ copies c l
unfolding drop_one
copies-drop_one c d [] h = absurd (omega arith)
copies-drop_one c d (e ∷ rest) h = grind (arith, copies-drop_one c d rest)

borrowed :
    (c d : ℕ) (q lent : List ℕ) (r : Pool)
    → get_connection (record { queue = q; lent = lent }) ≡ some (d, r)
    → copies c r.queue + copies c r.lent ≡ copies c q + copies c lent
unfolding get_connection
borrowed c d [] lent r e = absurd (cc)
borrowed c d (x ∷ rest) lent r e =
    let same : record { queue = rest; lent = x ∷ lent } ≡ r =
      ap (λ (z : ℕ × Pool). z.1) (some_inj e) in
    rw (← same) (omega arith)

Move-held : {p q : Pool} (c : ℕ) → Move p q → held c q ≡ held c p
unfolding held give_back
Move-held c (borrows p q d e) = borrowed c d p.queue p.lent q e
Move-held c (returns p d h) =
    omega (arith, copies-append c p.queue (d ∷ []), copies-drop_one c d p.lent h)

Moves-held : {p q : Pool} (c : ℕ) → Moves p q → held c q ≡ held c p
Moves-held c unmoved = refl
Moves-held c (moved r s) = Move-held c s ∙ Moves-held c r

open_from-copies :
    (connects : ℕ → Bool) (c i n : ℕ)
    → (copies c (open_from connects i n) ≤ 1) × (c < i → copies c (open_from connects i n) ≡ 0)
unfolding open_from
open_from-copies connects c i zero = (omega arith, λ _. refl)
open_from-copies connects c i (suc n) =
    let (once, below) = open_from-copies connects c (suc i) n in grind (arith, once, below)

-- After any loans and returns, whichever connections could be opened: each connection of the new
-- pool is still there once, in the queue or on loan, and no other is; so no connection is on loan
-- twice, and none on loan is in the queue.
pub pool_keeps :
    (connects : ℕ → Bool) (max_size : ℤ) (p : Pool) (c : ℕ)
    → Moves (new_pool connects max_size) p
    → (copies c p.queue + copies c p.lent ≡ copies c (new_pool connects max_size).queue)
      × (copies c p.queue + copies c p.lent ≤ 1)
unfolding held new_pool
pool_keeps connects max_size p c r =
    let kept = Moves-held c r in
    let once =
      (open_from-copies connects c 0 (if is_nonpos max_size then 0 else to_nat max_size)).0 in
    (omega (arith, kept), omega (arith, kept, once))
