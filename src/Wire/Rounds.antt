-- ===== src/Wire/Rounds.antt =====
-- One round of the receive loop: it shortens the buffer, and what it does does not change when
-- more bytes stand behind the buffer.
use cluster_chat_server_with.Prelude.{
  ℕ, ◌+◌, ◌-◌, ◌≤◌, ◌<◌, ◌≡◌, refl, inl, inr, [], ◌∷◌, ◌++◌, some, arith, Bytes, length, take, drop,
  ltb, ge→ltb, Bool-cases, Option-cases, eqb, bytes_eq, length-append, length-drop, take-append_le,
  drop-append_le, get_or-append_lt,
}
use cluster_chat_server_with.Wire.Frame.{magic, read_uint32}
use cluster_chat_server_with.Wire.Receive.{
  Round, wait, drop_all, deliver, skip, find_nul, next_body, next_frame, next_json, next,
}

abbrev pub Shrinks : Bytes → Round → Type 0
Shrinks p wait = Unit
Shrinks p drop_all = Unit
Shrinks p (deliver d r) = length r < length p
Shrinks p (skip r) = length r < length p

abbrev pub Extends : Round → Bytes → Round → Type 0
Extends wait s q = Unit
Extends drop_all s q = q ≡ drop_all
Extends (deliver d r) s q = q ≡ deliver d (r ++ s)
Extends (skip r) s q = q ≡ skip (r ++ s)

find_nul-lt : (p : Bytes) {i : ℕ} → find_nul p ≡ some i → i < length p
unfolding find_nul
find_nul-lt [] h = absurd (cc)
find_nul-lt (c ∷ cs) h = elim (Option-cases (find_nul cs)) [
  | inl e ↦ ground arith
  | inr (j, e) ↦ ground (arith, find_nul-lt cs e)
]

find_nul-append : (p s : Bytes) {i : ℕ} → find_nul p ≡ some i → find_nul (p ++ s) ≡ some i
unfolding find_nul
find_nul-append [] s h = absurd (cc)
find_nul-append (c ∷ cs) s h = elim (Option-cases (find_nul cs)) [
  | inl e ↦ ground arith
  | inr (j, e) ↦ ground (arith, find_nul-append cs s e)
]

read_uint32-append : (p s : Bytes) → 4 ≤ length p → read_uint32 (p ++ s) ≡ read_uint32 p
unfolding read_uint32
read_uint32-append p s h = rw (
  get_or-append_lt p s 0 0 (omega arith),
  get_or-append_lt p s 1 0 (omega arith),
  get_or-append_lt p s 2 0 (omega arith),
  get_or-append_lt p s 3 0 (omega arith),
)

next_json-Shrinks : (c : ℕ) (cs : Bytes) → Shrinks (c ∷ cs) (next_json (c ∷ cs))
unfolding next_json
next_json-Shrinks c cs = elim (Option-cases (find_nul (c ∷ cs))) [
  | inl e ↦ rw (e, next_json) tt
  | inr (i, e) ↦
      rw (e, next_json) (ground (arith, find_nul-lt (c ∷ cs) e, length-drop (i + 1) (c ∷ cs)))
]

next_json-Extends : (p s : Bytes) → Extends (next_json p) s (next_json (p ++ s))
unfolding next_json
next_json-Extends p s = elim (Option-cases (find_nul p)) [
  | inl e ↦ rw (e, next_json) tt
  | inr (i, e) ↦
      rw (find_nul-append p s e, e, next_json)
        (rw
          (
            take-append_le i p s (omega (arith, find_nul-lt p e)),
            drop-append_le (i + 1) p s (omega (arith, find_nul-lt p e)),
          )
          (ground arith))
]

next_body-Shrinks : (p : Bytes) (n : ℕ) → 0 < length p → Shrinks p (next_body p n)
unfolding next_body
next_body-Shrinks p n h = ground (arith, length-drop (4 + 8 + n - 4) p)

next_body-Extends :
    (p s : Bytes) (n : ℕ) → 12 ≤ length p → Extends (next_body p n) s (next_body (p ++ s) n)
unfolding next_body
next_body-Extends p s n h = elim (Bool-cases (ltb n 4)) [
  | inl e ↦ rw e refl
  | inr e ↦ elim (Bool-cases (ltb (length p) (12 + n - 4))) [
    | inl l ↦ rw (e, l) tt
    | inr l ↦
        rw
          (
            e,
            l,
            length-append p s,
            ge→ltb (length p + length s) (12 + n - 4) (ground arith),
            drop-append_le 8 p s (omega arith),
            drop-append_le 12 p s (omega arith),
            drop-append_le (12 + n - 4) p s (ground arith),
            read_uint32-append (drop 8 p) s (omega (arith, length-drop 8 p)),
            take-append_le (n - 4) (drop 12 p) s (ground (arith, length-drop 12 p)),
          )
          refl
  ]
]

next_frame-Shrinks : (p : Bytes) → 0 < length p → Shrinks p (next_frame p)
unfolding next_frame
next_frame-Shrinks p h = ground (arith, next_body-Shrinks p (read_uint32 (drop 4 p)) h)

next_frame-Extends : (p s : Bytes) → Extends (next_frame p) s (next_frame (p ++ s))
unfolding next_frame
next_frame-Extends p s = elim (Bool-cases (ltb (length p) 4)) [
  | inl e ↦ rw e tt
  | inr e ↦ elim (Bool-cases (bytes_eq (take 4 p) magic)) [
    | inl m ↦ elim (Bool-cases (ltb (length p) 12)) [
      | inl l ↦ rw (e, m, l) tt
      | inr l ↦
          rw
            (
              e,
              m,
              l,
              length-append p s,
              ge→ltb (length p + length s) 4 (ground arith),
              take-append_le 4 p s (ground arith),
              m,
              ge→ltb (length p + length s) 12 (ground arith),
              drop-append_le 4 p s (ground arith),
              read_uint32-append (drop 4 p) s (ground (arith, length-drop 4 p)),
            )
            (next_body-Extends p s (read_uint32 (drop 4 p)) (ground arith))
    ]
    | inr m ↦
        rw
          (
            e,
            m,
            length-append p s,
            ge→ltb (length p + length s) 4 (ground arith),
            take-append_le 4 p s (ground arith),
            m,
          )
          refl
  ]
]

pub next-Shrinks : (c : ℕ) (cs : Bytes) → Shrinks (c ∷ cs) (next (c ∷ cs))
unfolding next
next-Shrinks c cs = elim (Bool-cases (eqb c b'O')) [
  | inl e ↦ rw e (next_frame-Shrinks (c ∷ cs) (omega arith))
  | inr e ↦ rw e (next_json-Shrinks c cs)
]

pub next-Extends : (c : ℕ) (cs s : Bytes) → Extends (next (c ∷ cs)) s (next (c ∷ (cs ++ s)))
unfolding next
next-Extends c cs s = elim (Bool-cases (eqb c b'O')) [
  | inl e ↦ rw e (next_frame-Extends (c ∷ cs) s)
  | inr e ↦ rw e (next_json-Extends (c ∷ cs) s)
]
