-- ===== src/Text.antt =====
-- What the source uses of `std::string`: literals, `to_string`, `rfind`.
use Prim.Native.Char.{code}
use Prim.Native.String.{String}
use cluster_chat_server_with.Prelude.{
  ℕ, zero, suc, ◌+◌, ◌-◌, ◌*◌, ◌/◌, ◌%◌, ◌≤◌, ◌<◌, ◌≡◌, ◌≢◌, refl, sym, ap, ◌∙◌, [], ◌∷◌, ◌++◌,
  Option, none, some, arith, Bytes, length, take, drop, eqb, ltb, if◌then◌else◌, ℤ, pos, negsuc,
  All, Bool-cases, some_inj, subst, take-length_append, drop-length_append, inl, inr,
}

-- The bytes of a literal (all of them are ASCII).
abbrev pub codes : String → Bytes
codes String.[] = []
codes (String.◌∷◌ c s) = code c ∷ codes s

-- The decimal digits of a number, on fuel above it.
unfoldable pub digits_of : ℕ → ℕ → Bytes
digits_of zero n = []
digits_of (suc f) n =
    let front = digits_of f (n / 10) in
    if ltb n 10 then (48 + n) ∷ [] else front ++ (48 + n % 10) ∷ []

unfoldable pub decimal : ℕ → Bytes
unfolding digits_of
decimal n = digits_of (suc n) n

-- `to_string` of an int.
unfoldable pub to_string : ℤ → Bytes
unfolding decimal
to_string (pos n) = decimal n
to_string (negsuc n) = b'-' ∷ decimal (suc n)

-- `rfind(b)`: the last place.
unfoldable pub rfind : ℕ → Bytes → Option ℕ
rfind b [] = none
rfind b (c ∷ cs) = elim (rfind b cs) [
  | some i ↦ some (suc i)
  | none ↦ if eqb c b then some 0 else none
]

unfoldable pub value : ℕ → Bytes → ℕ
value acc [] = acc
value acc (c ∷ cs) = value (acc * 10 + (c - 48)) cs

value-append : (acc c : ℕ) (xs : Bytes) → value acc (xs ++ c ∷ []) ≡ value acc xs * 10 + (c - 48)
unfolding value
value-append acc c [] = refl
value-append acc c (x ∷ xs) = value-append (acc * 10 + (x - 48)) c xs

pub value-digits_of : (f n : ℕ) → n < f → value 0 (digits_of f n) ≡ n
unfolding digits_of
value-digits_of zero n h = absurd (omega arith)
value-digits_of (suc f) n h = elim (Bool-cases (ltb n 10)) [
  | inl e ↦ rw e (unfold value in omega arith)
  | inr e ↦
      rw
        (
          e,
          value-append 0 (48 + n % 10) (digits_of f (n / 10)),
          value-digits_of f (n / 10) (ground arith),
        )
        (omega arith)
]

pub decimal_injective : (m n : ℕ) → decimal m ≡ decimal n → m ≡ n
unfolding decimal
decimal_injective m n e =
    sym (value-digits_of (suc m) m (omega arith))
    ∙ ap (value 0) e
    ∙ value-digits_of (suc n) n (omega arith)

abbrev pub IsDigits : Bytes → Type 0
IsDigits = All (λ c. (48 ≤ c) × (c ≤ 57))

IsDigits-concat : (xs : Bytes) (c : ℕ) → IsDigits xs → 48 ≤ c → c ≤ 57 → IsDigits (xs ++ c ∷ [])
IsDigits-concat [] c h l u = ((l, u), tt)
IsDigits-concat (x ∷ xs) c h l u = (h.0, IsDigits-concat xs c h.1 l u)

digits_of-IsDigits : (f n : ℕ) → IsDigits (digits_of f n)
unfolding digits_of
digits_of-IsDigits zero n = tt
digits_of-IsDigits (suc f) n = elim (Bool-cases (ltb n 10)) [
  | inl e ↦ rw e ((omega arith, ground arith), tt)
  | inr e ↦ rw e (IsDigits-concat _ _ (digits_of-IsDigits f (n / 10)) (omega arith) (omega arith))
]

pub decimal-IsDigits : (n : ℕ) → IsDigits (decimal n)
unfolding decimal
decimal-IsDigits n = digits_of-IsDigits (suc n) n

pub rfind-none : (b : ℕ) (s : Bytes) → All (λ c. c ≢ b) s → rfind b s ≡ none
unfolding rfind
rfind-none b [] h = refl
rfind-none b (c ∷ cs) h = rw (rfind-none b cs h.1, rfind) (ground (arith, h.0))

-- The last mark is the one behind which no other stands.
pub rfind-last : (b : ℕ) (a d : Bytes) → All (λ c. c ≢ b) d → rfind b (a ++ b ∷ d) ≡ some (length a)
unfolding rfind
rfind-last b [] d h = rw (rfind-none b d h, rfind) (ground arith)
rfind-last b (c ∷ cs) d h = rw (rfind-last b cs d h, rfind) refl

not_digit : (b : ℕ) (s : Bytes) → b < 48 → IsDigits s → All (λ c. c ≢ b) s
not_digit b [] l h = tt
not_digit b (c ∷ cs) l h = (omega (arith, h.0.0), not_digit b cs l h.1)

-- A mark that is no digit, in front of a number, splits a text in one way.
pub mark_decimal_injective :
    (b : ℕ) (s t : Bytes) (m n : ℕ)
    → b < 48
    → s ++ b ∷ decimal m ≡ t ++ b ∷ decimal n
    → (s ≡ t) × (m ≡ n)
mark_decimal_injective b s t m n l e =
    let lens : length s ≡ length t = some_inj (
      sym (rfind-last b s (decimal m) (not_digit b (decimal m) l (decimal-IsDigits m)))
      ∙ ap (rfind b) e
      ∙ rfind-last b t (decimal n) (not_digit b (decimal n) l (decimal-IsDigits n))) in
    let heads : s ≡ t =
      sym (take-length_append s (b ∷ decimal m))
      ∙ ap (take (length s)) e
      ∙ rw lens (take-length_append t (b ∷ decimal n)) in
    let tails : ◌≡◌ {A = Bytes} (b ∷ decimal m) (b ∷ decimal n) =
      sym (drop-length_append s (b ∷ decimal m))
      ∙ ap (drop (length s)) e
      ∙ rw lens (drop-length_append t (b ∷ decimal n)) in
    (heads, decimal_injective m n (cc))

pub value-decimal : (n : ℕ) → value 0 (decimal n) ≡ n
unfolding decimal
value-decimal n = value-digits_of (suc n) n (omega arith)

no_sign : (m : ℕ) (s : Bytes) → decimal m ≡ b'-' ∷ s → ⊥
no_sign m s e = omega (arith, (subst IsDigits e (decimal-IsDigits m)).0.0)

-- Two ints with one decimal text are one int.
pub to_string_injective : (a b : ℤ) → to_string a ≡ to_string b → a ≡ b
unfolding to_string
to_string_injective (pos m) (pos n) e = ap pos (decimal_injective m n e)
to_string_injective (pos m) (negsuc n) e = absurd (no_sign m (decimal (suc n)) e)
to_string_injective (negsuc m) (pos n) e = absurd (no_sign n (decimal (suc m)) (sym e))
to_string_injective (negsuc m) (negsuc n) e =
    ap negsuc (omega (arith, decimal_injective (suc m) (suc n) (ap (drop 1) e)))
