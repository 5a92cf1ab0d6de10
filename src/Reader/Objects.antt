-- ===== src/Reader/Objects.antt =====
-- `findJsonEnd` finds the end of a JSON object, whatever its strings hold.
use cluster_chat_server_with.Prelude.{
  ℕ, suc, ◌+◌, ◌≡◌, ◌≢◌, refl, sym, ◌∙◌, ap, true, false, List, [], ◌∷◌, ◌++◌, Option, none, some,
  arith, Bytes, length, length-append, append_assoc, eqb, if◌then◌else◌, ℤ, pos,
}
use cluster_chat_server_with.Reader.{up, down, later, scan_object, find_json_end}

-- A character of a string: as it is, or behind a backslash.
pub data Letter : Type 0 where
  raw escaped : ℕ → Letter

-- What stands between the braces of an object: other bytes, strings, and objects, one after the
-- other.
pub data Body : Type 0 where
  nothing : Body
  other : ℕ → Body → Body
  quoted : List Letter → Body → Body
  object : Body → Body → Body

unfoldable pub print_letters : List Letter → Bytes
print_letters [] = b'"' ∷ []
print_letters (raw c ∷ ls) = c ∷ print_letters ls
print_letters (escaped c ∷ ls) = b'\\' ∷ c ∷ print_letters ls

unfoldable pub print : Body → Bytes
unfolding print_letters
print nothing = []
print (other c b) = c ∷ print b
print (quoted ls b) = b'"' ∷ (print_letters ls ++ print b)
print (object a b) = b'{' ∷ (print a ++ (b'}' ∷ print b))

-- Bytes that mean something to the scanner do not stand for themselves.
unfoldable pub AreRaw : List Letter → Type 0
AreRaw [] = Unit
AreRaw (raw c ∷ ls) = (c ≢ b'\\') × (c ≢ b'"') × AreRaw ls
AreRaw (escaped c ∷ ls) = AreRaw ls

unfoldable pub IsBody : Body → Type 0
unfolding AreRaw
IsBody nothing = Unit
IsBody (other c b) = (c ≢ b'"') × (c ≢ b'{') × (c ≢ b'}') × IsBody b
IsBody (quoted ls b) = AreRaw ls × IsBody b
IsBody (object a b) = IsBody a × IsBody b

later-later : (i j : ℕ) (o : Option ℕ) → later i (later j o) ≡ later (i + j) o
later-later i j none = refl
later-later i j (some n) = ap some (omega arith)

later_sum : (i j k : ℕ) (o : Option ℕ) → i + j ≡ k → later i (later j o) ≡ later k o
later_sum i j k o e = later-later i j o ∙ ap (λ n. later n o) e

later_zero : (o : Option ℕ) → later 0 o ≡ o
later_zero none = refl
later_zero (some n) = ap some (omega arith)

scan-letters :
    (d : ℤ) (ls : List Letter) (s : Bytes)
    → AreRaw ls
    → scan_object d true false (print_letters ls ++ s)
      ≡ later (length (print_letters ls)) (scan_object d false false s)
unfolding scan_object print_letters AreRaw
scan-letters d [] s h = refl
scan-letters d (raw c ∷ ls) s (n, q, h) =
    let e : (if eqb c b'\\'
          then later 1 (scan_object d true true (print_letters ls ++ s))
          else if eqb c b'"'
          then later 1 (scan_object d false false (print_letters ls ++ s))
          else later 1 (scan_object d true false (print_letters ls ++ s)))
        ≡ later 1 (scan_object d true false (print_letters ls ++ s)) =
      ground arith in
    e
    ∙ ap (later 1) (scan-letters d ls s h)
    ∙ later_sum 1 (length (print_letters ls)) (length (print_letters (raw c ∷ ls))) _ (omega arith)
scan-letters d (escaped c ∷ ls) s h =
    ap (λ o. later 1 (later 1 o)) (scan-letters d ls s h)
    ∙ ap (later 1) (later-later 1 (length (print_letters ls)) _)
    ∙ later_sum 1 (1 + length (print_letters ls)) (length (print_letters (escaped c ∷ ls))) _
        (omega arith)

plain :
    (d : ℤ) (c : ℕ) (cs : Bytes)
    → c ≢ b'"'
    → c ≢ b'{'
    → c ≢ b'}'
    → scan_object d false false (c ∷ cs) ≡ later 1 (scan_object d false false cs)
unfolding scan_object
plain d c cs q o e = ground arith

close :
    (n : ℕ) (cs : Bytes)
    → scan_object (pos (suc (suc n))) false false (b'}' ∷ cs)
      ≡ later 1 (scan_object (pos (suc n)) false false cs)
unfolding scan_object down
close n cs = ground arith

scan-body :
    (n : ℕ) (b : Body) (s : Bytes)
    → IsBody b
    → scan_object (pos (suc n)) false false (print b ++ s)
      ≡ later (length (print b)) (scan_object (pos (suc n)) false false s)
unfolding scan_object print IsBody up down
scan-body n nothing s h = sym (later_zero _)
scan-body n (other c b) s (q, o, e, h) =
    plain (pos (suc n)) c (print b ++ s) q o e
    ∙ ap (later 1) (scan-body n b s h)
    ∙ later_sum 1 (length (print b)) (length (print (other c b))) _ (omega arith)
scan-body n (quoted ls b) s (a, h) =
    ap (λ t. later 1 (scan_object (pos (suc n)) true false t))
      (append_assoc (print_letters ls) (print b) s)
    ∙ ap (later 1) (scan-letters (pos (suc n)) ls (print b ++ s) a)
    ∙ ap (λ o. later 1 (later (length (print_letters ls)) o)) (scan-body n b s h)
    ∙ ap (later 1) (later-later (length (print_letters ls)) (length (print b)) _)
    ∙ later_sum 1 (length (print_letters ls) + length (print b)) (length (print (quoted ls b))) _
        (omega (arith, length-append (print_letters ls) (print b)))
scan-body n (object a b) s (ha, hb) =
    ap (λ t. later 1 (scan_object (pos (suc (suc n))) false false t))
      (append_assoc (print a) (b'}' ∷ print b) s)
    ∙ ap (later 1) (scan-body (suc n) a (b'}' ∷ (print b ++ s)) ha)
    ∙ ap (λ o. later 1 (later (length (print a)) o)) (close n (print b ++ s))
    ∙ ap (λ o. later 1 (later (length (print a)) (later 1 o))) (scan-body n b s hb)
    ∙ ap (λ o. later 1 (later (length (print a)) o)) (later-later 1 (length (print b)) _)
    ∙ ap (later 1) (later-later (length (print a)) (1 + length (print b)) _)
    ∙ later_sum 1 (length (print a) + (1 + length (print b))) (length (print (object a b))) _
        (omega (arith, length-append (print a) (b'}' ∷ print b)))

-- In a buffer that begins with an object, whatever braces, quotation marks and backslashes its
-- strings hold and whatever follows it, the end that is found is the place behind the object's own
-- closing brace.
pub find_json_end-object :
    (b : Body) (rest : Bytes)
    → IsBody b
    → find_json_end (print (object b nothing) ++ rest) ≡ some (length (print (object b nothing)))
unfolding find_json_end scan_object print up down
find_json_end-object b rest h =
    ap (λ t. later 1 (scan_object (pos 1) false false t)) (append_assoc (print b) (b'}' ∷ []) rest)
    ∙ ap (later 1) (scan-body 0 b (b'}' ∷ rest) h)
    ∙ ap some (omega (arith, length-append (print b) (b'}' ∷ [])))
