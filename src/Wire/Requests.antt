-- ===== src/Wire/Requests.antt =====
-- What the client loop takes out of a stream, told byte by byte, and that chunks do not matter.
use cluster_chat_server_with.Prelude.{
  ℕ, zero, suc, ◌+◌, ◌<◌, ◌≡◌, refl, sym, ◌∙◌, ap, inl, inr, ◌⊎◌, List, [], ◌∷◌, ◌++◌, none, some,
  arith, Bytes, length, take, drop, length-drop, eqb, if◌then◌else◌, append_assoc, append-nil,
  concat, Option-cases, some_inj,
}
use cluster_chat_server_with.Wire.Receive.{find_nul}
use cluster_chat_server_with.Wire.Client.{split, on_client_message, feed_client}

abbrev keep : Bytes → List Bytes × Bytes → List Bytes × Bytes
keep [] r = r
keep (c ∷ cs) (texts, rest) = ((c ∷ cs) ∷ texts, rest)

-- The requests of a stream: the texts between NULs, without the empty ones, and the open tail.
-- `text` is what was read since the last NUL.
unfoldable pub scan : Bytes → Bytes → List Bytes × Bytes
scan text [] = ([], text)
scan text (zero ∷ cs) = keep text (scan [] cs)
scan text (suc c ∷ cs) = scan (text ++ suc c ∷ []) cs

abbrev before : List Bytes → List Bytes × Bytes → List Bytes × Bytes
before texts (more, rest) = (texts ++ more, rest)

before-keep :
    (text : Bytes) (r : List Bytes × Bytes) (s : List Bytes × Bytes)
    → keep text (before r.0 s) ≡ before (keep text r).0 s
before-keep [] r s = refl
before-keep (c ∷ cs) r s = refl

keep-rest : (text : Bytes) (r : List Bytes × Bytes) → (keep text r).1 ≡ r.1
keep-rest [] r = refl
keep-rest (c ∷ cs) r = refl

scan-append :
    (p s text : Bytes) → scan text (p ++ s) ≡ before (scan text p).0 (scan (scan text p).1 s)
unfolding scan
scan-append [] s text = refl
scan-append (zero ∷ cs) s text =
    rw (scan-append cs s [], keep-rest text (scan [] cs)) (before-keep text (scan [] cs) _)
scan-append (suc c ∷ cs) s text = scan-append cs s (text ++ suc c ∷ [])

find_nul-suc :
    (c : ℕ) (cs : Bytes)
    → ((find_nul (suc c ∷ cs) ≡ none) × (find_nul cs ≡ none))
      ⊎ ((j : ℕ) × (find_nul (suc c ∷ cs) ≡ some (suc j)) × (find_nul cs ≡ some j))
unfolding find_nul
find_nul-suc c cs = elim (Option-cases (find_nul cs)) [
  | inl e ↦ inl (ground arith, e)
  | inr (j, e) ↦ inr (j, ground arith, e)
]

scan-no_nul : (p text : Bytes) → find_nul p ≡ none → scan text p ≡ ([], text ++ p)
unfolding scan
scan-no_nul [] text e = rw append-nil
scan-no_nul (zero ∷ cs) text e = absurd (unfold find_nul in cc)
scan-no_nul (suc c ∷ cs) text e = elim (find_nul-suc c cs) [
  | inl (_, h) ↦ scan-no_nul cs (text ++ suc c ∷ []) h ∙ rw append_assoc
  | inr (j, h, _) ↦ absurd (cc)
]

scan-nul :
    (p text : Bytes) (i : ℕ)
    → find_nul p ≡ some i
    → scan text p ≡ keep (text ++ take i p) (scan [] (drop (i + 1) p))
unfolding scan
scan-nul [] text i e = absurd (unfold find_nul in cc)
scan-nul (zero ∷ cs) text i e =
    let first : i ≡ 0 = unfold find_nul in sym (some_inj e) in rw (first, append-nil) refl
scan-nul (suc c ∷ cs) text i e = elim (find_nul-suc c cs) [
  | inl (h, _) ↦ absurd (cc)
  | inr (j, h, k) ↦
      let shift : i ≡ suc j = some_inj (sym e ∙ h) in
      let next : suc j + 1 ≡ suc (j + 1) = omega arith in
      rw (shift, next) (scan-nul cs (text ++ suc c ∷ []) j k ∙ rw append_assoc)
]

find_nul-lt : (p : Bytes) (i : ℕ) → find_nul p ≡ some i → i < length p
find_nul-lt [] i e = absurd (unfold find_nul in cc)
find_nul-lt (zero ∷ cs) i e = let first : i ≡ 0 = unfold find_nul in sym (some_inj e) in omega arith
find_nul-lt (suc c ∷ cs) i e = elim (find_nul-suc c cs) [
  | inl (h, _) ↦ absurd (cc)
  | inr (j, h, k) ↦
      let shift : i ≡ suc j = some_inj (sym e ∙ h) in omega (arith, find_nul-lt cs j k)
]

-- `if (end > start)` keeps the text unless it is empty.
keep-take :
    (p : Bytes) (i : ℕ) (r : List Bytes × Bytes)
    → i < length p
    → ◌≡◌ {A = List Bytes × Bytes}
        (if eqb i 0 then r.0 else take i p ∷ r.0, r.1)
        (keep (take i p) r)
keep-take [] i r h = elim h [ ]
keep-take (c ∷ cs) zero r h = refl
keep-take (c ∷ cs) (suc i) r h = ground arith

pub split-scan : (f : ℕ) (p : Bytes) → length p < f → split f p ≡ some (scan [] p)
unfolding split
split-scan zero p h = absurd (omega arith)
split-scan (suc f) p h = elim (Option-cases (find_nul p)) [
  | inl e ↦ rw (e, split, scan-no_nul p [] e)
  | inr (i, e) ↦
      let shorter : length (drop (i + 1) p) < f =
        omega (arith, length-drop (i + 1) p, find_nul-lt p i e) in
      rw (e, split, split-scan f (drop (i + 1) p) shorter, scan-nul p [] i e)
        (ap some (keep-take p i (scan [] (drop (i + 1) p)) (find_nul-lt p i e)))
]

-- What the loop leaves holds no NUL, so that the next event goes on where this one stopped.
scan_again :
    (p text : Bytes) → scan [] text ≡ ([], text) → scan [] (scan text p).1 ≡ ([], (scan text p).1)
unfolding scan
scan_again [] text h = h
scan_again (zero ∷ cs) text h = rw (keep-rest text (scan [] cs)) (scan_again cs [] refl)
scan_again (suc c ∷ cs) text h =
    scan_again cs (text ++ suc c ∷ []) (scan-append text (suc c ∷ []) [] ∙ rw h refl)

feed_client-scan :
    (chunks : List Bytes) (p : Bytes)
    → scan [] p ≡ ([], p)
    → feed_client p chunks ≡ some (scan p (concat chunks))
unfolding feed_client on_client_message
feed_client-scan [] p h = unfold scan in refl
feed_client-scan (chunk ∷ chunks) p h =
    let same : scan [] (p ++ chunk) ≡ scan p chunk = scan-append p chunk [] ∙ rw h refl in
    let now : split (suc (length (p ++ chunk))) (p ++ chunk) ≡ some (scan p chunk) =
      split-scan (suc (length (p ++ chunk))) (p ++ chunk) (omega arith) ∙ ap some same in
    rw
      (
        now,
        feed_client,
        feed_client-scan chunks (scan p chunk).1 (scan_again chunk p h),
        feed_client,
        scan-append chunk (concat chunks) p,
      )
      refl

-- For every stream and every way to cut it into chunks, the loop handles the requests that `scan`
-- reads off the whole stream, in order, and keeps the open tail.
pub feed_client-chunks :
    (chunks : List Bytes) → feed_client [] chunks ≡ some (scan [] (concat chunks))
feed_client-chunks chunks = feed_client-scan chunks [] (unfold scan in refl)
