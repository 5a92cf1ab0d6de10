-- ===== src/Client/Stream.antt =====
-- How the connection cuts its bytes into chunks does not matter to the client.
use cluster_chat_server_with.Prelude.{
  ℕ, zero, suc, ◌+◌, ◌≤◌, ◌<◌, ◌≡◌, ◌≢◌, refl, subst, sym, ◌∙◌, ap, ◌⊎◌, inl, inr, Bool, true,
  false, List, [], ◌∷◌, ◌++◌, map, Option, none, some, arith, Bytes, All, length, take, drop,
  concat, append_assoc, append-nil, length-drop, take-append_le, drop-append_le, take-length_append,
  drop-length_append, Option-cases, Bool-cases, some_inj, ℤ, pos,
}
use cluster_chat_server_with.Reader.{up, down, later, scan_object, find_json_end}
use cluster_chat_server_with.Reader.Objects.{
  Body, object, nothing, print, IsBody, find_json_end-object,
}
use cluster_chat_server_with.Client.Receive.{is_blank, skip_blank, extract, on_receive, feed_reader}

later-some : (o : Option ℕ) (n : ℕ) → later 1 o ≡ some n → (m : ℕ) × (o ≡ some m) × (n ≡ 1 + m)
later-some none n e = absurd (cc)
later-some (some m) n e = (m, refl, sym (some_inj e))

-- An end that is found in a buffer is found in every longer one, and lies within the buffer.
Found : (Bytes → Option ℕ) → Bytes → Bytes → Type 0
Found scan p s = (n : ℕ) → scan p ≡ some n → (scan (p ++ s) ≡ some n) × (0 < n) × (n ≤ length p)

Found-later :
    (scan : Bytes → Option ℕ) (p s : Bytes) (n : ℕ)
    → Found scan p s
    → later 1 (scan p) ≡ some n
    → (later 1 (scan (p ++ s)) ≡ some n) × (0 < n) × (n ≤ suc (length p))
unfolding Found
Found-later scan p s n f e =
    let (m, h, k) = later-some (scan p) n e in
    let (more, low, high) = f m h in (rw (more, k) refl, omega arith, omega arith)

Found-scan : (d : ℤ) (i e : Bool) (p s : Bytes) → Found (scan_object d i e) p s
unfolding Found scan_object
Found-scan d i e [] s n h = absurd (cc)
Found-scan d i true (c ∷ cs) s n h =
    Found-later (scan_object d i false) cs s n (Found-scan d i false cs s) h
Found-scan d true false (c ∷ cs) s n h = ground (
  arith,
  Found-later (scan_object d true true) cs s n (Found-scan d true true cs s),
  Found-later (scan_object d false false) cs s n (Found-scan d false false cs s),
  Found-later (scan_object d true false) cs s n (Found-scan d true false cs s),
)
Found-scan d false false (c ∷ cs) s n h = ground (
  arith,
  Found-later (scan_object d true false) cs s n (Found-scan d true false cs s),
  Found-later (scan_object (up d) false false) cs s n (Found-scan (up d) false false cs s),
  Found-later (scan_object (down d) false false) cs s n (Found-scan (down d) false false cs s),
  Found-later (scan_object d false false) cs s n (Found-scan d false false cs s),
)

end-Found : (p s : Bytes) → Found find_json_end p s
unfolding find_json_end
end-Found p s = Found-scan (pos 0) false false p s

longer_end :
    (p s : Bytes) (n : ℕ)
    → find_json_end p ≡ some n
    → (find_json_end (p ++ s) ≡ some n) × (0 < n) × (n ≤ length p)
unfolding Found
longer_end p s = end-Found p s

skip_blank-append :
    (p s : Bytes)
    → ((skip_blank p ≡ []) × (skip_blank (p ++ s) ≡ skip_blank s))
      ⊎ ((skip_blank p ≢ []) × (skip_blank (p ++ s) ≡ skip_blank p ++ s))
unfolding skip_blank
skip_blank-append [] s = inl (refl, refl)
skip_blank-append (c ∷ cs) s = elim (Bool-cases (is_blank c)) [
  | inl e ↦ rw e (skip_blank-append cs s)
  | inr e ↦ inr (rw e (λ h. cc), rw e refl)
]

skip_blank-twice : (p : Bytes) → skip_blank (skip_blank p) ≡ skip_blank p
unfolding skip_blank
skip_blank-twice [] = refl
skip_blank-twice (c ∷ cs) = elim (Bool-cases (is_blank c)) [
  | inl e ↦ rw e (skip_blank-twice cs)
  | inr e ↦ rw (e, skip_blank, e) refl
]

length-skip_blank : (p : Bytes) → length (skip_blank p) ≤ length p
unfolding skip_blank
length-skip_blank [] = omega arith
length-skip_blank (c ∷ cs) = ground (arith, length-skip_blank cs)

skip_blank-again : (p s : Bytes) → skip_blank (skip_blank p ++ s) ≡ skip_blank (p ++ s)
skip_blank-again p s = elim (skip_blank-append p s) [
  | inl (e, f) ↦ ap (λ q. skip_blank (q ++ s)) e ∙ sym f
  | inr (n, f) ↦ elim (skip_blank-append (skip_blank p) s) [
    | inl (e, g) ↦ absurd (n (sym (skip_blank-twice p) ∙ e))
    | inr (m, g) ↦ g ∙ ap (λ q. q ++ s) (skip_blank-twice p) ∙ sym f
  ]
]

-- What the loop takes out of a buffer, and what it leaves.
pub data Extracts : Bytes → List Bytes → Bytes → Type 0 where
  stop : (p q : Bytes) → skip_blank p ≡ q → find_json_end q ≡ none → Extracts p [] q
  more :
      (p q : Bytes) (n : ℕ) {ts : List Bytes} {r : Bytes}
      → skip_blank p ≡ q
      → find_json_end q ≡ some n
      → Extracts (drop n q) ts r
      → Extracts p (take n q ∷ ts) r

Extracts-skip :
    {p q : Bytes} {ts : List Bytes} {r : Bytes}
    → skip_blank q ≡ skip_blank p
    → Extracts p ts r
    → Extracts q ts r
Extracts-skip e (stop p k h f) = stop _ k (e ∙ h) f
Extracts-skip e (more p k n h f x) = more _ k n (e ∙ h) f x

end_nil : (n : ℕ) → find_json_end [] ≡ some n → ⊥
unfolding find_json_end scan_object
end_nil n e = cc

Extracts-append :
    {p r q : Bytes} {ts us : List Bytes} (s : Bytes)
    → Extracts p ts r
    → Extracts (r ++ s) us q
    → Extracts (p ++ s) (ts ++ us) q
Extracts-append s (stop p k h f) y =
    Extracts-skip (sym (skip_blank-again p s) ∙ ap (λ z. skip_blank (z ++ s)) h) y
Extracts-append {q} {us} s (more p k n {ts} {r} h f x) y =
    let (longer, low, high) = longer_end k s n f in
    elim (skip_blank-append p s) [
      | inl (e, g) ↦ absurd (end_nil n (ap find_json_end (sym e ∙ h) ∙ f))
      | inr (m, g) ↦
          let rest : Extracts (drop n (k ++ s)) (ts ++ us) q =
            rw (drop-append_le n k s high) (Extracts-append s x y) in
          subst (λ z. Extracts (p ++ s) (z ∷ (ts ++ us)) q) (take-append_le n k s high)
            (more (p ++ s) (k ++ s) n (g ∙ ap (λ z. z ++ s) h) longer rest)
    ]

extract-more :
    (f : ℕ) (p : Bytes) (n : ℕ) {ts : List Bytes} {r : Bytes}
    → find_json_end (skip_blank p) ≡ some n
    → extract f (drop n (skip_blank p)) ≡ some (ts, r)
    → extract (suc f) p ≡ some (take n (skip_blank p) ∷ ts, r)
unfolding extract
extract-more f p n e g = rw (e, extract, g, extract) refl

extract-Extracts :
    {p : Bytes} {ts : List Bytes} {r : Bytes} (f : ℕ)
    → Extracts p ts r
    → length p < f
    → extract f p ≡ some (ts, r)
unfolding extract
extract-Extracts zero x l = absurd (omega arith)
extract-Extracts (suc f) (stop p k h e) l =
    rw (ap find_json_end h ∙ e, extract) (ap (λ z. some ([], z)) h)
extract-Extracts {ts = _} {r} (suc f) (more p k n {ts} h e x) l =
    let (_, low, high) = longer_end k [] n e in
    let shorter : length (drop n k) < f =
      omega (arith, length-drop n k, length-skip_blank p, ap length h) in
    extract-more f p n (ap find_json_end h ∙ e)
      (ap (λ z. extract f (drop n z)) h ∙ extract-Extracts f x shorter)
    ∙ ap (λ z. some (take n z ∷ ts, r)) h

-- The loop ends on every buffer.
Extracted : Bytes → Type 0
Extracted p = (ts : List Bytes) × (r : Bytes) × Extracts p ts r

extracted : (f : ℕ) (p : Bytes) → length p < f → Extracted p
unfolding Extracted
extracted zero p l = absurd (omega arith)
extracted (suc f) p l = elim (Option-cases (find_json_end (skip_blank p))) [
  | inl e ↦ ([], skip_blank p, stop p (skip_blank p) refl e)
  | inr (n, e) ↦
      let (_, low, high) = longer_end (skip_blank p) [] n e in
      let shorter : length (drop n (skip_blank p)) < f =
        omega (arith, length-drop n (skip_blank p), length-skip_blank p) in
      let (ts, r, x) = extracted f (drop n (skip_blank p)) shorter in
      (take n (skip_blank p) ∷ ts, r, more p (skip_blank p) n refl e x)
]

-- What is left gives nothing more until bytes arrive.
Extracts-settled : {p : Bytes} {ts : List Bytes} {r : Bytes} → Extracts p ts r → Extracts r [] r
Extracts-settled (stop p k h e) = stop k k (ap skip_blank (sym h) ∙ (skip_blank-twice p ∙ h)) e
Extracts-settled (more p k n h e x) = Extracts-settled x

feed-Extracts :
    (chunks : List Bytes) (p : Bytes)
    → Extracts p [] p
    → (ts : List Bytes) × (r : Bytes) × (feed_reader p chunks ≡ some (ts, r))
      × Extracts (p ++ concat chunks) ts r
unfolding feed_reader on_receive Extracted
feed-Extracts [] p x = ([], p, refl, rw (append-nil p) x)
feed-Extracts (chunk ∷ chunks) p x =
    let (ts, r, y) = extracted (suc (length (p ++ chunk))) (p ++ chunk) (omega arith) in
    let (us, q, e, z) = feed-Extracts chunks r (Extracts-settled y) in
    (
      ts ++ us,
      q,
      rw (extract-Extracts (suc (length (p ++ chunk))) y (omega arith), feed_reader, e, feed_reader)
          refl,
      rw (sym (append_assoc p chunk (concat chunks))) (Extracts-append (concat chunks) y z),
    )

-- The bytes of objects, one behind the other.
abbrev pub object_text : Body → Bytes
object_text b = print (object b nothing)

objects-Extracts :
    (bs : List Body)
    → All IsBody bs
    → Extracts (concat (map object_text bs)) (map object_text bs) []
unfolding skip_blank
objects-Extracts [] h = stop [] [] refl (unfold find_json_end scan_object in refl)
objects-Extracts (b ∷ bs) (h, hs) =
    let rest = concat (map object_text bs) in
    let n = length (object_text b) in
    let x : Extracts (drop n (object_text b ++ rest)) (map object_text bs) [] =
      rw (drop-length_append (object_text b) rest) (objects-Extracts bs hs) in
    subst (λ z. Extracts (object_text b ++ rest) (z ∷ map object_text bs) [])
      (take-length_append (object_text b) rest)
      (more (object_text b ++ rest) (object_text b ++ rest) n (unfold print in refl)
        (find_json_end-object b rest h) x)

-- Objects sent one behind the other without any mark between them, and cut into any chunks: the
-- client's loop takes out exactly their texts, in order, and keeps no bytes.
pub feed_reader-objects :
    (bs : List Body) (chunks : List Bytes)
    → All IsBody bs
    → concat chunks ≡ concat (map object_text bs)
    → feed_reader [] chunks ≡ some (map object_text bs, [])
feed_reader-objects bs chunks h e =
    let (ts, r, fed, x) = feed-Extracts chunks [] (objects-Extracts [] tt) in
    let long = suc (length (concat chunks)) in
    let y : Extracts (concat chunks) (map object_text bs) [] = rw e (objects-Extracts bs h) in
    fed ∙ sym (extract-Extracts long x (omega arith)) ∙ extract-Extracts long y (omega arith)
