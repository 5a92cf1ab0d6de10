-- ===== src/Service/Table.antt =====
-- The buckets of connections (src/server/chatservice.cpp): every user has one entry, in its bucket.
use cluster_chat_server_with.Prelude.{
  ℕ, zero, suc, ◌<◌, ◌≡◌, ◌≢◌, refl, sym, ap, ◌∙◌, ◌⊎◌, inl, inr, Bool, true, false, [], ◌∷◌,
  Option, none, some, arith, length, get_or, set, length-set, get_or-set_self, get_or-set_ne, eqb,
  eqb_iff, if◌then◌else◌, ℤ, negsuc, int_eq, int_eq_iff, int_eq_inst, Map, find, assign, erase,
  find-assign, find-erase, Bool-cases, Option-cases, subst,
}
use cluster_chat_server_with.Service.Connections.{
  Conn, Buckets, pick_conn_bucket, pick_conn_bucket-length, pick_conn_bucket-lt,
  add_local_connection, remove_local_connection, find_conn, remove_local_connection_by_conn,
}

-- No user stands in the bucket twice.
abbrev pub IsUnique : Map ℤ Conn → Type 0
IsUnique [] = Unit
IsUnique ((user_id, conn) ∷ rest) = (find user_id rest ≡ none) × IsUnique rest

find-assign_ne :
    (k u : ℤ) (c : Conn) (m : Map ℤ Conn) → int_eq k u ≡ false → find u (assign k c m) ≡ find u m
find-assign_ne k u c m e = find-assign k u c m ∙ rw e refl

assign-IsUnique : (k : ℤ) (c : Conn) (m : Map ℤ Conn) → IsUnique m → IsUnique (assign k c m)
unfolding assign find
assign-IsUnique k c [] h = (refl, h)
assign-IsUnique k c ((u, d) ∷ m) h = elim (Bool-cases (int_eq u k)) [
  | inl e ↦ rw (e, assign) (subst (λ w. find w m ≡ none) ((int_eq_iff u k).0 e) h.0, h.1)
  | inr e ↦
      rw (e, assign)
        (
          find-assign_ne k u c m (ground (arith, int_eq_iff u k, int_eq_iff k u)) ∙ h.0,
          assign-IsUnique k c m h.1,
        )
]

none_either {ℓ} : {A : Type ℓ} (b : Bool) {x : Option A} → x ≡ none → (if b then none else x) ≡ none
none_either true e = refl
none_either false e = e

not_none {ℓ} :
    {A : Type ℓ} (b : Bool) {x : Option A} {a : A} → (if b then none else x) ≡ some a → x ≡ some a
not_none true e = absurd (cc)
not_none false e = e

erase-IsUnique : (k : ℤ) (m : Map ℤ Conn) → IsUnique m → IsUnique (erase k m)
unfolding erase
erase-IsUnique k [] h = h
erase-IsUnique k ((u, d) ∷ m) h = elim (Bool-cases (int_eq u k)) [
  | inl e ↦ rw (e, erase) (erase-IsUnique k m h.1)
  | inr e ↦ rw (e, erase) (find-erase k u m ∙ none_either (int_eq k u) h.0, erase-IsUnique k m h.1)
]

same_absent :
    (w u : ℤ) (m : Map ℤ Conn) {c : Conn} → find w m ≡ none → w ≡ u → find u m ≡ some c → ⊥
same_absent w u m h e f = cc

-- The search of a bucket by connection finds an entry, or there is none.
pub find_conn-found :
    (conn : Conn) (m : Map ℤ Conn) (u : ℤ)
    → IsUnique m
    → find_conn conn m ≡ some u
    → find u m ≡ some conn
unfolding find_conn find
find_conn-found conn [] u h e = absurd (cc)
find_conn-found conn ((w, d) ∷ m) u h e = elim (Bool-cases (eqb d conn)) [
  | inl s ↦ ground (arith, eqb_iff d conn, int_eq_iff w u)
  | inr s ↦
      let kept = find_conn-found conn m u h.1 (rw (s, find_conn) at e) in
      elim (Bool-cases (int_eq w u)) [
        | inl n ↦ absurd (same_absent w u m h.0 ((int_eq_iff w u).0 n) kept)
        | inr n ↦ rw n kept
      ]
]

pub find_conn-none :
    (conn : Conn) (m : Map ℤ Conn) (u : ℤ) → find_conn conn m ≡ none → find u m ≢ some conn
unfolding find_conn find
find_conn-none conn [] u e f = cc
find_conn-none conn ((w, d) ∷ m) u e f = ground (arith, eqb_iff d conn, find_conn-none conn m u)

-- Every user stands in its own bucket, and once in it.
abbrev pub IsOwn : Buckets → Type 0
IsOwn bs =
    (i : ℕ)
    → IsUnique (get_or bs i [])
      × ((u : ℤ) (c : Conn) → find u (get_or bs i []) ≡ some c → pick_conn_bucket bs u ≡ i)

module _ (bs : Buckets) (k : ℤ) (b : Map ℤ Conn) (h : 0 < length bs) (own : IsOwn bs) where
  -- A write to one bucket of a user of that bucket.
  set-IsOwn :
      IsUnique b
      → ((u : ℤ) (c : Conn) → find u b ≡ some c → pick_conn_bucket bs u ≡ pick_conn_bucket bs k)
      → IsOwn (set bs (pick_conn_bucket bs k) b)
  set-IsOwn unique placed i =
      let p = pick_conn_bucket bs k in
      let same : (u : ℤ) → pick_conn_bucket (set bs p b) u ≡ pick_conn_bucket bs u =
        λ u. pick_conn_bucket-length (set bs p b) bs u (length-set bs p b) in
      elim (Bool-cases (eqb p i)) [
        | inl e ↦
            let at_i : get_or (set bs p b) i [] ≡ b =
              ap (λ n. get_or (set bs p b) n []) (sym ((eqb_iff p i).0 e))
              ∙ get_or-set_self bs p b [] (pick_conn_bucket-lt bs k h) in
            (
              subst IsUnique (sym at_i) unique,
              λ u c f. same u ∙ placed u c (ap (find u) (sym at_i) ∙ f) ∙ (eqb_iff p i).0 e,
            )
        | inr e ↦
            let at_i : get_or (set bs p b) i [] ≡ get_or bs i [] =
              get_or-set_ne bs p i b [] (λ s. cc ((eqb_iff p i).1 s)) in
            (
              subst IsUnique (sym at_i) (own i).0,
              λ u c f. same u ∙ (own i).1 u c (ap (find u) (sym at_i) ∙ f),
            )
      ]

pub add_local_connection-IsOwn :
    (k : ℤ) (c : Conn) (bs : Buckets)
    → 0 < length bs
    → IsOwn bs
    → IsOwn (add_local_connection k c bs)
unfolding add_local_connection
add_local_connection-IsOwn k c bs h own =
    let p = pick_conn_bucket bs k in
    set-IsOwn bs k (assign k c (get_or bs p [])) h own (assign-IsUnique k c _ (own p).0) λ u d f.
      elim (Bool-cases (int_eq k u)) [
        | inl e ↦ ap (pick_conn_bucket bs) (sym ((int_eq_iff k u).0 e))
        | inr e ↦ (own p).1 u d (sym (find-assign_ne k u c _ e) ∙ f)
      ]

pub remove_local_connection-IsOwn :
    (k : ℤ) (bs : Buckets) → 0 < length bs → IsOwn bs → IsOwn (remove_local_connection k bs)
unfolding remove_local_connection
remove_local_connection-IsOwn k bs h own =
    let p = pick_conn_bucket bs k in
    set-IsOwn bs k (erase k (get_or bs p [])) h own (erase-IsUnique k _ (own p).0)
      λ u d f. (own p).1 u d (not_none (int_eq k u) (sym (find-erase k u _) ∙ f))

-- The close of a connection, on any buckets: nothing is found, or the first entry of one bucket.
abbrev pub NoneFound : Conn → Buckets → Type 0
NoneFound conn bs =
    ((i : ℕ) → find_conn conn (get_or bs i []) ≡ none)
    × (remove_local_connection_by_conn conn bs ≡ (negsuc 0, bs))

abbrev pub FoundAt : Conn → Buckets → Type 0
FoundAt conn bs =
    (i : ℕ) × (u : ℤ) × (find_conn conn (get_or bs i []) ≡ some u)
    × (remove_local_connection_by_conn conn bs ≡ (u, set bs i (erase u (get_or bs i []))))

pub remove_by_conn-cases : (conn : Conn) (bs : Buckets) → NoneFound conn bs ⊎ FoundAt conn bs
unfolding remove_local_connection_by_conn
remove_by_conn-cases conn [] = inl (λ i. refl, refl)
remove_by_conn-cases conn (b ∷ bs) = elim (Option-cases (find_conn conn b)) [
  | inl e ↦ elim (remove_by_conn-cases conn bs) [
    | inl (nowhere, r) ↦
        inl (λ i. cases_of b bs i e nowhere, rw (e, remove_local_connection_by_conn, r) refl)
    | inr (i, u, f, r) ↦ inr (suc i, u, f, rw (e, remove_local_connection_by_conn, r) refl)
  ]
  | inr (u, e) ↦ inr (zero, u, e, rw (e, remove_local_connection_by_conn) refl)
]
  where
    cases_of :
        (b : Map ℤ Conn) (bs : Buckets) (i : ℕ)
        → find_conn conn b ≡ none
        → ((j : ℕ) → find_conn conn (get_or bs j []) ≡ none)
        → find_conn conn (get_or (b ∷ bs) i []) ≡ none
    cases_of b bs zero e h = e
    cases_of b bs (suc i) e h = h i
