-- ===== src/Service/Connections.antt =====
-- The table of the node's clients, cut into buckets by user (src/server/chatservice.cpp).
use cluster_chat_server_with.Prelude.{
  ℕ, zero, suc, ◌%◌, ◌<◌, ◌≡◌, ◌≢◌, refl, ap, ◌∙◌, inl, inr, false, List, [], ◌∷◌, Option, none,
  some, arith, length, get_or, set, length-set, get_or-set_self, get_or-set_ne, eqb, eqb_iff,
  if◌then◌else◌, ℤ, negsuc, abs, int_eq, int_eq_iff, int_eq_inst, Map, find, assign, erase,
  find-assign, find-erase, Bool-cases, Option-cases,
}

-- A connection is a pointer.
abbrev pub Conn : Type 0
Conn = ℕ

abbrev pub Buckets : Type 0
Buckets = List (Map ℤ Conn)

-- `pickConnBucket`; `connBucketCount_` is the number of buckets.
unfoldable pub pick_conn_bucket : Buckets → ℤ → ℕ
pick_conn_bucket bs user_id = if eqb (length bs) 0 then 0 else abs user_id % length bs

abbrev pub bucket_of : Buckets → ℤ → Map ℤ Conn
bucket_of bs user_id = get_or bs (pick_conn_bucket bs user_id) []

unfoldable pub add_local_connection : ℤ → Conn → Buckets → Buckets
unfolding pick_conn_bucket
add_local_connection user_id conn bs =
    set bs (pick_conn_bucket bs user_id)
      (assign user_id conn (get_or bs (pick_conn_bucket bs user_id) []))

unfoldable pub remove_local_connection : ℤ → Buckets → Buckets
unfolding pick_conn_bucket
remove_local_connection user_id bs =
    set bs (pick_conn_bucket bs user_id)
      (erase user_id (get_or bs (pick_conn_bucket bs user_id) []))

unfoldable pub get_local_connection : ℤ → Buckets → Option Conn
unfolding pick_conn_bucket
get_local_connection user_id bs = find user_id (get_or bs (pick_conn_bucket bs user_id) [])

-- The inner loop of `removeLocalConnectionByConn`: the first entry with this connection.
unfoldable pub find_conn : Conn → Map ℤ Conn → Option ℤ
find_conn conn [] = none
find_conn conn ((user_id, c) ∷ rest) = if eqb c conn then some user_id else find_conn conn rest

-- `removeLocalConnectionByConn`; -1 when no bucket holds the connection.
unfoldable pub remove_local_connection_by_conn : Conn → Buckets → ℤ × Buckets
unfolding find_conn
remove_local_connection_by_conn conn [] = (negsuc 0, [])
remove_local_connection_by_conn conn (b ∷ bs) =
    let (found, rest) = remove_local_connection_by_conn conn bs in
    elim (find_conn conn b) [
      | none ↦ (found, b ∷ rest)
      | some user_id ↦ (user_id, erase user_id b ∷ bs)
    ]

pub pick_conn_bucket-lt : (bs : Buckets) (u : ℤ) → 0 < length bs → pick_conn_bucket bs u < length bs
unfolding pick_conn_bucket
pick_conn_bucket-lt bs u h = ground arith

pub pick_conn_bucket-length :
    (bs cs : Buckets) (u : ℤ)
    → length bs ≡ length cs
    → pick_conn_bucket bs u ≡ pick_conn_bucket cs u
unfolding pick_conn_bucket
pick_conn_bucket-length bs cs u e = rw e refl

-- A write to the bucket of user `k`, seen by user `u`.
module _ (bs : Buckets) (k u : ℤ) (b : Map ℤ Conn) (h : 0 < length bs) where
  set_same :
      pick_conn_bucket bs k ≡ pick_conn_bucket bs u
      → bucket_of (set bs (pick_conn_bucket bs k) b) u ≡ b
  set_same e =
      rw
        (
          pick_conn_bucket-length (set bs (pick_conn_bucket bs k) b) bs u
              (length-set bs (pick_conn_bucket bs k) b),
          e,
        )
        (get_or-set_self bs (pick_conn_bucket bs u) b [] (pick_conn_bucket-lt bs u h))

  set_other :
      pick_conn_bucket bs k ≢ pick_conn_bucket bs u
      → bucket_of (set bs (pick_conn_bucket bs k) b) u ≡ bucket_of bs u
  set_other n =
      rw
        (pick_conn_bucket-length (set bs (pick_conn_bucket bs k) b) bs u
          (length-set bs (pick_conn_bucket bs k) b))
        (get_or-set_ne bs (pick_conn_bucket bs k) (pick_conn_bucket bs u) b [] n)

apart :
    (bs : Buckets) (k u : ℤ) → pick_conn_bucket bs k ≢ pick_conn_bucket bs u → int_eq k u ≡ false
apart bs k u n = elim (Bool-cases (int_eq k u)) [
  | inl e ↦ absurd (n (ap (pick_conn_bucket bs) ((int_eq_iff k u).0 e)))
  | inr e ↦ e
]

pub get-add :
    (bs : Buckets) (k u : ℤ) (conn : Conn)
    → 0 < length bs
    → get_local_connection u (add_local_connection k conn bs)
      ≡ (if int_eq k u then some conn else get_local_connection u bs)
unfolding get_local_connection add_local_connection
get-add bs k u conn h = elim (Bool-cases (eqb (pick_conn_bucket bs k) (pick_conn_bucket bs u))) [
  | inl e ↦
      let same = (eqb_iff (pick_conn_bucket bs k) (pick_conn_bucket bs u)).0 e in
      ap (find u) (set_same bs k u (assign k conn (bucket_of bs k)) h same)
      ∙ find-assign k u conn (bucket_of bs k)
      ∙ rw same refl
  | inr e ↦
      let other : pick_conn_bucket bs k ≢ pick_conn_bucket bs u =
        λ s. cc ((eqb_iff (pick_conn_bucket bs k) (pick_conn_bucket bs u)).1 s) in
      ap (find u) (set_other bs k u (assign k conn (bucket_of bs k)) h other)
      ∙ rw (apart bs k u other) refl
]

pub get-remove :
    (bs : Buckets) (k u : ℤ)
    → 0 < length bs
    → get_local_connection u (remove_local_connection k bs)
      ≡ (if int_eq k u then none else get_local_connection u bs)
unfolding get_local_connection remove_local_connection
get-remove bs k u h = elim (Bool-cases (eqb (pick_conn_bucket bs k) (pick_conn_bucket bs u))) [
  | inl e ↦
      let same = (eqb_iff (pick_conn_bucket bs k) (pick_conn_bucket bs u)).0 e in
      ap (find u) (set_same bs k u (erase k (bucket_of bs k)) h same)
      ∙ find-erase k u (bucket_of bs k)
      ∙ rw same refl
  | inr e ↦
      let other : pick_conn_bucket bs k ≢ pick_conn_bucket bs u =
        λ s. cc ((eqb_iff (pick_conn_bucket bs k) (pick_conn_bucket bs u)).1 s) in
      ap (find u) (set_other bs k u (erase k (bucket_of bs k)) h other)
      ∙ rw (apart bs k u other) refl
]

-- With at least one bucket, the buckets together are one map: after a connection of user `k` is
-- added, `k` has it and every other user has what they had; after the removal, `k` has none and
-- every other user has what they had.
pub get_local_connection-one_map :
    (bs : Buckets) (k u : ℤ) (conn : Conn)
    → 0 < length bs
    → (get_local_connection u (add_local_connection k conn bs)
        ≡ (if int_eq k u then some conn else get_local_connection u bs))
      × (get_local_connection u (remove_local_connection k bs)
          ≡ (if int_eq k u then none else get_local_connection u bs))
get_local_connection-one_map bs k u conn h = (get-add bs k u conn h, get-remove bs k u h)

remove_by_conn-find :
    (conn : Conn) (bs : Buckets) (u : ℤ) (i : ℕ)
    → int_eq (remove_local_connection_by_conn conn bs).0 u ≡ false
    → find u (get_or (remove_local_connection_by_conn conn bs).1 i []) ≡ find u (get_or bs i [])
unfolding remove_local_connection_by_conn
remove_by_conn-find conn [] u i h = refl
remove_by_conn-find conn (b ∷ bs) u i h = elim (Option-cases (find_conn conn b)) [
  | inl e ↦
      rw (e, remove_local_connection_by_conn)
        (in_rest b bs (remove_local_connection_by_conn conn bs).1 i
          λ j. remove_by_conn-find conn bs u j (rw (e, remove_local_connection_by_conn) at h))
  | inr (k, e) ↦
      rw (e, remove_local_connection_by_conn)
        (in_front b (erase k b) bs i
          (find-erase k u b ∙ rw (rw (e, remove_local_connection_by_conn) at h) refl))
]
  where
    in_rest :
        (b : Map ℤ Conn) (bs cs : Buckets) (i : ℕ)
        → ((j : ℕ) → find u (get_or cs j []) ≡ find u (get_or bs j []))
        → find u (get_or (b ∷ cs) i []) ≡ find u (get_or (b ∷ bs) i [])
    in_rest b bs cs zero h = refl
    in_rest b bs cs (suc i) h = h i

    in_front :
        (b c : Map ℤ Conn) (bs : Buckets) (i : ℕ)
        → find u c ≡ find u b
        → find u (get_or (c ∷ bs) i []) ≡ find u (get_or (b ∷ bs) i [])
    in_front b c bs zero h = h
    in_front b c bs (suc i) h = refl

pub remove_by_conn-length :
    (conn : Conn) (bs : Buckets) → length (remove_local_connection_by_conn conn bs).1 ≡ length bs
unfolding remove_local_connection_by_conn
remove_by_conn-length conn [] = refl
remove_by_conn-length conn (b ∷ bs) = ground (arith, remove_by_conn-length conn bs)

-- The close of a connection takes at most the user that it returns out of the table: every other
-- user keeps what they had, also another user of the same connection.
remove_local_connection_by_conn-others :
    (conn : Conn) (bs : Buckets) (u : ℤ)
    → int_eq (remove_local_connection_by_conn conn bs).0 u ≡ false
    → get_local_connection u (remove_local_connection_by_conn conn bs).1 ≡ get_local_connection u bs
unfolding get_local_connection
remove_local_connection_by_conn-others conn bs u h =
    ap (λ i. find u (get_or (remove_local_connection_by_conn conn bs).1 i []))
      (pick_conn_bucket-length _ bs u (remove_by_conn-length conn bs))
    ∙ remove_by_conn-find conn bs u (pick_conn_bucket bs u) h
