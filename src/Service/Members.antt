-- ===== src/Service/Members.antt =====
-- Every member of a group gets a message once.
use cluster_chat_server_with.Prelude.{
  ap, All, ℕ, ◌+◌, ◌≡◌, refl, ◌∙◌, inl, inr, Bool, List, [], ◌∷◌, ◌++◌, map, Option, none, some,
  arith, Bytes, length, append_assoc, append-nil, if◌then◌else◌, if_cases, ℤ, int_eq, find, assign,
  bytes_eq, bytes_eq_inst, Bool-cases,
}
use cluster_chat_server_with.Types.{NodeMeta}
use cluster_chat_server_with.Service.Connections.{Conn, Buckets, get_local_connection}
use cluster_chat_server_with.Service.Dispatch.{Task}
use cluster_chat_server_with.Service.Chat.{
  Peers, Node, peers, count_local, count_stale, is_self, resolve, store_offline,
}
use cluster_chat_server_with.Service.Group.{
  Groups, users_at, push_user, sort_member, split_local, place, resolve_each, send_local,
  store_each,
}

-- How often a user stands in a list, and in the lists of all nodes.
abbrev pub times : ℤ → List ℤ → ℕ
times x [] = 0
times x (y ∷ ys) = (if int_eq y x then 1 else 0) + times x ys

abbrev pub times_in : ℤ → Groups → ℕ
times_in x [] = 0
times_in x ((n, us) ∷ rest) = times x us + times_in x rest

pub times-append : (x : ℤ) (s t : List ℤ) → times x (s ++ t) ≡ times x s + times x t
times-append x [] t = omega arith
times-append x (y ∷ ys) t = omega (arith, times-append x ys t)

times_in-assign :
    (x : ℤ) (n : Bytes) (us : List ℤ) (g : Groups)
    → times_in x (assign n us g) + times x (users_at n g) ≡ times_in x g + times x us
unfolding find assign
times_in-assign x n us [] = omega arith
times_in-assign x n us ((k, vs) ∷ rest) = elim (Bool-cases (bytes_eq k n)) [
  | inl e ↦ rw (e, users_at, find) (omega arith)
  | inr e ↦ rw (e, users_at, find) (omega (arith, times_in-assign x n us rest))
]

times_in-push :
    (x : ℤ) (n : Bytes) (id : ℤ) (g : Groups)
    → times_in x (push_user n id g) ≡ times_in x g + times x (id ∷ [])
unfolding push_user
times_in-push x n id g = omega (
  arith,
  times_in-assign x n (users_at n g ++ id ∷ []) g,
  times-append x (users_at n g) (id ∷ []),
)

-- Users with the connections that the table has for them.
abbrev pub Connected : Buckets → List (ℤ × Conn) → Type 0
Connected bs here = All (λ (h : ℤ × Conn). get_local_connection h.0 bs ≡ some h.1) here

abbrev pub users_of : List (ℤ × Conn) → List ℤ
users_of here = map (λ h. h.0) here

abbrev pub conns_of : List (ℤ × Conn) → List Conn
conns_of here = map (λ h. h.1) here

-- The members with a connection here, told apart.
pub split-times :
    (ids : List ℤ) (bs : Buckets)
    → (here : List (ℤ × Conn)) × ((split_local ids bs).0 ≡ conns_of here)
      × Connected bs here
      × ((x : ℤ) → times x (users_of here) + times x (split_local ids bs).1 ≡ times x ids)
unfolding split_local
split-times [] bs = ([], refl, tt, λ x. refl)
split-times (id ∷ rest) bs =
    sorted (get_local_connection id bs) (split_local rest bs) refl (split-times rest bs)
  where
    sorted :
        (c : Option Conn) (r : List Conn × List ℤ)
        → get_local_connection id bs ≡ c
        → ((here : List (ℤ × Conn)) × (r.0 ≡ conns_of here)
            × Connected bs here
            × ((x : ℤ) → times x (users_of here) + times x r.1 ≡ times x rest))
        → (here : List (ℤ × Conn)) × ((sort_member c id r).0 ≡ conns_of here)
          × Connected bs here
          × ((x : ℤ)
              → times x (users_of here) + times x (sort_member c id r).1 ≡ times x (id ∷ rest))
    sorted none (conns, ids) e (here, l, all, t) = (here, l, all, λ x. omega (arith, t x))
    sorted (some c) (conns, ids) e (here, l, all, t) =
        ((id, c) ∷ here, ap (λ cs. c ∷ cs) l, (e, all), λ x. omega (arith, t x))

-- The message on each of the connections.
abbrev pub on_each : List Conn → Bytes → List Task
on_each conns msg = map (λ c. record { conn = c; msg = msg }) conns

module _ (p : Peers) (loop_of : Conn → ℕ) (in_loop : ℕ → Bool) where
  abbrev G : Type 0
  G = Node p loop_of in_loop

  -- The messages delivered here and sent to other nodes, those stored, and what was written to the
  -- clients, are the same.
  abbrev pub Same : G → G → Type 0
  Same s t =
      (t.local_delivery_count ≡ s.local_delivery_count)
      × (t.remote_route_count ≡ s.remote_route_count)
      × (t.stored ≡ s.stored)
      × (t.outbox ≡ s.outbox)

  Same-trans : (s t r : G) → Same s t → Same t r → Same s r
  Same-trans s t r (a, b, c, d) (a1, b1, c1, d1) = (a1 ∙ a, b1 ∙ b, c1 ∙ c, d1 ∙ d)

  resolve-Same : (u : ℤ) (s : G) → Same s (resolve p loop_of in_loop u s).1
  unfolding resolve peers
  resolve-Same u s = ground arith

  -- What the second loop makes of its two lists, whatever the registry answers.
  unfoldable pub Placed : List ℤ → Groups → List ℤ → G → (Groups × List ℤ) × G → Type 0
  Placed ids g off s r =
      Same s r.1
      × ((x : ℤ) → times_in x r.0.0 + times x r.0.1 ≡ times_in x g + times x off + times x ids)

  place-Placed :
      (found : Option (Bytes × NodeMeta)) (id : ℤ) (g : Groups) (off : List ℤ) (s : G)
      → Placed (id ∷ []) g off s (place p loop_of in_loop found id g off s)
  unfolding place Placed peers count_stale
  place-Placed none id g off s =
      ((refl, refl, refl, refl), λ x. omega (arith, times-append x off (id ∷ [])))
  place-Placed (some (n, meta)) id g off s =
      if_cases (λ (r : (Groups × List ℤ) × G). Placed (id ∷ []) g off s r)
        (is_self p loop_of in_loop n s) _ _
        (λ _. ((refl, refl, refl, refl), λ x. omega (arith, times-append x off (id ∷ []))))
        (λ _. ((refl, refl, refl, refl), λ x. omega (arith, times_in-push x n id g)))

  pub resolve_each-Placed :
      (ids : List ℤ) (g : Groups) (off : List ℤ) (s : G)
      → Placed ids g off s (resolve_each p loop_of in_loop ids g off s)
  unfolding resolve_each Placed
  resolve_each-Placed [] g off s = ((refl, refl, refl, refl), λ x. omega arith)
  resolve_each-Placed (id ∷ rest) g off s =
      let r = resolve p loop_of in_loop id s in
      let q = place p loop_of in_loop r.0 id g off r.1 in
      let t = resolve_each p loop_of in_loop rest q.0.0 q.0.1 q.1 in
      let (same, sum) = place-Placed r.0 id g off r.1 in
      let (same1, sum1) = resolve_each-Placed rest q.0.0 q.0.1 q.1 in
      (
        Same-trans s r.1 t.1 (resolve-Same id s) (Same-trans r.1 q.1 t.1 same same1),
        λ x. omega (arith, sum x, sum1 x),
      )

  pub send_local-count :
      (conns : List Conn) (msg : Bytes) (s : G)
      → let t = (send_local p loop_of in_loop conns msg s).1 in
        (t.local_delivery_count ≡ s.local_delivery_count + length conns)
        × (t.remote_route_count ≡ s.remote_route_count)
        × (t.stored ≡ s.stored)
        × (t.outbox ≡ s.outbox ++ on_each conns msg)
  unfolding send_local count_local
  send_local-count [] msg s = (omega arith, refl, refl, rw append-nil refl)
  send_local-count (c ∷ rest) msg s =
      let (a, b, d, o) = send_local-count rest msg _ in
      (omega (arith, a), b, d, o ∙ rw append_assoc refl)

  pub store_each-stored :
      (ids : List ℤ) (msg : Bytes) (s : G)
      → let t = (store_each p loop_of in_loop ids msg s).1 in
        (t.local_delivery_count ≡ s.local_delivery_count)
        × (t.remote_route_count ≡ s.remote_route_count)
        × (t.stored ≡ s.stored ++ map (λ u. (u, msg)) ids)
        × (t.outbox ≡ s.outbox)
  unfolding store_each store_offline peers
  store_each-stored [] msg s = (refl, refl, rw append-nil refl, refl)
  store_each-stored (id ∷ rest) msg s =
      let (a, b, d, o) = store_each-stored rest msg _ in (a, b, d ∙ rw append_assoc refl, o)
