-- ===== src/Redis/Index.antt =====
-- The sets of users that the nodes keep in Redis (src/server/redis/redis.cpp): a node that has a
-- user's session has the user in its set, so its cleanup finds the session.
use cluster_chat_server_with.Prelude.{
  get_or, ◌≡◌, ◌≢◌, refl, sym, ap, ◌∙◌, inl, inr, Bool, true, false, List, [], ◌∷◌, map, none, some,
  Bytes, All, arith, if◌then◌else◌, ℤ, int_eq, int_eq_iff, Bool-cases, Option-cases, some_inj,
  bytes_eq, bytes_eq_iff, ◌==◌, Key, bytes_eq_inst, int_eq_inst,
}
use cluster_chat_server_with.Text.{codes, to_string, to_string_injective}
use cluster_chat_server_with.Config.{atoi}
use cluster_chat_server_with.Redis.{
  array, RedisServer, node_key, node_users_key, session_key, session_value, bind_user_node,
  unbind_user_node, get_user_session, numbers, texts,
}
use cluster_chat_server_with.Redis.Encoding.{atoi-to_string}
use cluster_chat_server_with.Redis.Store.{
  IsStore, set_words, get_words, add_words, bind-state, after_set,
}
use cluster_chat_server_with.Redis.Sessions.{
  del_words, rem_words, IsKeyed, SessionCall, looks_up, unbinds, binds, Sessions, promised, asked,
  Shows, IsProper, stored, all_asked, all_promised,
}
use cluster_chat_server_with.Redis.Promises.{unbind-cases, after_del, asked-Keeps}

abbrev pub has {ℓ} : {A : Type ℓ} ⦃e : Key A⦄ → A → List A → Bool
has a [] = false
has a (x ∷ xs) = let later = has a xs in if x == a then true else later

abbrev pub list_words : Bytes → List Bytes
list_words key = codes "SMEMBERS" ∷ key ∷ []

-- The documented behaviour of sets, and that no other command changes them.
pub record IsIndex (r : RedisServer) (d : IsStore r) : Type 0 where
  pub members_of : r.State → Bytes → List Bytes
  pub members_listed :
      (k : Bytes) (w : r.State)
      → (r.command (list_words k) w).0 ≡ some (array (map some (members_of w k)))
  pub listed_values :
      (k h : Bytes) (w : r.State) → d.value_of (r.command (list_words k) w).1 h ≡ d.value_of w h
  pub listed_members :
      (k h : Bytes) (w : r.State) → members_of (r.command (list_words k) w).1 h ≡ members_of w h
  pub added_self :
      (k m : Bytes) (w : r.State) → has m (members_of (r.command (add_words k m) w).1 k) ≡ true
  pub added_keeps :
      (k m x h : Bytes) (w : r.State)
      → has x (members_of w h) ≡ true
      → has x (members_of (r.command (add_words k m) w).1 h) ≡ true
  pub removed_keeps :
      (k m x h : Bytes) (w : r.State)
      → x ≢ m
      → has x (members_of w h) ≡ true
      → has x (members_of (r.command (rem_words k m) w).1 h) ≡ true
  pub set_members :
      (k v h : Bytes) (w : r.State) → members_of (r.command (set_words k v) w).1 h ≡ members_of w h
  pub got_members :
      (k h : Bytes) (w : r.State) → members_of (r.command (get_words k) w).1 h ≡ members_of w h
  pub deleted_members :
      (k h : Bytes) (w : r.State)
      → h ≢ k
      → members_of (r.command (del_words k) w).1 h ≡ members_of w h

pub users_ne : (u : ℤ) (n : Bytes) → node_users_key n ≢ session_key u
users_ne u n e = omega (arith, ap (λ s. get_or s 5 0) e)

pub node_ne : (u : ℤ) (n : Bytes) → node_key n ≢ session_key u
node_ne u n e = omega (arith, ap (λ s. get_or s 5 0) e)

pub users_of-members : (ms : List Bytes) → numbers (texts (map some ms)) ≡ map atoi ms
unfolding numbers texts
users_of-members [] = refl
users_of-members (m ∷ ms) = rw (users_of-members ms)

either_true : (b : Bool) {c : Bool} → c ≡ true → (if b then true else c) ≡ true
either_true true e = refl
either_true false e = e

pub has-atoi : (u : ℤ) (ms : List Bytes) → has (to_string u) ms ≡ true → has u (map atoi ms) ≡ true
has-atoi u (m ∷ ms) h = elim (Bool-cases (bytes_eq m (to_string u))) [
  | inl e ↦
      rw
        ((int_eq_iff (atoi m) u).1
          (ap atoi ((bytes_eq_iff m (to_string u)).0 e) ∙ atoi-to_string u))
        refl
  | inr e ↦ either_true (int_eq (atoi m) u) (has-atoi u ms (rw e at h))
]
has-atoi u [] h = absurd (cc)

module _ (r : RedisServer) (d : IsStore r) (k : IsKeyed r d) (x : IsIndex r d) where
  -- Every user whose session names a node is in that node's set.
  abbrev pub Indexed : r.State → Sessions → Type 0
  Indexed w t =
      (u : ℤ) (n i : Bytes)
      → t u ≡ some (n, i)
      → has (to_string u) (x.members_of w (node_users_key n)) ≡ true

  bind-members :
      (u : ℤ) (n i : Bytes) (w : r.State)
      → d.value_of w (session_key u) ≡ none
      → (has (to_string u) (x.members_of (bind_user_node r u n i w).1 (node_users_key n)) ≡ true)
        × ((m h : Bytes)
            → has m (x.members_of w h) ≡ true
            → has m (x.members_of (bind_user_node r u n i w).1 h) ≡ true)
  bind-members u n i w e =
      let state = bind-state r d u n i w e in
      let w' = after_set r d u n i w in
      (
        ap (λ v. has (to_string u) (x.members_of v (node_users_key n))) state
            ∙ x.added_self (node_users_key n) (to_string u) w',
        λ m h is_in.
            ap (λ v. has m (x.members_of v h)) state
            ∙ x.added_keeps (node_users_key n) (to_string u) m h w'
                (ap (has m) (x.set_members (session_key u) (session_value n i) h w) ∙ is_in),
      )

  refused-members :
      (u : ℤ) (n i y h : Bytes) (w : r.State)
      → d.value_of w (session_key u) ≡ some y
      → x.members_of (bind_user_node r u n i w).1 h ≡ x.members_of w h
  unfolding bind_user_node
  refused-members u n i y h w e =
      rw (d.set_taken (session_key u) (session_value n i) y w e)
        (x.set_members (session_key u) (session_value n i) h w)

  unbind-members :
      (u : ℤ) (n m l : Bytes) (w : r.State)
      → m ≢ to_string u
      → has m (x.members_of w (node_users_key l)) ≡ true
      → has m (x.members_of (unbind_user_node r u n w).1 (node_users_key l)) ≡ true
  unbind-members u n m l w ne is_in =
      let key = node_users_key l in
      let first : has m (x.members_of (after_del r d k u w) key) ≡ true =
        ap (has m) (x.deleted_members (session_key u) key w (users_ne u l)) ∙ is_in in
      elim (unbind-cases r d k u n w) [
        | inl e ↦ ap (λ p. has m (x.members_of p.1 key)) e ∙ first
        | inr e ↦
            ap (λ p. has m (x.members_of p.1 key)) e
            ∙ x.removed_keeps (node_users_key n) (to_string u) m key (after_del r d k u w) ne first
      ]

  binds-Indexed :
      (u : ℤ) (n i : Bytes) (w : r.State) (t : Sessions)
      → Shows r d w t
      → Indexed w t
      → Indexed (asked r (binds u n i) w).1 (promised (binds u n i) t).1
  unfolding asked promised
  binds-Indexed u n i w t shows indexed = elim (Option-cases (t u)) [
    | inl e ↦
        let (self, kept) = bind-members u n i w (shows.values u ∙ ap stored e) in
        rw (e, promised)
          λ v m l h. elim (Bool-cases (int_eq u v)) [
            | inl s ↦
                let same : ◌≡◌ {A = Bytes × Bytes} (n, i) (m, l) = some_inj (rw s at h) in
                let after = (bind_user_node r u n i w).1 in
                ap (λ y. has (to_string y) (x.members_of after (node_users_key m)))
                  (sym ((int_eq_iff u v).0 s))
                ∙ ap (λ p. has (to_string u) (x.members_of after (node_users_key p.0))) (sym same)
                ∙ self
            | inr s ↦ kept (to_string v) (node_users_key m) (indexed v m l (rw s at h))
          ]
    | inr (s, e) ↦
        rw (e, promised)
          λ v m l h.
            ap (has (to_string v))
              (refused-members u n i _ (node_users_key m) w (shows.values u ∙ ap stored e))
            ∙ indexed v m l h
  ]

  unbinds-Indexed :
      (u : ℤ) (n : Bytes) (w : r.State) (t : Sessions)
      → Indexed w t
      → Indexed (asked r (unbinds u n) w).1 (promised (unbinds u n) t).1
  unfolding asked promised
  unbinds-Indexed u n w t indexed v m l h = elim (Bool-cases (int_eq u v)) [
    | inl s ↦ absurd (cc (rw s at h))
    | inr s ↦
        unbind-members u n (to_string v) m w
          (λ same. ground (arith, int_eq_iff u v, to_string_injective v u same))
          (indexed v m l (rw s at h))
  ]

  looks_up-Indexed :
      (u : ℤ) (w : r.State) (t : Sessions)
      → Indexed w t
      → Indexed (asked r (looks_up u) w).1 (promised (looks_up u) t).1
  unfolding asked promised get_user_session
  looks_up-Indexed u w t indexed v m l h =
      ap (has (to_string v)) (x.got_members (session_key u) (node_users_key m) w) ∙ indexed v m l h

  asked-Indexed :
      (c : SessionCall) (w : r.State) (t : Sessions)
      → Shows r d w t
      → Indexed w t
      → Indexed (asked r c w).1 (promised c t).1
  asked-Indexed (looks_up u) w t shows indexed = looks_up-Indexed u w t indexed
  asked-Indexed (unbinds u n) w t shows indexed = unbinds-Indexed u n w t indexed
  asked-Indexed (binds u n i) w t shows indexed = binds-Indexed u n i w t shows indexed

  -- Calls of any nodes keep every session in the set of its node.
  pub all_asked-Indexed :
      (cs : List SessionCall) (w : r.State) (t : Sessions)
      → All IsProper cs
      → Shows r d w t
      → Indexed w t
      → Indexed (all_asked r cs w).1 (all_promised cs t).1
  unfolding all_asked all_promised
  all_asked-Indexed [] w t proper shows indexed = indexed
  all_asked-Indexed (c ∷ cs) w t proper shows indexed =
      all_asked-Indexed cs _ _ proper.1 (asked-Keeps r d k c w t proper.0 shows).1
        (asked-Indexed c w t shows indexed)
