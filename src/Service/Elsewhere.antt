-- ===== src/Service/Elsewhere.antt =====
-- `groupChat` (src/server/chatservice.cpp) when all the members are at one other node.
use cluster_chat_server_with.Prelude.{
  ℕ, ◌≡◌, refl, ◌∙◌, ap, Bool, false, List, [], ◌∷◌, ◌++◌, none, some, Bytes, All, append_assoc,
  append-nil, arith, ℤ, find, assign, bytes_eq, bytes_eq_inst, bytes_eq_refl,
}
use cluster_chat_server_with.Types.{NodeMeta}
use cluster_chat_server_with.Service.Connections.{Conn, Buckets, get_local_connection}
use cluster_chat_server_with.Service.Chat.{Peers, Node, peers, is_self, resolve}
use cluster_chat_server_with.Service.Group.{
  Groups, users_at, push_user, split_local, place, resolve_each,
}

pub split_local-absent :
    (members : List ℤ) (bs : Buckets)
    → All (λ u. get_local_connection u bs ≡ none) members
    → split_local members bs ≡ ([], members)
unfolding split_local
split_local-absent [] bs h = refl
split_local-absent (u ∷ us) bs (h, hs) = rw (h, split_local-absent us bs hs) refl

users_at-only : (n : Bytes) (us : List ℤ) → users_at n ((n, us) ∷ []) ≡ us
unfolding find
users_at-only n us = rw (bytes_eq_refl n, users_at) refl

push_user-only :
    (n : Bytes) (u : ℤ) (us : List ℤ) → push_user n u ((n, us) ∷ []) ≡ (n, us ++ u ∷ []) ∷ []
unfolding push_user find assign
push_user-only n u us =
    ap (λ v. assign n (v ++ u ∷ []) ((n, us) ∷ [])) (users_at-only n us) ∙ rw (bytes_eq_refl n) refl

module _ (p : Peers) (loop_of : Conn → ℕ) (in_loop : ℕ → Bool) where
  abbrev E : Type 0
  E = Node p loop_of in_loop

  -- The node after the lookups of these users.
  abbrev pub all_resolved : List ℤ → E → E
  all_resolved [] s = s
  all_resolved (u ∷ us) s = all_resolved us (resolve p loop_of in_loop u s).1

  -- The lookups, one after the other, all find this node.
  abbrev pub AllAt : Bytes → NodeMeta → List ℤ → E → Type 0
  AllAt n meta [] s = Unit
  AllAt n meta (u ∷ us) s =
      ((resolve p loop_of in_loop u s).0 ≡ some (n, meta))
      × AllAt n meta us (resolve p loop_of in_loop u s).1

  resolve_self :
      (u : ℤ) (n : Bytes) (s : E)
      → bytes_eq s.self_node.node_id n ≡ false
      → bytes_eq (resolve p loop_of in_loop u s).1.self_node.node_id n ≡ false
  unfolding resolve peers
  resolve_self u n s h = ground arith

  place-other :
      (n : Bytes) (meta : NodeMeta) (u : ℤ) (g : Groups) (s : E)
      → bytes_eq s.self_node.node_id n ≡ false
      → place p loop_of in_loop (some (n, meta)) u g [] s ≡ ((push_user n u g, []), s)
  unfolding place is_self
  place-other n meta u g s h = rw h refl

  resolve_each-AllAt :
      (us : List ℤ) (n : Bytes) (meta : NodeMeta) (before : List ℤ) (s : E)
      → bytes_eq s.self_node.node_id n ≡ false
      → AllAt n meta us s
      → resolve_each p loop_of in_loop us ((n, before) ∷ []) [] s
        ≡ (((n, before ++ us) ∷ [], []), all_resolved us s)
  unfolding resolve_each
  resolve_each-AllAt [] n meta before s h all = rw append-nil refl
  resolve_each-AllAt (u ∷ us) n meta before s h (found, all) =
      let t = (resolve p loop_of in_loop u s).1 in
      let other = resolve_self u n s h in
      ap
        (λ o.
          (let q = place p loop_of in_loop o u ((n, before) ∷ []) [] t in
            resolve_each p loop_of in_loop us q.0.0 q.0.1 q.1))
        found
      ∙ ap (λ q. resolve_each p loop_of in_loop us q.0.0 q.0.1 q.1)
          (place-other n meta u ((n, before) ∷ []) t other)
      ∙ ap (λ g. resolve_each p loop_of in_loop us g [] t) (push_user-only n u before)
      ∙ resolve_each-AllAt us n meta (before ++ u ∷ []) t other all
      ∙ rw append_assoc refl

  -- The entry that the second loop makes of them.
  pub resolve_each-one :
      (u : ℤ) (us : List ℤ) (n : Bytes) (meta : NodeMeta) (s : E)
      → bytes_eq s.self_node.node_id n ≡ false
      → AllAt n meta (u ∷ us) s
      → resolve_each p loop_of in_loop (u ∷ us) [] [] s
        ≡ (((n, u ∷ us) ∷ [], []), all_resolved (u ∷ us) s)
  unfolding resolve_each push_user find assign
  resolve_each-one u us n meta s h (found, all) =
      let t = (resolve p loop_of in_loop u s).1 in
      let other = resolve_self u n s h in
      ap
        (λ o.
          (let q = place p loop_of in_loop o u [] [] t in
            resolve_each p loop_of in_loop us q.0.0 q.0.1 q.1))
        found
      ∙ ap (λ q. resolve_each p loop_of in_loop us q.0.0 q.0.1 q.1)
          (place-other n meta u [] t other)
      ∙ resolve_each-AllAt us n meta (u ∷ []) t other all
