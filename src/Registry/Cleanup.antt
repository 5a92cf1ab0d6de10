-- ===== src/Registry/Cleanup.antt =====
-- A node that shuts down (`cleanupSelf`, src/server/noderegistry.cpp) leaves no session that names
-- it, over Redis.
use cluster_chat_server_with.Prelude.{
  ℕ, ◌≡◌, ◌≢◌, refl, sym, ap, ◌∙◌, ◌⊎◌, inl, inr, true, List, [], ◌∷◌, map, Option, none, some,
  Bytes, ℤ, int_eq, int_eq_inst, Bool-cases,
}
use cluster_chat_server_with.Text.{codes}
use cluster_chat_server_with.Config.{atoi}
use cluster_chat_server_with.Redis.{
  other, RedisServer, node_key, node_users_key, session_key, run_commands, get_node_users,
  unregister_node,
}
use cluster_chat_server_with.Redis.Store.{IsStore}
use cluster_chat_server_with.Redis.Sessions.{
  IsKeyed, Sessions, with_session, promised, asked, Shows, rem_words, del_words,
}
use cluster_chat_server_with.Redis.Promises.{run_first, unbinds-Keeps}
use cluster_chat_server_with.Redis.Index.{
  has, list_words, IsIndex, Indexed, users_ne, node_ne, users_of-members, has-atoi,
}
use cluster_chat_server_with.Registry.Plane.{ControlPlane, redis_plane}
use cluster_chat_server_with.Registry.{Sys, ask, unbind_each, cleanup_self}

-- The sessions without those of some users.
abbrev freed : List ℤ → Sessions → Sessions
freed [] t = t
freed (u ∷ us) t = freed us (with_session u none t)

freed-none : (us : List ℤ) (t : Sessions) (v : ℤ) → t v ≡ none → freed us t v ≡ none
freed-none [] t v e = e
freed-none (u ∷ us) t v e =
    freed-none us _ v (elim (Bool-cases (int_eq u v)) [ inl s ↦ rw s refl | inr s ↦ rw s e ])

freed-has : (us : List ℤ) (t : Sessions) (v : ℤ) → has v us ≡ true → freed us t v ≡ none
freed-has [] t v e = absurd (cc)
freed-has (u ∷ us) t v e = elim (Bool-cases (int_eq u v)) [
  | inl s ↦ freed-none us _ v (rw s refl)
  | inr s ↦ freed-has us _ v (rw s at e)
]

freed-either : (us : List ℤ) (t : Sessions) (v : ℤ) → (freed us t v ≡ none) ⊎ (freed us t v ≡ t v)
freed-either [] t v = inr refl
freed-either (u ∷ us) t v = elim (Bool-cases (int_eq u v)) [
  | inl s ↦ inl (freed-none us _ v (rw s refl))
  | inr s ↦ elim (freed-either us (with_session u none t) v) [
    | inl e ↦ inl e
    | inr e ↦ inr (e ∙ rw s refl)
  ]
]

named_none : {p : Bytes × Bytes} {o : Option (Bytes × Bytes)} → o ≡ none → o ≡ some p → ⊥
named_none e f = cc

module _ (r : RedisServer) (d : IsStore r) (k : IsKeyed r d) (x : IsIndex r d)
    (clock : r.State → ℕ × r.State) (wall_ms : r.State → ℤ) where
  abbrev P : ControlPlane
  P = redis_plane r clock wall_ms

  pub same-Shows :
      (w w' : r.State) (t : Sessions)
      → ((u : ℤ) → d.value_of w' (session_key u) ≡ d.value_of w (session_key u))
      → Shows r d w t
      → Shows r d w' t
  same-Shows w w' t same shows = record {
    values = λ u. same u ∙ shows.values u;
    proper = shows.proper;
  }

  unbind_each-Shows :
      (us : List ℤ) (n : Bytes) (s : Sys P) (t : Sessions)
      → Shows r d s.world t
      → Shows r d (unbind_each P us n s).1.world (freed us t)
  unfolding unbind_each asked promised ask
  unbind_each-Shows [] n s t shows = shows
  unbind_each-Shows (u ∷ us) n s t shows =
      unbind_each-Shows us n _ (with_session u none t) (unbinds-Keeps r d k u n s.world t shows).1

  unregister_node-values :
      (n : Bytes) (u : ℤ) (w : r.State)
      → d.value_of (unregister_node r n w).1 (session_key u) ≡ d.value_of w (session_key u)
  unfolding unregister_node run_commands
  unregister_node-values n u w =
      let first = del_words (node_key n) in
      let second = del_words (node_users_key n) in
      let third = rem_words (codes "chat:nodes") n in
      let w1 = (r.command first w).1 in
      let w2 = (r.command second w1).1 in
      let state =
        run_first r d k first (second ∷ third ∷ []) w other (k.deleted (node_key n) w)
        ∙ run_first r d k second (third ∷ []) w1 other (k.deleted (node_users_key n) w1)
        ∙ run_first r d k third [] w2 other (k.removed (codes "chat:nodes") n w2) in
      ap (λ p. d.value_of p.1 (session_key u)) state
      ∙ k.removed_values (codes "chat:nodes") n (session_key u) w2
      ∙ k.deleted_other (node_users_key n) (session_key u) w1 (λ e. users_ne u n (sym e))
      ∙ k.deleted_other (node_key n) (session_key u) w (λ e. node_ne u n (sym e))

  -- The users that `cleanupSelf` goes through.
  abbrev own_users : Sys P → List ℤ
  own_users s = map atoi (x.members_of s.world (node_users_key s.registry.self_node.node_id))

  pub get_node_users-lem :
      (n : Bytes) (w : r.State)
      → get_node_users r n w ≡ (
        map atoi (x.members_of w (node_users_key n)),
        (r.command (list_words (node_users_key n)) w).1,
      )
  unfolding get_node_users
  get_node_users-lem n w =
      rw
        (
          x.members_listed (node_users_key n) w,
          users_of-members (x.members_of w (node_users_key n)),
        )
        refl

  cleanup_self-Shows :
      (s : Sys P) (t : Sessions)
      → Shows r d s.world t
      → Shows r d (cleanup_self P s).1.world (freed (own_users s) t)
  unfolding cleanup_self ask
  cleanup_self-Shows s t shows =
      let n = s.registry.self_node.node_id in
      rw (get_node_users-lem n s.world) (
        same-Shows _ _ _ (λ u. unregister_node-values n u _)
          (unbind_each-Shows (own_users s) n _ t (
            same-Shows s.world _ t (λ u. x.listed_values (node_users_key n) (session_key u) s.world)
              shows)))

  -- What a node that goes leaves of the sessions `now`.
  abbrev pub Leaves : Sys P → Sessions → Sys P → Type 0
  Leaves s now s' =
      (left : Sessions) × Shows r d s'.world left
      × ((u : ℤ) (i : Bytes) → left u ≢ some (s.registry.self_node.node_id, i))
      × ((u : ℤ) → (left u ≡ none) ⊎ (left u ≡ now u))

  pub cleanup_self-Leaves :
      (s : Sys P) (now : Sessions)
      → Shows r d s.world now
      → Indexed r d k x s.world now
      → Leaves s now (cleanup_self P s).1
  cleanup_self-Leaves s now shown in_sets = (
    freed (own_users s) now,
    cleanup_self-Shows s now shown,
    λ u i own. elim (freed-either (own_users s) now u) [
      | inl gone ↦ absurd (named_none gone own)
      | inr kept ↦ absurd (
          named_none
            (freed-has (own_users s) now u
              (has-atoi u _ (in_sets u s.registry.self_node.node_id i (sym kept ∙ own))))
            own)
    ],
    λ u. freed-either (own_users s) now u,
  )
