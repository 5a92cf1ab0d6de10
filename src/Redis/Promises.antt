-- ===== src/Redis/Promises.antt =====
-- The calls on the sessions in Redis (src/server/redis/redis.cpp) keep to what one map promises.
use cluster_chat_server_with.Prelude.{
  ◌≡◌, ◌≢◌, refl, sym, ap, ◌∙◌, ◌⊎◌, inl, inr, Bool, true, List, [], ◌∷◌, Option, none, some, Bytes,
  All, is_empty, ℤ, int_eq, int_eq_iff, Bool-cases, Option-cases, some_inj, subst,
}
use cluster_chat_server_with.Text.{to_string}
use cluster_chat_server_with.Redis.{
  Reply, other, RedisServer, node_users_key, session_key, session_value, run_commands,
  bind_user_node, unbind_user_node, get_user_session,
}
use cluster_chat_server_with.Redis.Store.{
  IsStore, bind-free, bind-value, bind-state, bind-taken, after_set, session-bound,
}
use cluster_chat_server_with.Redis.Sessions.{
  del_words, rem_words, IsKeyed, SessionCall, looks_up, unbinds, binds, done, found, Sessions,
  with_session, promised, all_promised, IsProper, session_key_ne, asked, all_asked, stored, Shows,
}

module _ (r : RedisServer) (d : IsStore r) (k : IsKeyed r d) where
  -- The store after a call on user `u`, that leaves `session` as the value of its key.
  changed :
      (u : ℤ) (session : Option (Bytes × Bytes)) (w w' : r.State) (t : Sessions)
      → Shows r d w t
      → d.value_of w' (session_key u) ≡ stored session
      → ((h : Bytes) → h ≢ session_key u → d.value_of w' h ≡ d.value_of w h)
      → ((n i : Bytes) → session ≡ some (n, i) → IsProper (binds u n i))
      → Shows r d w' (with_session u session t)
  changed u session w w' t shows at_u others proper = record {
    values = λ v. elim (Bool-cases (int_eq u v)) [
      | inl e ↦ rw e (ap (λ x. d.value_of w' (session_key x)) (sym ((int_eq_iff u v).0 e)) ∙ at_u)
      | inr e ↦ rw e (others (session_key v) (session_key_ne u v e) ∙ shows.values v)
    ];
    proper = λ v n i h. elim (Bool-cases (int_eq u v)) [
      | inl e ↦ proper n i (rw e at h)
      | inr e ↦ shows.proper v n i (rw e at h)
    ];
  }

  abbrev pub Keeps : SessionCall → r.State → Sessions → Type 0
  Keeps c w t = ((asked r c w).0 ≡ (promised c t).0) × Shows r d (asked r c w).1 (promised c t).1

  found-none :
      (u : ℤ) (w : r.State)
      → d.value_of w (session_key u) ≡ none
      → (get_user_session r u w).0 ≡ none
  unfolding get_user_session
  found-none u w e = rw (d.got (session_key u) w, e) refl

  found-session :
      (u : ℤ) (w : r.State) (t : Sessions) → Shows r d w t → (get_user_session r u w).0 ≡ t u
  found-session u w t shows = elim (Option-cases (t u)) [
    | inl e ↦ found-none u w (shows.values u ∙ ap stored e) ∙ sym e
    | inr ((n, i), e) ↦
        let (named, no_bar) = shows.proper u n i e in
        session-bound r d u n i w named no_bar (shows.values u ∙ ap stored e) ∙ sym e
  ]

  looks_up-Keeps : (u : ℤ) (w : r.State) (t : Sessions) → Shows r d w t → Keeps (looks_up u) w t
  unfolding asked promised get_user_session
  looks_up-Keeps u w t shows = (
    ap found (found-session u w t shows),
    record {
      values = λ v. k.got_values (session_key u) (session_key v) w ∙ shows.values v;
      proper = shows.proper;
    },
  )

  pub run_first :
      (c : List Bytes) (cs : List (List Bytes)) (w : r.State) (x : Reply)
      → (r.command c w).0 ≡ some x
      → run_commands r (c ∷ cs) w ≡ run_commands r cs (r.command c w).1
  unfolding run_commands
  run_first c cs w x e = rw (e, run_commands) refl

  abbrev pub after_del : ℤ → r.State → r.State
  after_del u w = (r.command (del_words (session_key u)) w).1

  abbrev pub after_rem : ℤ → Bytes → r.State → r.State
  after_rem u n w = (r.command (rem_words (node_users_key n) (to_string u)) (after_del u w)).1

  -- An unbind answers true, behind a DEL, or a DEL and an SREM.
  pub unbind-cases :
      (u : ℤ) (n : Bytes) (w : r.State)
      → (unbind_user_node r u n w ≡ (true, after_del u w))
        ⊎ (unbind_user_node r u n w ≡ (true, after_rem u n w))
  unfolding unbind_user_node run_commands
  unbind-cases u n w =
      let first = run_first (del_words (session_key u)) _ w other (k.deleted (session_key u) w) in
      elim (Bool-cases (is_empty n)) [
        | inl e ↦ inl (first ∙ rw e refl)
        | inr e ↦
            let second = rem_words (node_users_key n) (to_string u) in
            let gone = k.removed (node_users_key n) (to_string u) (after_del u w) in
            inr (first ∙ rw e (run_first second [] (after_del u w) other gone))
      ]

  -- What an unbind does to the values is what its DEL does.
  abbrev pub Deletes : ℤ → r.State → Bool × r.State → Type 0
  Deletes u w (ok, w') =
      (ok ≡ true) × ((h : Bytes) → d.value_of w' h ≡ d.value_of (after_del u w) h)

  pub unbind-Deletes : (u : ℤ) (n : Bytes) (w : r.State) → Deletes u w (unbind_user_node r u n w)
  unbind-Deletes u n w = elim (unbind-cases u n w) [
    | inl e ↦ subst (Deletes u w) (sym e) (refl, λ h. refl)
    | inr e ↦
        subst (Deletes u w) (sym e)
          (refl, λ h. k.removed_values (node_users_key n) (to_string u) h (after_del u w))
  ]

  pub unbinds-Keeps :
      (u : ℤ) (n : Bytes) (w : r.State) (t : Sessions) → Shows r d w t → Keeps (unbinds u n) w t
  unfolding asked promised
  unbinds-Keeps u n w t shows =
      let (ok, same) = unbind-Deletes u n w in
      let key = session_key u in
      (
        ap done ok,
        changed u none w _ t shows (same key ∙ k.deleted_value key w)
            (λ h ne. same h ∙ k.deleted_other key h w ne) (λ m i e. absurd (cc)),
      )

  bind-others :
      (u : ℤ) (n i h : Bytes) (w : r.State)
      → d.value_of w (session_key u) ≡ none
      → h ≢ session_key u
      → d.value_of (bind_user_node r u n i w).1 h ≡ d.value_of w h
  bind-others u n i h w e ne =
      ap (λ v. d.value_of v h) (bind-state r d u n i w e)
      ∙ d.added_values (node_users_key n) (to_string u) h (after_set r d u n i w)
      ∙ k.set_other (session_key u) (session_value n i) h w ne

  bind-refused :
      (u : ℤ) (n i x h : Bytes) (w : r.State)
      → d.value_of w (session_key u) ≡ some x
      → d.value_of (bind_user_node r u n i w).1 h ≡ d.value_of w h
  unfolding bind_user_node
  bind-refused u n i x h w e =
      rw (d.set_taken (session_key u) (session_value n i) x w e)
        (k.set_refused (session_key u) (session_value n i) x h w e)

  binds-Keeps :
      (u : ℤ) (n i : Bytes) (w : r.State) (t : Sessions)
      → IsProper (binds u n i)
      → Shows r d w t
      → Keeps (binds u n i) w t
  unfolding asked promised
  binds-Keeps u n i w t proper shows = elim (Option-cases (t u)) [
    | inl e ↦
        let free : d.value_of w (session_key u) ≡ none = shows.values u ∙ ap stored e in
        rw (e, promised)
          (
            ap done (bind-free r d u n i w free),
            changed u (some (n, i)) w _ t shows (bind-value r d u n i w free)
                (λ h ne. bind-others u n i h w free ne)
                (λ m l same.
                  subst (λ (s : Bytes × Bytes). IsProper (binds u s.0 s.1)) (some_inj same) proper),
          )
    | inr (s, e) ↦
        let taken : d.value_of w (session_key u) ≡ stored (some s) = shows.values u ∙ ap stored e in
        rw (e, promised)
          (
            ap done (bind-taken r d u n i _ w taken),
            record {
              values = λ v. bind-refused u n i _ (session_key v) w taken ∙ shows.values v;
              proper = shows.proper;
            },
          )
  ]

  pub asked-Keeps :
      (c : SessionCall) (w : r.State) (t : Sessions) → IsProper c → Shows r d w t → Keeps c w t
  asked-Keeps (looks_up u) w t proper shows = looks_up-Keeps u w t shows
  asked-Keeps (unbinds u n) w t proper shows = unbinds-Keeps u n w t shows
  asked-Keeps (binds u n i) w t proper shows = binds-Keeps u n i w t proper shows

  -- Calls of any nodes, one after the other, on the sessions in one Redis: every answer is the
  -- one that a single map from users to nodes promises, and the store still shows that map. A
  -- bind takes a free user and no other, an unbind frees the user whichever node has it, and a
  -- lookup finds the node that has the user. Redis answers as documented, the store shows the
  -- map at the start, and a node that binds has a name and an instance without a bar.
  pub sessions_refine :
      (cs : List SessionCall) (w : r.State) (t : Sessions)
      → All IsProper cs
      → Shows r d w t
      → ((all_asked r cs w).0 ≡ (all_promised cs t).0)
        × Shows r d (all_asked r cs w).1 (all_promised cs t).1
  unfolding all_asked all_promised
  sessions_refine [] w t proper shows = (refl, shows)
  sessions_refine (c ∷ cs) w t proper shows =
      let (answer, after) = asked-Keeps c w t proper.0 shows in
      let (answers, last) = sessions_refine cs _ _ proper.1 after in
      (rw (answer, answers) refl, last)
