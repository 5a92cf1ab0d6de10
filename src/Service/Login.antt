-- ===== src/Service/Login.antt =====
-- What a login does to the table of connections.
use cluster_chat_server_with.Prelude.{
  ℕ, ◌<◌, ◌≡◌, refl, ◌∙◌, ap, Bool, true, false, ◌&&◌, Option, none, some, arith, Bytes, length,
  length-set, if_cases, ℤ, int_eq, int_eq_iff, bytes_eq,
}
use cluster_chat_server_with.Models.{User, online}
use cluster_chat_server_with.Service.Connections.{
  Conn, Buckets, add_local_connection, remove_local_connection, get_local_connection,
  get_local_connection-one_map,
}
use cluster_chat_server_with.Service.Chat.{Peers, Node, peers, count_stale}
use cluster_chat_server_with.Service.Session.{
  Reply, refused, admitted, invalid, in_use, not_registered, greet, finish_login, clear_stale,
  bind_session, admit, find_session, check_session_free, login,
}

-- The connections after a login of user `id` on `conn`, as the reply tells them.
abbrev pub Leaves : Conn → ℤ → Buckets → Reply → Buckets → Type 0
Leaves conn id bs (refused invalid) cs = cs ≡ bs
Leaves conn id bs (refused in_use) cs = cs ≡ bs
Leaves conn id bs (refused not_registered) cs = get_local_connection id cs ≡ none
Leaves conn id bs (admitted _ _ _ _ _) cs = get_local_connection id cs ≡ some conn

-- Every other user has the connection they had.
abbrev pub OthersKeep : ℤ → Buckets → Buckets → Type 0
OthersKeep id bs cs =
    (u : ℤ) → int_eq id u ≡ false → get_local_connection u cs ≡ get_local_connection u bs

int_eq_refl : (u : ℤ) → int_eq u u ≡ true
int_eq_refl u = (int_eq_iff u u).1 refl

add-length :
    (id : ℤ) (conn : Conn) (bs : Buckets) → length (add_local_connection id conn bs) ≡ length bs
unfolding add_local_connection
add-length id conn bs = length-set bs _ _

module _ (id : ℤ) (conn : Conn) (bs : Buckets) (h : 0 < length bs) where
  added_self : get_local_connection id (add_local_connection id conn bs) ≡ some conn
  added_self = (get_local_connection-one_map bs id id conn h).0 ∙ rw (int_eq_refl id) refl

  added_others : OthersKeep id bs (add_local_connection id conn bs)
  added_others u n = (get_local_connection-one_map bs id u conn h).0 ∙ rw n refl

  removed_self : get_local_connection id (remove_local_connection id bs) ≡ none
  removed_self = (get_local_connection-one_map bs id id conn h).1 ∙ rw (int_eq_refl id) refl

  removed_others : OthersKeep id bs (remove_local_connection id bs)
  removed_others u n = (get_local_connection-one_map bs id u conn h).1 ∙ rw n refl

module _ (p : Peers) (loop_of : Conn → ℕ) (in_loop : ℕ → Bool) where
  abbrev L : Type 0
  L = Node p loop_of in_loop

  abbrev Login : Conn → ℤ → Buckets → Reply × L → Type 0
  Login conn id bs r = Leaves conn id bs r.0 r.1.buckets × OthersKeep id bs r.1.buckets

  greet-buckets :
      (user : User) (id : ℤ) (s : L) → (greet p loop_of in_loop user id s).1.buckets ≡ s.buckets
  unfolding greet peers
  greet-buckets user id s = ground arith

  clear_stale-buckets :
      (user : User) (s : L) → (clear_stale p loop_of in_loop user s).1.buckets ≡ s.buckets
  unfolding clear_stale peers count_stale
  clear_stale-buckets user s = ground arith

  bind-buckets : (id : ℤ) (s : L) → (bind_session p loop_of in_loop id s).1.buckets ≡ s.buckets
  unfolding bind_session peers
  bind-buckets id s = ground arith

  find-buckets : (id : ℤ) (s : L) → (find_session p loop_of in_loop id s).1.buckets ≡ s.buckets
  unfolding find_session peers
  find-buckets id s = ground arith

  finish-Login :
      (bound : Bool) (conn : Conn) (user : User) (id : ℤ) (bs : Buckets) (s : L)
      → 0 < length bs
      → s.buckets ≡ add_local_connection id conn bs
      → Login conn id bs (finish_login p loop_of in_loop bound user id s)
  unfolding finish_login peers greet
  finish-Login false conn user id bs s h e =
      let h2 : 0 < length (add_local_connection id conn bs) = rw (add-length id conn bs) h in
      rw e (
        removed_self id conn (add_local_connection id conn bs) h2,
        λ u n.
            removed_others id conn (add_local_connection id conn bs) h2 u n
            ∙ added_others id conn bs h u n,
      )
  finish-Login true conn user id bs s h e =
      let t = (peers p loop_of in_loop (p.update_state (record user { state = online })) s).1 in
      let same = greet-buckets (record user { state = online }) id t ∙ e in
      (
        ap (get_local_connection id) same ∙ added_self id conn bs h,
        λ u n. ap (get_local_connection u) same ∙ added_others id conn bs h u n,
      )

  admit-Login :
      (conn : Conn) (user : User) (id : ℤ) (s : L)
      → 0 < length s.buckets
      → Login conn id s.buckets (admit p loop_of in_loop conn user id s)
  unfolding admit
  admit-Login conn user id s h =
      let s1 = (clear_stale p loop_of in_loop user s).1 in
      let s2 = record s1 { buckets = add_local_connection id conn s1.buckets } in
      let b = bind_session p loop_of in_loop id s2 in
      finish-Login b.0 conn user id s.buckets b.1 h
        (bind-buckets id s2 ∙ ap (add_local_connection id conn) (clear_stale-buckets user s))

  checked-Login :
      (session : Option Bytes) (conn : Conn) (user : User) (id : ℤ) (bs : Buckets) (s : L)
      → 0 < length bs
      → s.buckets ≡ bs
      → Login conn id bs (check_session_free p loop_of in_loop session conn user id s)
  unfolding check_session_free
  checked-Login (some n) conn user id bs s h e = (e, λ u _. ap (get_local_connection u) e)
  checked-Login none conn user id bs s h e = rw (← e) (admit-Login conn user id s (rw e h))

  -- With at least one bucket, and whatever the registry and the tables answer: a login that is
  -- admitted leaves the user with the connection it came on; one whose session cannot be
  -- registered leaves the user without a connection; one with a wrong id or password, or of a user
  -- with a valid session, leaves the table of connections as it was; and in every case all other
  -- users keep their connections.
  pub login-Leaves :
      (conn : Conn) (id : ℤ) (pwd : Bytes) (s : L)
      → 0 < length s.buckets
      → (Leaves conn id s.buckets
          (login p loop_of in_loop conn id pwd s).0
          (login p loop_of in_loop conn id pwd s).1.buckets)
        × OthersKeep id s.buckets (login p loop_of in_loop conn id pwd s).1.buckets
  unfolding login peers
  login-Leaves conn id pwd s h =
      let q = peers p loop_of in_loop (p.query_user id) s in
      let f = find_session p loop_of in_loop id q.1 in
      let same : f.1.buckets ≡ s.buckets = find-buckets id q.1 in
      if_cases (λ (r : Reply × L). Login conn id s.buckets r)
        (int_eq q.0.id id && bytes_eq q.0.password pwd) _ _
        (λ _. checked-Login f.0 conn q.0 id s.buckets f.1 h same)
        (λ _. (same, λ u _. ap (get_local_connection u) same))
