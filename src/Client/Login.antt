-- ===== src/Client/Login.antt =====
-- What the reply to a login makes of the client's state.
use cluster_chat_server_with.Prelude.{
  ◌+◌, ◌≡◌, refl, ◌∙◌, ap, true, false, List, [], ◌∷◌, ◌++◌, map, none, some, Bytes, All,
  append_assoc, append-nil, is_empty, if◌then◌else◌, ℤ, pos, find, bytes_eq, bytes_eq_inst,
}
use cluster_chat_server_with.Text.{codes}
use cluster_chat_server_with.Json.{Json, Fields, IsFaithful, texts, is_some}
use cluster_chat_server_with.Models.{User, Group}
use cluster_chat_server_with.Client.{Client}
use cluster_chat_server_with.Client.Screen.{chain, show_current_user_data}
use cluster_chat_server_with.Client.Responses.{
  add_friend_text, add_friend_texts, show_offlines, if_contains, take_friends, take_groups,
  accept_login, do_login_response, handle_type, handle_message,
}
use cluster_chat_server_with.Service.Requests
use cluster_chat_server_with.Service.Requests.{friend_fields, group_json, listed}
use cluster_chat_server_with.Service.Session.{admitted}
use cluster_chat_server_with.Client.Keeps.{
  view, Keeps, view-chain, then_Keeps, plain_Keeps, show_offlines-Keeps, if_contains-Keeps,
  take_groups-Keeps,
}

module _ (j : Json) where
  -- How the client keeps a friend.
  abbrev pub befriended : User → User
  befriended u = record { id = u.id; name = u.name; password = []; state = u.state }

  abbrev friend_text : User → Bytes
  friend_text u = j.dump (j.make (friend_fields u))

  add-friend :
      (u : User) (c : Client)
      → IsFaithful j (friend_fields u)
      → add_friend_text j (friend_text u) c
        ≡ (some tt, record c { friends = c.friends ++ befriended u ∷ [] })
  unfolding add_friend_text
  add-friend u c h =
      rw
        (
          h.parsed,
          h.got_int (codes "id") u.id (unfold find bytes_eq in refl),
          h.got_text (codes "name") u.name (unfold find bytes_eq in refl),
          h.got_text (codes "state") u.state (unfold find bytes_eq in refl),
        )
        refl

  add-friends :
      (us : List User) (c : Client)
      → All (λ u. IsFaithful j (friend_fields u)) us
      → add_friend_texts j (map friend_text us) c
        ≡ (some tt, record c { friends = c.friends ++ map befriended us })
  unfolding add_friend_texts
  add-friends [] c h = rw append-nil refl
  add-friends (u ∷ us) c (h, hs) =
      ap (λ r. chain r (λ _. add_friend_texts j (map friend_text us))) (add-friend u c h)
      ∙ add-friends us (record c { friends = c.friends ++ befriended u ∷ [] }) hs
      ∙ rw append_assoc refl

  take_friends-none :
      (js : j.Value) (c : Client)
      → j.contains (codes "friends") js ≡ false
      → take_friends j js c ≡ (some tt, c)
  unfolding take_friends if_contains
  take_friends-none js c e = rw e refl

  take_friends-some :
      (js : j.Value) (us : List User) (c : Client)
      → j.contains (codes "friends") js ≡ true
      → j.get_texts (codes "friends") js ≡ some (map friend_text us)
      → All (λ u. IsFaithful j (friend_fields u)) us
      → take_friends j js c ≡ (some tt, record c { friends = map befriended us })
  unfolding take_friends if_contains
  take_friends-some js us c e f h = rw (e, f) (add-friends us (record c { friends = [] }) h)

  -- The friends after a login: the old ones stay where the reply lists none.
  abbrev pub friends_after : List User → List User → List User
  friends_after [] old = old
  friends_after (u ∷ us) old = map befriended (u ∷ us)

  abbrev pub reply_fields : ℤ → Bytes → List Bytes → List User → List Group → Fields
  reply_fields id name messages friends groups =
      Requests.login_fields j (admitted id name messages friends groups)

  found_friends :
      (id : ℤ) (name : Bytes) (messages : List Bytes) (friends : List User) (groups : List Group)
      → find (codes "friends") (reply_fields id name messages friends groups)
        ≡ (if is_empty friends then none else some (texts (map friend_text friends)))
  unfolding Requests.login_fields find bytes_eq
  found_friends id name [] [] [] = refl
  found_friends id name [] [] (g ∷ gs) = refl
  found_friends id name [] (u ∷ us) groups = refl
  found_friends id name (m ∷ ms) [] [] = refl
  found_friends id name (m ∷ ms) [] (g ∷ gs) = refl
  found_friends id name (m ∷ ms) (u ∷ us) groups = refl

  reply-friends :
      (id : ℤ) (name : Bytes) (messages : List Bytes) (friends : List User) (groups : List Group)
      (c : Client)
      → let fs = reply_fields id name messages friends groups in
        IsFaithful j fs
        → All (λ u. IsFaithful j (friend_fields u)) friends
        → take_friends j (j.make fs) c
          ≡ (some tt, record c { friends = friends_after friends c.friends })
  reply-friends id name messages [] groups c f h =
      take_friends-none (j.make (reply_fields id name messages [] groups)) c
        (f.contained (codes "friends") ∙ ap is_some (found_friends id name messages [] groups))
  reply-friends id name messages (u ∷ us) groups c f h =
      let found = found_friends id name messages (u ∷ us) groups in
      take_friends-some (j.make (reply_fields id name messages (u ∷ us) groups)) (u ∷ us) c
        (f.contained (codes "friends") ∙ ap is_some found)
        (f.got_texts (codes "friends") (map friend_text (u ∷ us)) found) h

  abbrev named : ℤ → Bytes → Client → Client
  named id name c = record c {
    login_success = true;
    current_user = record c.current_user { id = id; name = name };
  }

  rest_Keeps :
      (js : j.Value)
      → Keeps (λ c. chain (take_groups j js c) (λ _ d.
        chain
          (some tt, show_current_user_data d)
          (λ _. if_contains j (codes "offlinemsg") js (show_offlines j))))
  unfolding show_current_user_data
  rest_Keeps js = then_Keeps (take_groups-Keeps j js) λ _. plain_Keeps λ c.
      (if_contains-Keeps j (codes "offlinemsg") js _ (show_offlines-Keeps j)).kept
        (show_current_user_data c)

  accept-view :
      (js : j.Value) (id : ℤ) (name : Bytes) (c d : Client)
      → j.get_int (codes "id") js ≡ some id
      → j.get_text (codes "name") js ≡ some name
      → take_friends j js (named id name c) ≡ (some tt, d)
      → view (accept_login j js c).1 ≡ view d
  unfolding accept_login
  accept-view js id name c d e f g = rw (e, f, g) ((rest_Keeps js).kept d)

  handled-view :
      (js : j.Value) (c : Client)
      → j.get_int (codes "msgId") js ≡ some (pos 2)
      → j.get_int (codes "errno") js ≡ some (pos 0)
      → view (chain (j.get_int (codes "msgId") js, c) (λ t. handle_type j t js)).1
        ≡ view (accept_login j js c).1
  unfolding handle_type do_login_response
  handled-view js c e f =
      rw (e, f)
        (view-chain (accept_login j js c) (λ _ d. (some tt, record d { rw_sem = d.rw_sem + 1 }))
          λ _. plain_Keeps λ d. refl)

  -- The text of the node's reply to a login that is admitted makes the client hold the user's id
  -- and name and the friends of the reply, and marks the login as a success, whatever the groups
  -- and the offline messages hold; but where the reply lists no friends, the client keeps the
  -- friends it had before, those of another user if that one was logged in. The JSON library is
  -- right about the reply and about each friend in it.
  pub login_reply :
      (id : ℤ) (name : Bytes) (messages : List Bytes) (friends : List User) (groups : List Group)
      (c : Client)
      → let fs = reply_fields id name messages friends groups in
        IsFaithful j fs
        → All (λ u. IsFaithful j (friend_fields u)) friends
        → view (handle_message j (j.dump (j.make fs)) c).1
          ≡ (record c.current_user { id = id; name = name }, friends_after friends c.friends, true)
  unfolding handle_message
  login_reply id name messages friends groups c f h =
      let fs = reply_fields id name messages friends groups in
      let js = j.make fs in
      rw f.parsed (
        handled-view js c
          (f.got_int (codes "msgId") (pos 2) (unfold Requests.login_fields find bytes_eq in refl))
          (f.got_int (codes "errno") (pos 0) (unfold Requests.login_fields find bytes_eq in refl))
        ∙ accept-view js id name c _
            (f.got_int (codes "id") id (unfold Requests.login_fields find bytes_eq in refl))
            (f.got_text (codes "name") name (unfold Requests.login_fields find bytes_eq in refl))
            (reply-friends id name messages friends groups (named id name c) f h))
