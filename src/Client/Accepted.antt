-- ===== src/Client/Accepted.antt =====
-- Who gets into the menu.
use cluster_chat_server_with.Prelude.{
  ℕ, ◌≡◌, ◌≢◌, refl, ap, ◌∙◌, inl, inr, ◌⊎◌, Bool, true, false, List, [], ◌∷◌, ◌++◌, Option, none,
  some, Bytes, ℤ, pos, int_eq, int_eq_iff, some_inj, Option-cases, Bool-cases,
}
use cluster_chat_server_with.Text.{codes}
use cluster_chat_server_with.Json.{Json, Fields}
use cluster_chat_server_with.Client.{Client}
use cluster_chat_server_with.Client.Commands.{ask_login, ask_reg, send_request}
use cluster_chat_server_with.Client.Keeps.{show_chat-Keeps}
use cluster_chat_server_with.Client.Screen.{Act, chain}
use cluster_chat_server_with.Client.Responses.{
  show_chat, group_front, do_login_response, do_reg_response, handle_type, handle_message,
}
use cluster_chat_server_with.Client.Main.{
  in_menu, Run, after_login, Step, login_chosen, reg_chosen, quit_chosen, login_woken, reg_woken,
  line_typed, menu_left, received, connection_lost,
}

module _ (j : Json) where
  -- The text of a reply to a login that was admitted.
  abbrev pub Accepts : Bytes → Type 0
  Accepts text =
      (js : j.Value) × (j.parse text ≡ some js)
      × (j.get_int (codes "msgId") js ≡ some (pos 2))
      × (j.get_int (codes "errno") js ≡ some (pos 0))

  -- Steps one after the other, with the messages that they take in.
  pub data Steps : Run → List Bytes → Run → Type 0 where
    done : (s : Run) → Steps s [] s
    further :
        {s t u : Run} {xs ys : List Bytes} → Steps s xs t → Step j t ys u → Steps s (xs ++ ys) u

  pub data Among : List Bytes → Type 0 where
    here : (text : Bytes) (rest : List Bytes) → Accepts text → Among (text ∷ rest)
    there : (text : Bytes) (rest : List Bytes) → Among rest → Among (text ∷ rest)

  Among-left : {xs : List Bytes} (ys : List Bytes) → Among xs → Among (xs ++ ys)
  Among-left ys (here text rest a) = here text (rest ++ ys) a
  Among-left ys (there text rest a) = there text (rest ++ ys) (Among-left ys a)

  Among-right : (xs : List Bytes) {ys : List Bytes} → Among ys → Among (xs ++ ys)
  Among-right [] a = a
  Among-right (x ∷ xs) a = there x (xs ++ _) (Among-right xs a)

  -- A step that cannot turn the mark on.
  abbrev Off : Option (Unit {0}) × Client → Type 0
  Off r = r.1.login_success ≡ false

  chain-Off :
      (r : Option (Unit {0}) × Client) (k : Unit {0} → Act (Unit {0}))
      → Off r
      → ((c : Client) → c.login_success ≡ false → Off (k tt c))
      → Off (chain r k)
  chain-Off (none, c) k h f = h
  chain-Off (some tt, c) k h f = f c h

  show_chat-Off :
      (front : Bytes) (js : j.Value) (c : Client)
      → c.login_success ≡ false
      → Off (show_chat j front js c)
  show_chat-Off front js c h = ap (λ v. v.2) ((show_chat-Keeps j front js).kept c) ∙ h

  reg-Off : (js : j.Value) (c : Client) → c.login_success ≡ false → Off (do_reg_response j js c)
  unfolding do_reg_response
  reg-Off js c h = elim (Option-cases (j.get_int (codes "errno") js)) [
    | inl e ↦ rw e h
    | inr (n, e) ↦ elim (Bool-cases (int_eq n (pos 0))) [
      | inl f ↦ rw (e, f) h
      | inr f ↦ rw (e, f) h
    ]
  ]

  login-Off :
      (js : j.Value) (c : Client)
      → c.login_success ≡ false
      → j.get_int (codes "errno") js ≢ some (pos 0)
      → Off (do_login_response j js c)
  unfolding do_login_response
  login-Off js c h n = elim (Option-cases (j.get_int (codes "errno") js)) [
    | inl e ↦ rw e h
    | inr (i, e) ↦ elim (Bool-cases (int_eq i (pos 0))) [
      | inl f ↦ absurd (n (e ∙ ap some ((int_eq_iff i (pos 0)).0 f)))
      | inr f ↦ rw (e, f) refl
    ]
  ]

  type-Off :
      (i : ℤ) (js : j.Value) (c : Client)
      → c.login_success ≡ false
      → (i ≡ pos 2 → j.get_int (codes "errno") js ≢ some (pos 0))
      → Off (handle_type j i js c)
  unfolding handle_type
  type-Off i js c h n = elim (Bool-cases (int_eq i (pos 6))) [
    | inl e ↦ rw e (show_chat-Off [] js c h)
    | inr e ↦ elim (Bool-cases (int_eq i (pos 10))) [
      | inl f ↦ rw (e, f) (show_chat-Off (group_front j js) js c h)
      | inr f ↦ elim (Bool-cases (int_eq i (pos 2))) [
        | inl g ↦
            rw (e, f, g)
              (chain-Off (do_login_response j js c) _
                (login-Off js c h (n ((int_eq_iff i (pos 2)).0 g))) (λ d k. k))
        | inr g ↦ elim (Bool-cases (int_eq i (pos 5))) [
          | inl k ↦
              rw (e, f, g, k) (chain-Off (do_reg_response j js c) _ (reg-Off js c h) (λ d l. l))
          | inr k ↦ rw (e, f, g, k) h
        ]
      ]
    ]
  ]

  errno_cases : (o : Option ℤ) → (o ≡ some (pos 0)) ⊎ (o ≢ some (pos 0))
  errno_cases none = inr (λ e. absurd (cc))
  errno_cases (some i) = elim (Bool-cases (int_eq i (pos 0))) [
    | inl e ↦ inl (ap some ((int_eq_iff i (pos 0)).0 e))
    | inr e ↦ inr (λ f. absurd (cc ((int_eq_iff i (pos 0)).1 (some_inj f), e)))
  ]

  message-Off :
      (text : Bytes) (c : Client)
      → c.login_success ≡ false
      → Accepts text ⊎ Off (handle_message j text c)
  unfolding handle_message
  message-Off text c h = elim (Option-cases (j.parse text)) [
    | inl e ↦ inr (rw e h)
    | inr (js, e) ↦ elim (Option-cases (j.get_int (codes "msgId") js)) [
      | inl f ↦ inr (rw (e, f) h)
      | inr (i, f) ↦ elim (errno_cases (j.get_int (codes "errno") js)) [
        | inr n ↦ inr (rw (e, f) (type-Off i js c h (λ _. n)))
        | inl g ↦ elim (Bool-cases (int_eq i (pos 2))) [
          | inl k ↦ inl (js, e, f ∙ ap some ((int_eq_iff i (pos 2)).0 k), g)
          | inr k ↦ inr (
              rw (e, f)
                (type-Off i js c h (λ same. absurd (cc ((int_eq_iff i (pos 2)).1 same, k)))))
        ]
      ]
    ]
  ]

  -- Before an accepted login: the mark is off, and `main` is not in the menu.
  abbrev Closed : Run → Type 0
  Closed s = (s.client.login_success ≡ false) × (s.phase ≢ in_menu)

  send_request-mark :
      (time : Bytes) (sends : Bool) (fs : Fields) (c : Client)
      → (send_request j time sends fs c).login_success ≡ c.login_success
  unfolding send_request
  send_request-mark time true fs c = refl
  send_request-mark time false fs c = refl

  woken-Closed : (n : ℕ) (c : Client) → c.login_success ≡ false → Closed (after_login n c)
  unfolding after_login
  woken-Closed n c h = rw h (refl, λ e. absurd (cc))

  Step-Closed : {s t : Run} {xs : List Bytes} → Step j s xs t → Closed s → Closed t ⊎ Among xs
  unfolding ask_login ask_reg
  Step-Closed (login_chosen time sends id pwd c) h =
      inl (send_request-mark time sends _ (record c { login_success = false }), λ e. absurd (cc))
  Step-Closed (reg_chosen time sends name pwd c) h =
      inl (send_request-mark time sends _ c ∙ h.0, λ e. absurd (cc))
  Step-Closed (quit_chosen c) h = inl (h.0, λ e. absurd (cc))
  Step-Closed (login_woken n c e) h = inl (woken-Closed n c h.0)
  Step-Closed (reg_woken n c e) h = inl (h.0, λ e. absurd (cc))
  Step-Closed (line_typed time sends line c e) h = absurd (h.1 refl)
  Step-Closed (menu_left c e) h = absurd (h.1 refl)
  Step-Closed (connection_lost s) h = inl (h.0, λ e. absurd (cc))
  Step-Closed (received text s) h = elim (message-Off text s.client h.0) [
    | inl a ↦ inr (here text [] a)
    | inr off ↦ inl (off, h.1)
  ]

  Steps-Closed : {s t : Run} {xs : List Bytes} → Steps s xs t → Closed s → Closed t ⊎ Among xs
  Steps-Closed (done s) h = inl h
  Steps-Closed (further {xs} {ys} before step) h = elim (Steps-Closed before h) [
    | inr a ↦ inr (Among-left ys a)
    | inl k ↦ elim (Step-Closed step k) [ inl l ↦ inl l | inr a ↦ inr (Among-right xs a) ]
  ]

  -- However the steps of the two threads interleave, and whatever is typed and received: a client
  -- that starts outside the menu and without the mark of a login gets into the menu only if one of
  -- the messages that it received is a reply that admits a login.
  pub menu_needs_reply :
      {s t : Run} {xs : List Bytes}
      → Steps s xs t
      → s.client.login_success ≡ false
      → s.phase ≢ in_menu
      → t.phase ≡ in_menu
      → Among xs
  menu_needs_reply run off out inside = elim (Steps-Closed run (off, out)) [
    | inl k ↦ absurd (k.1 inside)
    | inr a ↦ a
  ]
