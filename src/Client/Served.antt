-- ===== src/Client/Served.antt =====
-- From a line that is typed at a client to the handler in the node that serves the client.
use cluster_chat_server_with.Prelude.{
  ℕ, ◌≤◌, ◌<◌, ◌≡◌, refl, sym, ◌∙◌, ap, Bool, true, false, List, [], ◌∷◌, ◌++◌, some, arith, Bytes,
  length, get_or, concat, append-nil, ℤ, pos, find, bytes_eq, bytes_eq_inst,
}
use cluster_chat_server_with.Text.{codes, decimal}
use cluster_chat_server_with.Json.{Json, Fields, IsFaithful}
use cluster_chat_server_with.Wire.Client.{feed_client}
use cluster_chat_server_with.Client.{Client}
use cluster_chat_server_with.Client.Input.{line_then, fits, read_line-fits}
use cluster_chat_server_with.Client.Commands.{
  back, chat_fields, groupchat_fields, send_request, run_line, menu_round,
}
use cluster_chat_server_with.Client.Typed.{chat-line, groupchat-line}
use cluster_chat_server_with.Service.Connections.{Conn}
use cluster_chat_server_with.Service.Chat
use cluster_chat_server_with.Service.Chat.{Peers, Node}
use cluster_chat_server_with.Service.Group.{group_chat}
use cluster_chat_server_with.Service.Requests.{
  get_handler, run_handler, handle_one_chat, handle_group_chat, handle_parsed, handle_request,
  serve_requests,
}
use cluster_chat_server_with.Service.Link.{IsRequest, feed_client-requests}

opens_long : (t : Bytes) → get_or t 0 0 ≡ b'{' → 0 < length t
opens_long [] e = absurd (omega arith)
opens_long (c ∷ cs) e = omega arith

module _ (j : Json) (p : Peers) (loop_of : Conn → ℕ) (in_loop : ℕ → Bool) where
  abbrev S : Type 0
  S = Node p loop_of in_loop

  faithful-IsRequest : (fs : Fields) → IsFaithful j fs → IsRequest (j.dump (j.make fs))
  faithful-IsRequest fs h = (opens_long (j.dump (j.make fs)) h.opens, h.no_nul)

  -- One request on the wire, in any chunks, is handled once.
  served_once :
      (fs : Fields) (conn : Conn) (chunks : List Bytes) (s : S)
      → IsFaithful j fs
      → concat chunks ≡ j.dump (j.make fs) ++ 0 ∷ []
      → (rs : List Bytes) × (feed_client [] chunks ≡ some (rs, []))
        × (serve_requests j p loop_of in_loop conn rs s
            ≡ handle_parsed j p loop_of in_loop (some (j.make fs)) conn s)
  unfolding serve_requests handle_request
  served_once fs conn chunks s h e = (
    j.dump (j.make fs) ∷ [],
    feed_client-requests (j.dump (j.make fs) ∷ []) chunks (faithful-IsRequest fs h, tt)
        (e ∙ sym (append-nil (j.dump (j.make fs) ++ 0 ∷ []))),
    ap (λ r. handle_parsed j p loop_of in_loop r conn s) h.parsed,
  )

  handled_chat :
      (js : j.Value) (conn : Conn) (from to : ℤ) (s : S)
      → j.get_int (codes "msgId") js ≡ some (pos 6)
      → j.get_int (codes "to") js ≡ some to
      → j.get_int (codes "id") js ≡ some from
      → handle_parsed j p loop_of in_loop (some js) conn s
        ≡ (Chat.one_chat p loop_of in_loop from to (j.dump js) s).1
  unfolding handle_parsed get_handler run_handler handle_one_chat
  handled_chat js conn from to s a b c = rw (a, handle_parsed, b, c) refl

  handled_groupchat :
      (js : j.Value) (conn : Conn) (from group : ℤ) (s : S)
      → j.get_int (codes "msgId") js ≡ some (pos 10)
      → j.get_int (codes "id") js ≡ some from
      → j.get_int (codes "groupid") js ≡ some group
      → handle_parsed j p loop_of in_loop (some js) conn s
        ≡ (group_chat p loop_of in_loop from group (j.dump js) s).1
  unfolding handle_parsed get_handler run_handler handle_group_chat
  handled_groupchat js conn from group s a b c = rw (a, handle_parsed, b, c) refl

  -- The line `chat:`, a user's id, a colon and a message, typed at a client whose connection works:
  -- the client sends one request and is back in the menu, with the rest of the input ahead; and when
  -- the request's bytes reach the client's node, in any chunks, the node runs `oneChat` once, from
  -- the client's user to that id, with the request's text. The line fits the buffer of 1024 bytes
  -- and holds no NUL; the message may hold colons. The id is an int, and the JSON library is right
  -- about the request.
  pub typed_chat :
      (c : Client) (to : ℕ) (msg time later : Bytes) (conn : Conn) (chunks : List Bytes) (s : S)
      → to ≤ 2147483647
      → fits 1023 (codes "chat:" ++ (decimal to ++ b':' ∷ msg)) ≡ true
      → IsFaithful j (chat_fields c (pos to) msg time)
      → let request = j.dump (j.make (chat_fields c (pos to) msg time)) in
        concat chunks ≡ request ++ 0 ∷ []
        → (menu_round j time true c (line_then (codes "chat:" ++ (decimal to ++ b':' ∷ msg)) later)
            ≡ (
              back (record c { sent = c.sent ++ (request ++ 0 ∷ []) ∷ [] }),
              record { typed = later; failed = false },
            ))
          × ((rs : List Bytes) × (feed_client [] chunks ≡ some (rs, []))
              × (serve_requests j p loop_of in_loop conn rs s
                  ≡ (Chat.one_chat p loop_of in_loop c.current_user.id (pos to) request s).1))
  unfolding send_request menu_round
  typed_chat c to msg time later conn chunks s h short f e =
      let fs = chat_fields c (pos to) msg time in
      let (rs, fed, served) = served_once fs conn chunks s f e in
      (
        ap (λ q. (run_line j time true c q.0, q.1))
              (read_line-fits (codes "chat:" ++ (decimal to ++ b':' ∷ msg)) later short)
            ∙ ap (λ o. (o, record { typed = later; failed = false }))
                (chat-line j time true c to msg h),
        (
          rs,
          fed,
          served
              ∙ handled_chat (j.make fs) conn c.current_user.id (pos to) s
                  (f.got_int (codes "msgId") (pos 6) (unfold find bytes_eq in refl))
                  (f.got_int (codes "to") (pos to) (unfold find bytes_eq in refl))
                  (f.got_int (codes "id") c.current_user.id (unfold find bytes_eq in refl)),
        ),
      )

  -- The line `groupchat:`, a group's id, a colon and a message, typed at a client whose connection
  -- works: the client sends one request and is back in the menu, with the rest of the input ahead;
  -- and when the request's bytes reach the client's node, in any chunks, the node runs `groupChat`
  -- once, from the client's user to that group, with the request's text. The line fits the buffer of
  -- 1024 bytes and holds no NUL. The id is an int, and the JSON library is right about the request.
  pub typed_groupchat :
      (c : Client) (group : ℕ) (msg time later : Bytes) (conn : Conn) (chunks : List Bytes) (s : S)
      → group ≤ 2147483647
      → fits 1023 (codes "groupchat:" ++ (decimal group ++ b':' ∷ msg)) ≡ true
      → IsFaithful j (groupchat_fields c (pos group) msg time)
      → let request = j.dump (j.make (groupchat_fields c (pos group) msg time)) in
        concat chunks ≡ request ++ 0 ∷ []
        → (menu_round j time true c
              (line_then (codes "groupchat:" ++ (decimal group ++ b':' ∷ msg)) later)
            ≡ (
              back (record c { sent = c.sent ++ (request ++ 0 ∷ []) ∷ [] }),
              record { typed = later; failed = false },
            ))
          × ((rs : List Bytes) × (feed_client [] chunks ≡ some (rs, []))
              × (serve_requests j p loop_of in_loop conn rs s
                  ≡ (group_chat p loop_of in_loop c.current_user.id (pos group) request s).1))
  unfolding send_request menu_round
  typed_groupchat c group msg time later conn chunks s h short f e =
      let fs = groupchat_fields c (pos group) msg time in
      let (rs, fed, served) = served_once fs conn chunks s f e in
      (
        ap (λ q. (run_line j time true c q.0, q.1))
              (read_line-fits (codes "groupchat:" ++ (decimal group ++ b':' ∷ msg)) later short)
            ∙ ap (λ o. (o, record { typed = later; failed = false }))
                (groupchat-line j time true c group msg h),
        (
          rs,
          fed,
          served
              ∙ handled_groupchat (j.make fs) conn c.current_user.id (pos group) s
                  (f.got_int (codes "msgId") (pos 10) (unfold find bytes_eq in refl))
                  (f.got_int (codes "id") c.current_user.id (unfold find bytes_eq in refl))
                  (f.got_int (codes "groupid") (pos group) (unfold find bytes_eq in refl)),
        ),
      )
