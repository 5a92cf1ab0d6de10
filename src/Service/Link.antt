-- ===== src/Service/Link.antt =====
-- The TCP connections to a node, with the loops at their end, stand for direct calls of its
-- handlers.
use cluster_chat_server_with.Prelude.{
  ℕ, zero, suc, ◌+◌, ◌<◌, ◌≡◌, refl, ◌∙◌, ap, Bool, false, List, [], ◌∷◌, ◌++◌, map, some, arith,
  Bytes, All, length, concat, append_assoc, append-nil, ℤ, pos, find, bytes_eq, bytes_eq_inst,
}
use cluster_chat_server_with.Text.{codes}
use cluster_chat_server_with.Json.{Json, IsFaithful}
use cluster_chat_server_with.Wire.Frame.{one_chat_frame, IsInt, u32_mod}
use cluster_chat_server_with.Wire.Receive.{Delivery, Outcome, one_chat, message, feed}
use cluster_chat_server_with.Wire.RoundTrip.{encode, IsSendable, feed-encode}
use cluster_chat_server_with.Wire.Client.{feed_client}
use cluster_chat_server_with.Wire.Requests.{scan, feed_client-chunks}
use cluster_chat_server_with.Router.Table.{GroupMessage}
use cluster_chat_server_with.Service.Connections.{Conn}
use cluster_chat_server_with.Service.Chat.{
  Peers, Node, handle_cluster_one_chat_frame, handle_cluster_group_chat,
}
use cluster_chat_server_with.Service.Requests.{
  group_fields, handle_cluster_message, handle_cluster_users, handle_json, handle_delivery,
  serve_deliveries,
}

-- What one node sends to another: `sendOneChat` and `sendGroupChat`.
pub data Outgoing : Type 0 where
  to_user : ℤ → Bytes → Outgoing
  to_users : GroupMessage → Outgoing

module _ (j : Json) where
  abbrev group_text : GroupMessage → Bytes
  group_text g = j.dump (j.make (group_fields g))

  -- The message that goes to the channel.
  unfoldable pub outgoing_bytes : Outgoing → Bytes
  outgoing_bytes (to_user u payload) = one_chat_frame u payload
  outgoing_bytes (to_users g) = group_text g ++ 0 ∷ []

  -- The user's id is an int and the payload fits the frame's header; the JSON library is faithful on
  -- the object.
  abbrev pub CanGo : Outgoing → Type 0
  CanGo (to_user u payload) = IsInt u × (4 + length payload < u32_mod)
  CanGo (to_users g) = IsFaithful j (group_fields g)

  abbrev delivered : Outgoing → Delivery
  delivered (to_user u payload) = one_chat u payload
  delivered (to_users g) = message (group_text g)

  bytes-encode : (m : Outgoing) → outgoing_bytes m ≡ encode (delivered m)
  unfolding outgoing_bytes encode
  bytes-encode (to_user u payload) = refl
  bytes-encode (to_users g) = refl

  stream-encode :
      (ms : List Outgoing) → concat (map outgoing_bytes ms) ≡ concat (map encode (map delivered ms))
  stream-encode [] = refl
  stream-encode (m ∷ ms) = rw (bytes-encode m, stream-encode ms) refl

  delivered-IsSendable : (ms : List Outgoing) → All CanGo ms → All IsSendable (map delivered ms)
  delivered-IsSendable [] h = tt
  delivered-IsSendable (to_user u payload ∷ ms) (h, hs) = (h, delivered-IsSendable ms hs)
  delivered-IsSendable (to_users g ∷ ms) (h, hs) = ((h.opens, h.no_nul), delivered-IsSendable ms hs)

  module _ (p : Peers) (loop_of : Conn → ℕ) (in_loop : ℕ → Bool) where
    abbrev M : Type 0
    M = Node p loop_of in_loop

    -- The call that a message stands for.
    unfoldable pub direct_call : Outgoing → M → M
    direct_call (to_user u payload) s =
        (handle_cluster_one_chat_frame p loop_of in_loop u payload s).1
    direct_call (to_users g) s =
        (handle_cluster_group_chat p loop_of in_loop g.to_users g.payload s).1

    unfoldable pub direct_calls : List Outgoing → M → M
    direct_calls [] s = s
    direct_calls (m ∷ ms) s = direct_calls ms (direct_call m s)

    users-direct :
        (js : j.Value) (us : List ℤ) (payload : Bytes) (s : M)
        → j.get_int (codes "msgId") js ≡ some (pos 101)
        → j.get_ints (codes "toUsers") js ≡ some us
        → j.get_text (codes "payload") js ≡ some payload
        → handle_cluster_message j p loop_of in_loop js s
          ≡ (handle_cluster_group_chat p loop_of in_loop us payload s).1
    unfolding handle_cluster_message handle_cluster_users
    users-direct js us payload s a b c = rw (a, b, c) refl

    group-direct :
        (g : GroupMessage) (s : M)
        → IsFaithful j (group_fields g)
        → handle_delivery j p loop_of in_loop (message (group_text g)) s
          ≡ direct_call (to_users g) s
    unfolding handle_delivery direct_call handle_json
    group-direct g s h =
        ap (λ r. handle_json j p loop_of in_loop r s) h.parsed
        ∙ users-direct (j.make (group_fields g)) g.to_users g.payload s
            (h.got_int (codes "msgId") (pos 101) (unfold group_fields find bytes_eq in refl))
            (h.got_ints (codes "toUsers") g.to_users (unfold group_fields find bytes_eq in refl))
            (h.got_text (codes "payload") g.payload (unfold group_fields find bytes_eq in refl))

    delivery-direct :
        (m : Outgoing) (s : M)
        → CanGo m
        → handle_delivery j p loop_of in_loop (delivered m) s ≡ direct_call m s
    unfolding handle_delivery direct_call
    delivery-direct (to_user u payload) s h = refl
    delivery-direct (to_users g) s h = group-direct g s h

    serve-direct :
        (ms : List Outgoing) (s : M)
        → All CanGo ms
        → serve_deliveries j p loop_of in_loop (map delivered ms) s ≡ direct_calls ms s
    unfolding serve_deliveries direct_calls
    serve-direct [] s h = refl
    serve-direct (m ∷ ms) s (h, hs) =
        serve-direct ms _ hs ∙ ap (direct_calls ms) (delivery-direct m s h)

    -- Messages that can go, written one behind the other into a connection and cut into any chunks
    -- on the way: the receiving loop gives calls that leave the node as direct calls of its
    -- handlers would, one for each message, in order and with the same users and payload; and it
    -- leaves no bytes behind.
    pub link_refines :
        (ms : List Outgoing) (chunks : List Bytes) (s : M)
        → All CanGo ms
        → concat chunks ≡ concat (map outgoing_bytes ms)
        → (o : Outcome) × (feed [] chunks ≡ some o)
          × (o.pending ≡ [])
          × (serve_deliveries j p loop_of in_loop o.calls s ≡ direct_calls ms s)
    link_refines ms chunks s h e = (
      record { calls = map delivered ms; pending = []; cleared = false },
      feed-encode (map delivered ms) chunks (delivered-IsSendable ms h) (e ∙ stream-encode ms),
      refl,
      serve-direct ms s h,
    )

-- A client ends each request with a NUL.
abbrev pub request_bytes : Bytes → Bytes
request_bytes request = request ++ 0 ∷ []

-- A request is a text that is not empty and has no NUL.
abbrev pub IsRequest : Bytes → Type 0
IsRequest request = (0 < length request) × All (λ c. 0 < c) request

scan-request :
    (read rest s : Bytes)
    → All (λ c. 0 < c) rest
    → 0 < length (read ++ rest)
    → scan read (rest ++ 0 ∷ s) ≡ ((read ++ rest) ∷ (scan [] s).0, (scan [] s).1)
unfolding scan
scan-request [] [] s h n = absurd (omega arith)
scan-request (c ∷ cs) [] s h n = rw append-nil refl
scan-request read (zero ∷ rest) s (h, hs) n = absurd (omega arith)
scan-request read (suc c ∷ rest) s (h, hs) n =
    scan-request (read ++ suc c ∷ []) rest s hs (rw append_assoc n) ∙ rw append_assoc refl

scan-requests :
    (rs : List Bytes) → All IsRequest rs → scan [] (concat (map request_bytes rs)) ≡ (rs, [])
scan-requests [] h = unfold scan in refl
scan-requests (r ∷ rs) ((n, z), hs) =
    ap (scan []) (append_assoc r (0 ∷ []) (concat (map request_bytes rs)))
    ∙ scan-request [] r (concat (map request_bytes rs)) z n
    ∙ rw (scan-requests rs hs) refl

-- Requests that a client sends, cut into any chunks: the loop hands exactly these texts to the
-- handlers, in order, and keeps no bytes.
pub feed_client-requests :
    (rs : List Bytes) (chunks : List Bytes)
    → All IsRequest rs
    → concat chunks ≡ concat (map request_bytes rs)
    → feed_client [] chunks ≡ some (rs, [])
feed_client-requests rs chunks h e =
    feed_client-chunks chunks ∙ ap some (ap (scan []) e ∙ scan-requests rs h)
