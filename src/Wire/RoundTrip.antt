-- ===== src/Wire/RoundTrip.antt =====
-- What `sendOneChat` and `sendGroupChat` write, the receiving node reads back.
use cluster_chat_server_with.Prelude.{
  ℕ, suc, ◌+◌, ◌-◌, ◌%◌, ◌<◌, ◌≡◌, refl, ◌∙◌, ap, false, List, [], ◌∷◌, ◌++◌, map, some, arith,
  Bytes, All, length, take, drop, get_or, eqb, ge→ltb, bytes_eq, length-append, concat,
  append_assoc, take-length_append, drop-length_append, if◌then◌else◌, ℤ,
}
use cluster_chat_server_with.Wire.Frame.{
  u32_mod, magic, IsInt, append_uint32, to_u32, one_chat_frame, read-append_uint32, to_u32-lt,
  to_int, to_int-to_u32,
}
use cluster_chat_server_with.Wire.Receive.{
  Delivery, one_chat, message, find_nul, next_body, next_frame, next_json, next, deliver, skip,
  feed, called,
}
use cluster_chat_server_with.Wire.Run.{run, run-nil, run-deliver, on_message-run, map_outcome}
use cluster_chat_server_with.Wire.Chunks.{feed_chunks}

-- The bytes of a message: the frame of `sendOneChat`, or the text of `sendGroupChat` with its NUL.
unfoldable pub encode : Delivery → Bytes
unfolding one_chat_frame append_uint32
encode (one_chat to_user payload) = one_chat_frame to_user payload
encode (message text) = text ++ 0 ∷ []

-- A message that the sender can put on the wire: an `int` and a payload whose length fits the
-- header, or a JSON object's text, which begins with a brace and holds no NUL.
abbrev pub IsSendable : Delivery → Type 0
IsSendable (one_chat to_user payload) = IsInt to_user × (4 + length payload < u32_mod)
IsSendable (message text) = (get_or text 0 0 ≡ b'{') × All (λ c. 0 < c) text

find_nul-end : (t s : Bytes) → All (λ c. 0 < c) t → find_nul (t ++ 0 ∷ s) ≡ some (length t)
unfolding find_nul
find_nul-end [] s h = refl
find_nul-end (c ∷ cs) s h = ground (arith, find_nul-end cs s h.1)

get_or-append_ne : (t s : Bytes) (x : ℕ) → get_or t 0 0 ≡ x → 0 < x → get_or (t ++ s) 0 0 ≡ x
get_or-append_ne [] s x e h = absurd (omega arith)
get_or-append_ne (c ∷ cs) s x e h = e

drop_past : (t s : Bytes) → drop (suc (length t)) (t ++ 0 ∷ s) ≡ s
drop_past [] s = refl
drop_past (c ∷ cs) s = drop_past cs s

json_round :
    (t s : Bytes)
    → get_or t 0 0 ≡ b'{'
    → (if eqb (length t) 0
        then skip (drop (length t + 1) (t ++ 0 ∷ s))
        else deliver (message (take (length t) (t ++ 0 ∷ s))) (drop (length t + 1) (t ++ 0 ∷ s)))
      ≡ deliver (message t) s
json_round [] s e = absurd (omega arith)
json_round (c ∷ cs) s e =
    let after_nul : length (c ∷ cs) + 1 ≡ suc (length (c ∷ cs)) = omega arith in
    rw (after_nul, take-length_append cs (0 ∷ s), drop_past cs s) (ground arith)

encode-message : (t s : Bytes) → encode (message t) ++ s ≡ t ++ 0 ∷ s
unfolding encode
encode-message t s = append_assoc t (0 ∷ []) s

next-text : (t s : Bytes) → IsSendable (message t) → next (t ++ 0 ∷ s) ≡ deliver (message t) s
unfolding next next_json
next-text t s (b, h) =
    rw (get_or-append_ne t (0 ∷ s) b'{' b (omega arith), find_nul-end t s h, next_json)
      (json_round t s b)

next-message :
    (t s : Bytes) → IsSendable (message t) → next (encode (message t) ++ s) ≡ deliver (message t) s
next-message t s h = rw (encode-message t s) (next-text t s h)

abbrev header : ℕ → ℕ → Bytes → Bytes
header l u q = append_uint32 (append_uint32 magic l) u ++ q

next_frame-header :
    (l u : ℕ) (q : Bytes) → l < u32_mod → next_frame (header l u q) ≡ next_body (header l u q) l
unfolding next_frame append_uint32 bytes_eq
next_frame-header l u q h = ground (arith, read-append_uint32 l (append_uint32 [] u ++ q) h)

next_body-payload :
    (u : ℕ) (p s : Bytes)
    → u < u32_mod
    → next_body (header (4 + length p) u (p ++ s)) (4 + length p)
      ≡ deliver (one_chat (to_int u) p) s
unfolding next_body append_uint32
next_body-payload u p s h =
    let end : 4 + 8 + (4 + length p) - 4 ≡ length (header (4 + length p) u p) = omega arith in
    let body : 4 + length p - 4 ≡ length p = omega arith in
    rw
      (
        ge→ltb (4 + length p) 4 (omega arith),
        end,
        ge→ltb (length (header (4 + length p) u (p ++ s))) (length (header (4 + length p) u p))
            (omega (arith, length-append p s)),
        body,
        take-length_append p s,
        drop-length_append p s,
        read-append_uint32 u (p ++ s) h,
      )
      refl

next-one_chat :
    (u : ℤ) (p s : Bytes)
    → IsSendable (one_chat u p)
    → next (encode (one_chat u p) ++ s) ≡ deliver (one_chat u p) s
unfolding next encode
next-one_chat u p s (i, h) =
    next_frame-header ((4 + length p) % u32_mod) (to_u32 u) (p ++ s) (omega arith)
    ∙ rw (let fits : (4 + length p) % u32_mod ≡ 4 + length p = omega arith in fits) (
        next_body-payload (to_u32 u) p s (to_u32-lt u)
        ∙ ap (λ z. deliver (one_chat z p) s) (to_int-to_u32 u i))

next-encode : (m : Delivery) (s : Bytes) → IsSendable m → next (encode m ++ s) ≡ deliver m s
next-encode (one_chat u p) s h = next-one_chat u p s h
next-encode (message t) s h = next-message t s h

run-next :
    (p : Bytes) (d : Delivery) (r : Bytes)
    → next p ≡ deliver d r
    → run p ≡ map_outcome (called d) (run r)
run-next [] d r e = absurd (not_empty e)
  where
    not_empty : next [] ≡ deliver d r → ⊥
    not_empty e = unfold next next_json find_nul in cc
run-next (c ∷ cs) d r e = run-deliver c cs d r e

run-encode :
    (ms : List Delivery)
    → All IsSendable ms
    → run (concat (map encode ms)) ≡ some (record { calls = ms; pending = []; cleared = false })
run-encode [] h = run-nil
run-encode (m ∷ ms) (h, hs) =
    run-next (encode m ++ concat (map encode ms)) m (concat (map encode ms)) (next-encode m _ h)
    ∙ ap (map_outcome (called m)) (run-encode ms hs)

-- Sendable messages, encoded one behind the other and cut into any chunks, make the receiving loop
-- call ChatService once for each message, in order and with the same content, and leave the buffer
-- empty.
pub feed-encode :
    (ms : List Delivery) (chunks : List Bytes)
    → All IsSendable ms
    → concat chunks ≡ concat (map encode ms)
    → feed [] chunks ≡ some (record { calls = ms; pending = []; cleared = false })
feed-encode ms chunks h e =
    feed_chunks chunks (on_message-run [] (concat chunks) ∙ rw e (run-encode ms h)) refl
