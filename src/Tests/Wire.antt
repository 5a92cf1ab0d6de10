-- ===== src/Tests/Wire.antt =====
-- Streams of frames, cut into chunks, and client requests.
use cluster_chat_server_with.Prelude.{
  ◌≡◌, refl, false, true, List, [], ◌∷◌, map, concat, some, arith, Bytes, bytes_eq, take, drop, pos,
  negsuc,
}
use cluster_chat_server_with.Text.{codes}
use cluster_chat_server_with.Wire.Frame.{one_chat_frame, append_uint32, read_uint32}
use cluster_chat_server_with.Wire.Receive.{
  Delivery, Outcome, one_chat, message, find_nul, next_body, next_frame, next_json, next, receive,
  on_message, feed,
}
use cluster_chat_server_with.Wire.Chunks.{on_message_total, feed_chunks}
use cluster_chat_server_with.Wire.RoundTrip.{encode, feed-encode}
use cluster_chat_server_with.Wire.Client.{feed_client}
use cluster_chat_server_with.Wire.Requests.{scan, feed_client-chunks}

abbrev messages : List Delivery
messages =
    one_chat (pos 300) (codes "{\"msg\":1}") ∷ message (codes "{}") ∷ one_chat (negsuc 1) [] ∷ []

abbrev stream : Bytes
stream = concat (map encode messages)

-- A cut inside the first header, one inside the first payload.
abbrev chunks : List Bytes
chunks = take 5 stream ∷ take 12 (drop 5 stream) ∷ drop 12 (drop 5 stream) ∷ []

feed-encode_example :
    feed [] chunks ≡ some (record { calls = messages; pending = []; cleared = false })
unfolding encode one_chat_frame append_uint32
feed-encode_example =
    feed-encode messages chunks
      (
        (omega arith, omega arith),
        ((refl, (omega arith, (omega arith, tt))), ((omega arith, omega arith), tt)),
      )
      refl

abbrev open_text : Outcome
open_text = record { calls = message (codes "a") ∷ []; pending = codes "bc"; cleared = false }

feed_chunks_example : feed [] ((b'a' ∷ 0 ∷ []) ∷ codes "b" ∷ codes "c" ∷ []) ≡ some open_text
unfolding on_message receive next next_json find_nul
feed_chunks_example =
    feed_chunks ((b'a' ∷ 0 ∷ []) ∷ codes "b" ∷ codes "c" ∷ []) {o = open_text} refl refl

-- A buffer that begins with 'O' and is no frame is cleared.
feed-garbage :
    feed [] (codes "OK" ∷ codes "AY {" ∷ [])
    ≡ some (record { calls = []; pending = []; cleared = true })
unfolding feed on_message receive next next_frame next_json next_body find_nul read_uint32 bytes_eq
feed-garbage = refl

on_message_total_example :
    (o : Outcome) × (on_message (codes "{") (codes "}") ≡ some o)
    × (on_message o.pending [] ≡ some (record { calls = []; pending = o.pending; cleared = false }))
on_message_total_example = on_message_total (codes "{") (codes "}")

feed_client-chunks_example :
    feed_client [] ((b'a' ∷ 0 ∷ 0 ∷ b'b' ∷ []) ∷ (b'c' ∷ 0 ∷ b'd' ∷ []) ∷ [])
    ≡ some (codes "a" ∷ codes "bc" ∷ [], codes "d")
unfolding scan
feed_client-chunks_example =
    feed_client-chunks ((b'a' ∷ 0 ∷ 0 ∷ b'b' ∷ []) ∷ (b'c' ∷ 0 ∷ b'd' ∷ []) ∷ [])
