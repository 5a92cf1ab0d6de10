-- ===== src/Wire/Receive.antt =====
-- `ClusterServer::onMessage` (src/server/clusterserver.cpp): the loop that takes the ONC1 frames
-- and the NUL-terminated JSON messages out of a connection's buffer.
use cluster_chat_server_with.Prelude.{
  ℕ, zero, suc, ◌+◌, ◌-◌, Bool, true, false, List, [], ◌∷◌, ◌++◌, Option, none, some, Bytes, length,
  take, drop, get_or, eqb, ltb, if◌then◌else◌, ℤ, bytes_eq,
}
use cluster_chat_server_with.Wire.Frame.{
  magic, magic_bytes, header_bytes, body_prefix_bytes, read_uint32, to_int,
}

-- A call into ChatService: `handleClusterOneChatFrame(toUser, payload)`, or `json::parse` of a text
-- with `handleClusterMessage` on its result, inside the `try`.
pub data Delivery : Type 0 where
  one_chat : ℤ → Bytes → Delivery
  message : Bytes → Delivery

-- What one round of the loop does: `break` with the buffer kept, `clear` and `break`, or go on with
-- the rest of the buffer after a call or after an empty message.
pub data Round : Type 0 where
  wait drop_all : Round
  deliver : Delivery → Bytes → Round
  skip : Bytes → Round

-- `pending->find('\0')`
unfoldable pub find_nul : Bytes → Option ℕ
find_nul [] = none
find_nul (c ∷ cs) =
    let rest = find_nul cs in
    if eqb c 0 then some 0 else elim rest [ none ↦ none | some i ↦ some (suc i) ]

-- The branch for a complete header.
unfoldable pub next_body : Bytes → ℕ → Round
next_body p body_len =
    let frame_len = magic_bytes + header_bytes + body_len - body_prefix_bytes in
    if ltb body_len body_prefix_bytes
    then drop_all
    else if ltb (length p) frame_len
    then wait
    else deliver
        (one_chat (to_int (read_uint32 (drop (magic_bytes + 4) p)))
          (take (body_len - body_prefix_bytes) (drop (magic_bytes + header_bytes) p)))
        (drop frame_len p)

-- The branch for a buffer that begins with 'O'.
unfoldable pub next_frame : Bytes → Round
next_frame p =
    if ltb (length p) magic_bytes
    then wait
    else if bytes_eq (take magic_bytes p) magic
    then if ltb (length p) (magic_bytes + header_bytes)
      then wait
      else next_body p (read_uint32 (drop magic_bytes p))
    else drop_all

unfoldable pub next_json : Bytes → Round
next_json p = elim (find_nul p) [
  | none ↦ wait
  | some end ↦
      if eqb end 0
      then skip (drop (end + 1) p)
      else deliver (message (take end p)) (drop (end + 1) p)
]

unfoldable pub next : Bytes → Round
next p = if eqb (get_or p 0 0) b'O' then next_frame p else next_json p

-- The calls that the loop made, the buffer that it leaves, and whether it cleared the buffer.
pub record Outcome : Type 0 where
  pub calls : List Delivery
  pub pending : Bytes
  pub cleared : Bool

abbrev pub called : Delivery → Outcome → Outcome
called d o = record o { calls = d ∷ o.calls }

-- `none` means that the fuel ran out.
unfoldable pub receive : ℕ → Bytes → Option Outcome
receive zero p = none
receive (suc f) [] = some (record { calls = []; pending = []; cleared = false })
receive (suc f) (c ∷ cs) = elim (next (c ∷ cs)) [
  | wait ↦ some (record { calls = []; pending = c ∷ cs; cleared = false })
  | drop_all ↦ some (record { calls = []; pending = []; cleared = true })
  | deliver d rest ↦ elim (receive f rest) [ none ↦ none | some o ↦ some (called d o) ]
  | skip rest ↦ receive f rest
]

-- One event: `pending->append(buffer->retrieveAllAsString())` and the loop.
unfoldable pub on_message : Bytes → Bytes → Option Outcome
on_message pending chunk = receive (suc (length (pending ++ chunk))) (pending ++ chunk)

-- The events of one connection, a chunk of bytes each.
unfoldable pub feed : Bytes → List Bytes → Option Outcome
feed pending [] = some (record { calls = []; pending = pending; cleared = false })
feed pending (chunk ∷ chunks) = elim (on_message pending chunk) [
  | none ↦ none
  | some o ↦ elim (feed o.pending chunks) [
    | none ↦ none
    | some r ↦ some (record {
      calls = o.calls ++ r.calls;
      pending = r.pending;
      cleared = if o.cleared then true else r.cleared;
    })
  ]
]
