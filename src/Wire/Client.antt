-- ===== src/Wire/Client.antt =====
-- `ChatServer::onMessage` (src/server/chatserver.cpp): the loop that takes the NUL-terminated
-- requests of a client out of the connection's buffer.
use cluster_chat_server_with.Prelude.{
  ℕ, zero, suc, ◌+◌, List, [], ◌∷◌, ◌++◌, Option, none, some, Bytes, length, take, drop, eqb,
  if◌then◌else◌,
}
use cluster_chat_server_with.Wire.Receive.{find_nul}

-- The requests handed to `json::parse` and the handler, each inside its `try`, and what is left
-- after `erase(0, start)`. The argument is the buffer from `start` on.
unfoldable pub split : ℕ → Bytes → Option (List Bytes × Bytes)
split zero p = none
split (suc f) p = elim (find_nul p) [
  | none ↦ some ([], p)
  | some end ↦ elim (split f (drop (end + 1) p)) [
    | none ↦ none
    | some (texts, rest) ↦ some (if eqb end 0 then texts else take end p ∷ texts, rest)
  ]
]

unfoldable pub on_client_message : Bytes → Bytes → Option (List Bytes × Bytes)
on_client_message pending chunk = split (suc (length (pending ++ chunk))) (pending ++ chunk)

-- The events of one client connection.
unfoldable pub feed_client : Bytes → List Bytes → Option (List Bytes × Bytes)
feed_client pending [] = some ([], pending)
feed_client pending (chunk ∷ chunks) = elim (on_client_message pending chunk) [
  | none ↦ none
  | some (texts, rest) ↦ elim (feed_client rest chunks) [
    | none ↦ none
    | some (more, left) ↦ some (texts ++ more, left)
  ]
]
