-- ===== src/Client/Receive.antt =====
-- The loop of `readTaskHandler`: the JSON objects in what was received.
use cluster_chat_server_with.Prelude.{
  ℕ, zero, suc, Bool, ◌||◌, List, [], ◌∷◌, ◌++◌, Option, none, some, Bytes, length, take, drop, eqb,
  if◌then◌else◌,
}
use cluster_chat_server_with.Json.{Json}
use cluster_chat_server_with.Reader.{find_json_end}
use cluster_chat_server_with.Client.{Client}
use cluster_chat_server_with.Client.Responses.{handle_messages}

-- NUL, space, newline, carriage return and tab.
abbrev pub is_blank : ℕ → Bool
is_blank c = eqb c 0 || (eqb c b' ' || (eqb c 10 || (eqb c 13 || eqb c 9)))

unfoldable pub skip_blank : Bytes → Bytes
skip_blank [] = []
skip_blank (c ∷ cs) = let rest = skip_blank cs in if is_blank c then rest else c ∷ cs

-- The `while` loop over what is left of `recvBuf` from `pos` on, and what `erase(0, pos)` leaves.
-- `none` means that the fuel ran out.
unfoldable pub extract : ℕ → Bytes → Option (List Bytes × Bytes)
unfolding skip_blank
extract zero buf = none
extract (suc f) buf =
    let kept = skip_blank buf in
    elim (find_json_end kept) [
      | none ↦ some ([], kept)
      | some end ↦ elim (extract f (drop end kept)) [
        | none ↦ none
        | some (texts, rest) ↦ some (take end kept ∷ texts, rest)
      ]
    ]

-- One `recv`.
unfoldable pub on_receive : Bytes → Bytes → Option (List Bytes × Bytes)
unfolding extract
on_receive recv_buf chunk = extract (suc (length (recv_buf ++ chunk))) (recv_buf ++ chunk)

unfoldable pub feed_reader : Bytes → List Bytes → Option (List Bytes × Bytes)
unfolding on_receive
feed_reader recv_buf [] = some ([], recv_buf)
feed_reader recv_buf (chunk ∷ chunks) = elim (on_receive recv_buf chunk) [
  | none ↦ none
  | some (texts, rest) ↦ elim (feed_reader rest chunks) [
    | none ↦ none
    | some (more, left) ↦ some (texts ++ more, left)
  ]
]

-- The thread on what it received, in chunks.
unfoldable pub read_task : Json → List Bytes → Client → Option Client
unfolding feed_reader
read_task j chunks c = elim (feed_reader [] chunks) [
  | none ↦ none
  | some (texts, rest) ↦ some (handle_messages j texts c)
]
