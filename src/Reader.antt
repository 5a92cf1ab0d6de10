-- ===== src/Reader.antt =====
-- `findJsonEnd` of the client (src/client/main.cpp), which cuts JSON objects out of what it received.
pub mod Objects
use cluster_chat_server_with.Prelude.{
  ℕ, zero, suc, ◌+◌, Bool, true, false, ◌||◌, List, [], ◌∷◌, Option, none, some, Bytes, take, drop,
  length, eqb, is_empty, if◌then◌else◌, ℤ, pos, negsuc, int_eq,
}

-- `++depth` and `--depth`.
unfoldable pub up : ℤ → ℤ
up (pos n) = pos (suc n)
up (negsuc zero) = pos 0
up (negsuc (suc n)) = negsuc n

unfoldable pub down : ℤ → ℤ
down (pos zero) = negsuc 0
down (pos (suc n)) = pos n
down (negsuc n) = negsuc (suc n)

abbrev pub later : ℕ → Option ℕ → Option ℕ
later k none = none
later k (some n) = some (k + n)

-- The loop of `findJsonEnd` with its three variables, as the number of bytes that it takes.
unfoldable pub scan_object : ℤ → Bool → Bool → Bytes → Option ℕ
unfolding up down
scan_object depth in_str esc [] = none
scan_object depth in_str true (c ∷ cs) = later 1 (scan_object depth in_str false cs)
scan_object depth true false (c ∷ cs) =
    let escaped = later 1 (scan_object depth true true cs) in
    let closed = later 1 (scan_object depth false false cs) in
    let inside = later 1 (scan_object depth true false cs) in
    if eqb c b'\\' then escaped else if eqb c b'"' then closed else inside
scan_object depth false false (c ∷ cs) =
    let opened = later 1 (scan_object depth true false cs) in
    let deeper = later 1 (scan_object (up depth) false false cs) in
    let out = later 1 (scan_object (down depth) false false cs) in
    let same = later 1 (scan_object depth false false cs) in
    if eqb c b'"'
    then opened
    else if eqb c b'{'
    then deeper
    else if eqb c b'}'
    then if int_eq (down depth) (pos 0) then some 1 else out
    else same

unfoldable pub find_json_end : Bytes → Option ℕ
unfolding scan_object
find_json_end buf = scan_object (pos 0) false false buf
