-- ===== src/Config.antt =====
-- src/server/config.cpp: the environment and the .env file.
pub mod Env
use cluster_chat_server_with.Prelude.{
  ℕ, zero, suc, ◌+◌, ◌-◌, ◌*◌, Bool, ◌&&◌, ◌||◌, List, [], ◌∷◌, Option, none, some, Bytes, length,
  take, drop, get_or, eqb, leb, is_empty, if◌then◌else◌, ℤ, pos, negsuc, Map, find, assign,
  bytes_eq, bytes_eq_inst,
}

-- `isspace` in the C locale.
abbrev pub is_space : ℕ → Bool
is_space c = eqb c b' ' || (leb 9 c && leb c 13)

abbrev pub is_digit : ℕ → Bool
is_digit c = leb b'0' c && leb c b'9'

-- The first loop of `trimCopy`.
unfoldable pub trim_left : Bytes → Bytes
trim_left [] = []
trim_left (c ∷ cs) = let rest = trim_left cs in if is_space c then rest else c ∷ cs

-- The second loop, which walks back from the end.
unfoldable pub trim_right : Bytes → Bytes
trim_right [] = []
trim_right (c ∷ cs) =
    let rest = trim_right cs in if is_space c && is_empty rest then [] else c ∷ rest

unfoldable pub trim_copy : Bytes → Bytes
unfolding trim_left trim_right
trim_copy s = trim_right (trim_left s)

-- `atoi`: blanks, a sign, digits. (A value outside int is undefined behaviour in the source.)
unfoldable pub digits_value : ℕ → Bytes → ℕ
digits_value acc [] = acc
digits_value acc (c ∷ cs) =
    let rest = digits_value (acc * 10 + (c - b'0')) cs in if is_digit c then rest else acc

abbrev negate : ℕ → ℤ
negate zero = pos 0
negate (suc n) = negsuc n

unfoldable pub atoi : Bytes → ℤ
unfolding trim_left digits_value
atoi s =
    let t = trim_left s in
    if eqb (get_or t 0 0) b'-'
    then negate (digits_value 0 (drop 1 t))
    else if eqb (get_or t 0 0) b'+'
    then pos (digits_value 0 (drop 1 t))
    else pos (digits_value 0 t)

-- The process environment.
abbrev pub Environment : Type 0
Environment = Map Bytes Bytes

unfoldable pub get_env_or_default : Environment → Bytes → Bytes → Bytes
get_env_or_default env key default_value = elim (find key env) [
  | none ↦ default_value
  | some value ↦ if is_empty value then default_value else value
]

unfoldable pub get_env_int_or_default : Environment → Bytes → ℤ → ℤ
get_env_int_or_default env key default_value = elim (find key env) [
  | none ↦ default_value
  | some value ↦ if is_empty value then default_value else atoi value
]

-- `find('=')`
unfoldable pub find_byte : ℕ → Bytes → Option ℕ
find_byte b [] = none
find_byte b (c ∷ cs) =
    let rest = find_byte b cs in
    if eqb c b then some 0 else elim rest [ none ↦ none | some i ↦ some (suc i) ]

abbrev export_prefix : Bytes
export_prefix = b'e' ∷ b'x' ∷ b'p' ∷ b'o' ∷ b'r' ∷ b't' ∷ b' ' ∷ []

abbrev last_byte : Bytes → ℕ
last_byte s = get_or s (length s - 1) 0

-- Both ends hold the same quotation mark.
abbrev is_quoted : Bytes → Bool
is_quoted v =
    leb 2 (length v)
    && ((eqb (get_or v 0 0) b'"' && eqb (last_byte v) b'"')
        || (eqb (get_or v 0 0) b'\'' && eqb (last_byte v) b'\''))

-- One round of the loop of `loadEnvFile`: the key and the value of a line, or `none` on `continue`.
unfoldable pub parse_line : Bytes → Option (Bytes × Bytes)
unfolding trim_copy find_byte
parse_line line =
    let trimmed = trim_copy line in
    if is_empty trimmed || eqb (get_or trimmed 0 0) b'#'
    then none
    else let body =
        if bytes_eq (take 7 trimmed) export_prefix then trim_copy (drop 7 trimmed) else trimmed in
      elim (find_byte b'=' body) [
        | none ↦ none
        | some p ↦
            let key = trim_copy (take p body) in
            let value = trim_copy (drop (p + 1) body) in
            if is_empty key
            then none
            else some
                (key, if is_quoted value then take (length value - 2) (drop 1 value) else value)
      ]

-- `setenv(key, value, 0)`: a variable that is set already keeps its value.
unfoldable pub setenv_keep : Environment → Bytes → Bytes → Environment
setenv_keep env key value = elim (find key env) [ none ↦ assign key value env | some old ↦ env ]

-- The lines of the file, in order.
unfoldable pub load_env_lines : Environment → List Bytes → Environment
unfolding parse_line setenv_keep
load_env_lines env [] = env
load_env_lines env (line ∷ lines) = elim (parse_line line) [
  | none ↦ load_env_lines env lines
  | some (key, value) ↦ load_env_lines (setenv_keep env key value) lines
]
