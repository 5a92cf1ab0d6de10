-- ===== src/Tests/Reader.antt =====
-- An object whose string holds a brace and a quotation mark.
use cluster_chat_server_with.Prelude.{◌≡◌, refl, none, some, [], ◌∷◌, ◌++◌, arith, length}
use cluster_chat_server_with.Text.{codes}
use cluster_chat_server_with.Reader.{find_json_end, scan_object}
use cluster_chat_server_with.Reader.Objects.{
  Body, nothing, other, quoted, object, raw, escaped, print, IsBody, AreRaw, find_json_end-object,
}

abbrev pub body : Body
body = quoted (raw b'}' ∷ escaped b'"' ∷ []) (other b':' (object nothing nothing))

pub body-IsBody : IsBody body
unfolding IsBody AreRaw
body-IsBody = (
  (λ e. omega arith, λ e. omega arith, tt),
  (λ e. omega arith, λ e. omega arith, λ e. omega arith, (tt, tt)),
)

find_json_end-object_example :
    find_json_end (print (object body nothing) ++ codes "{")
    ≡ some (length (print (object body nothing)))
find_json_end-object_example = find_json_end-object body (codes "{") body-IsBody

find_json_end-open : find_json_end (codes "{\"a\":{}") ≡ none
unfolding find_json_end scan_object
find_json_end-open = refl
