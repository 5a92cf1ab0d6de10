-- ===== src/Models/Statements.antt =====
-- What the 1024-byte buffer does to the statement that stores an offline message
-- (src/server/model/offlinemessagemodel.cpp).
use cluster_chat_server_with.Prelude.{
  ℕ, zero, suc, ◌+◌, ◌≤◌, ◌≡◌, refl, [], ◌∷◌, ◌++◌, arith, Bytes, length, take, eqb, if◌then◌else◌,
  ℤ, pos, negsuc, length-append, append_assoc, take-append_le,
}
use cluster_chat_server_with.Text.{codes, decimal, IsDigits, decimal-IsDigits, to_string}
use cluster_chat_server_with.Models.{format_sql, insert_offline_text}

-- How often a byte stands in a text.
abbrev pub count : ℕ → Bytes → ℕ
count b [] = 0
count b (c ∷ cs) = (if eqb c b then 1 else 0) + count b cs

count-append : (b : ℕ) (s t : Bytes) → count b (s ++ t) ≡ count b s + count b t
count-append b [] t = omega arith
count-append b (c ∷ cs) t = omega (arith, count-append b cs t)

count-take : (b n : ℕ) (s : Bytes) → count b (take n s) ≤ count b s
count-take b zero s = omega arith
count-take b (suc n) [] = omega arith
count-take b (suc n) (c ∷ cs) = omega (arith, count-take b n cs)

count-take_front : (b n : ℕ) (s t : Bytes) → length s ≤ n → count b s ≤ count b (take n (s ++ t))
count-take_front b n [] t h = omega arith
count-take_front b zero (c ∷ cs) t h = absurd (omega arith)
count-take_front b (suc n) (c ∷ cs) t h = omega (arith, count-take_front b n cs t (omega arith))

count-digits : (s : Bytes) → IsDigits s → count b'\'' s ≡ 0
count-digits [] h = refl
count-digits (c ∷ cs) h = ground (arith, h.0, count-digits cs h.1)

count-to_string : (i : ℤ) → count b'\'' (to_string i) ≡ 0
unfolding to_string
count-to_string (pos n) = count-digits (decimal n) (decimal-IsDigits n)
count-to_string (negsuc n) =
    let digits : count b'\'' (decimal (suc n)) ≡ 0 =
      count-digits (decimal (suc n)) (decimal-IsDigits (suc n)) in
    omega arith

-- The statement up to the quotation mark that opens the message.
opening : ℤ → Bytes
opening i = codes "insert into offlinemessage values(" ++ (to_string i ++ codes ", '")

count-opening : (i : ℤ) → count b'\'' (opening i) ≡ 1
unfolding opening
count-opening i =
    let front : count b'\'' (codes "insert into offlinemessage values(") ≡ 0 = refl in
    let back : count b'\'' (codes ", '") ≡ 1 = refl in
    omega (
      arith,
      count-append b'\'' (codes "insert into offlinemessage values(") (to_string i ++ codes ", '"),
      count-append b'\'' (to_string i) (codes ", '"),
      count-to_string i,
    )

length-opening : (i : ℤ) → length (opening i) ≡ 34 + (length (to_string i) + 3)
unfolding opening
length-opening i = omega (arith, length-append (to_string i) (codes ", '"))

text-opening : (i : ℤ) (msg : Bytes) → insert_offline_text i msg ≡ (opening i ++ msg) ++ codes "')"
unfolding insert_offline_text opening
text-opening i msg = simp append_assoc

-- A message without a quotation mark, for a user id of at most 11 characters, that fills the 1023
-- bytes after the statement's first part: the statement that is sent holds one quotation mark, so
-- the text literal that it opens is never closed.
pub insert_offline-unclosed :
    (user_id : ℤ) (msg : Bytes)
    → length (to_string user_id) ≤ 11
    → count b'\'' msg ≡ 0
    → 986 ≤ length (to_string user_id) + length msg
    → count b'\'' (format_sql (insert_offline_text user_id msg)) ≡ 1
unfolding format_sql
insert_offline-unclosed i msg short none_in long =
    let fills : 1023 ≤ length (opening i ++ msg) =
      omega (arith, length-append (opening i) msg, length-opening i) in
    rw (text-opening i msg, take-append_le 1023 (opening i ++ msg) (codes "')") fills)
      (omega (
        arith,
        count-take b'\'' 1023 (opening i ++ msg),
        count-take_front b'\'' 1023 (opening i) msg (omega (arith, length-opening i)),
        count-append b'\'' (opening i) msg,
        count-opening i,
      ))
