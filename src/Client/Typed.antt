-- ===== src/Client/Typed.antt =====
-- What becomes of a line that is typed.
use cluster_chat_server_with.Prelude.{
  false, ℕ, suc, ◌+◌, ◌/◌, ◌%◌, ◌≤◌, ◌<◌, ◌≡◌, refl, ◌∙◌, ap, ◌⊎◌, inl, inr, Bool, [], ◌∷◌, ◌++◌,
  none, some, arith, Bytes, length, take, ltb, pos, bytes_eq, bytes_eq_inst, Option-cases, if_cases,
  length-append, take-length_append,
}
use cluster_chat_server_with.Text.{
  codes, decimal, digits_of, IsDigits, decimal-IsDigits, value-decimal,
}
use cluster_chat_server_with.Config.{trim_copy, trim_left, trim_right, find_byte, digits_value}
use cluster_chat_server_with.Redis.Encoding.{digits_value-value, drop_mark}
use cluster_chat_server_with.Json.{Json}
use cluster_chat_server_with.Client.{Client}
use cluster_chat_server_with.Client.Input.{Input, read_line, take_line, c_string}
use cluster_chat_server_with.Client.Commands.{
  wide_colon, find_text, checked_digits, stoi, back, split_colon, find_separator, cut_line,
  parse_command, chat_fields, groupchat_fields, send_request, chat_to, chat, groupchat_to,
  groupchat, run_command, run_line, menu_round,
}

find_byte-digits : (s t : Bytes) → IsDigits s → find_byte b':' (s ++ b':' ∷ t) ≡ some (length s)
unfolding find_byte
find_byte-digits [] t h = refl
find_byte-digits (c ∷ cs) t h = ground (arith, h.0, find_byte-digits cs t h.1)

split_colon-digits : (s t : Bytes) → IsDigits s → split_colon (s ++ b':' ∷ t) ≡ some (s, t)
unfolding split_colon
split_colon-digits s t h =
    rw (find_byte-digits s t h, split_colon, take-length_append s (b':' ∷ t), drop_mark b':' s t)
      refl

split-none : (args : Bytes) → find_byte b':' args ≡ none → split_colon args ≡ none
unfolding split_colon
split-none args e = rw (e, split_colon) refl

stoi-digits :
    (s : Bytes)
    → IsDigits s
    → 0 < length s
    → digits_value 0 s ≤ 2147483647
    → stoi s ≡ some (pos (digits_value 0 s))
unfolding stoi checked_digits trim_left
stoi-digits [] h n l = absurd (omega arith)
stoi-digits (c ∷ cs) h n l = ground (arith, h.0)

length-digits_of : (f n : ℕ) → 0 < length (digits_of (suc f) n)
unfolding digits_of
length-digits_of f n =
    if_cases (λ s. 0 < length s) (ltb n 10) ((48 + n) ∷ [])
      (digits_of f (n / 10) ++ (48 + n % 10) ∷ []) (λ _. omega arith)
      (λ _. omega (arith, length-append (digits_of f (n / 10)) ((48 + n % 10) ∷ [])))

stoi-decimal : (n : ℕ) → n ≤ 2147483647 → stoi (decimal n) ≡ some (pos n)
stoi-decimal n h =
    let same : digits_value 0 (decimal n) ≡ n =
      digits_value-value 0 (decimal n) (decimal-IsDigits n) ∙ value-decimal n in
    stoi-digits (decimal n) (decimal-IsDigits n) (unfold decimal in length-digits_of n n)
      (omega (arith, same))
    ∙ ap (λ k. some (pos k)) same

-- A line that begins with `chat` and the full-width colon.
abbrev wide_line : Bytes → Bytes
wide_line args = codes "chat" ++ (wide_colon ++ args)

find_byte-wide :
    (args : Bytes)
    → ((find_byte b':' args ≡ none) × (find_byte b':' (wide_line args) ≡ none))
      ⊎ ((i : ℕ) × (find_byte b':' args ≡ some i)
          × (find_byte b':' (wide_line args) ≡ some (suc (suc (suc (suc (suc (suc (suc i)))))))))
unfolding find_byte
find_byte-wide args = elim (Option-cases (find_byte b':' args)) [
  | inl e ↦ inl (e, rw e refl)
  | inr (i, e) ↦ inr (i, e, rw e refl)
]

parse-wide_none :
    (args : Bytes)
    → find_byte b':' (wide_line args) ≡ none
    → parse_command (wide_line args) ≡ (codes "chat", args)
unfolding parse_command find_separator find_text trim_copy trim_left trim_right bytes_eq
parse-wide_none args e =
    let sep : find_separator (wide_line args) ≡ some (4, 3) = rw (e, find_separator) refl in
    ap (cut_line (wide_line args)) sep

parse-wide_some :
    (args : Bytes) (i : ℕ)
    → find_byte b':' (wide_line args) ≡ some (suc (suc (suc (suc (suc (suc (suc i)))))))
    → (parse_command (wide_line args)).0 ≡ wide_line (trim_right (take i args))
unfolding parse_command find_separator trim_copy trim_left trim_right
parse-wide_some args i e =
    let sep : find_separator (wide_line args)
        ≡ some (suc (suc (suc (suc (suc (suc (suc i)))))), 1) =
      rw (e, find_separator) refl in
    ap (λ q. (cut_line (wide_line args) q).0) sep ∙ refl

module _ (j : Json) (time : Bytes) (sends : Bool) where
  pub chat-line :
      (c : Client) (n : ℕ) (msg : Bytes)
      → n ≤ 2147483647
      → run_line j time sends c (codes "chat:" ++ (decimal n ++ b':' ∷ msg))
        ≡ back (send_request j time sends (chat_fields c (pos n) msg time) c)
  unfolding run_line parse_command find_separator find_byte trim_copy trim_left trim_right
      run_command bytes_eq chat chat_to
  chat-line c n msg h =
      rw (split_colon-digits (decimal n) msg (decimal-IsDigits n), chat, stoi-decimal n h) refl

  pub groupchat-line :
      (c : Client) (n : ℕ) (msg : Bytes)
      → n ≤ 2147483647
      → run_line j time sends c (codes "groupchat:" ++ (decimal n ++ b':' ∷ msg))
        ≡ back (send_request j time sends (groupchat_fields c (pos n) msg time) c)
  unfolding run_line parse_command find_separator find_byte trim_copy trim_left trim_right
      run_command bytes_eq groupchat groupchat_to
  groupchat-line c n msg h =
      rw (split_colon-digits (decimal n) msg (decimal-IsDigits n), groupchat, stoi-decimal n h) refl

  run-wide : (c : Client) (t args : Bytes) → run_command j time sends c (wide_line t) args ≡ back c
  unfolding run_command bytes_eq
  run-wide c t args = refl

  chat-none :
      (c : Client) (args : Bytes) → find_byte b':' args ≡ none → chat j time sends c args ≡ back c
  unfolding chat
  chat-none c args e = rw (split-none args e, chat) refl

  run-chat :
      (c : Client) (args : Bytes)
      → find_byte b':' args ≡ none
      → run_command j time sends c (codes "chat") args ≡ back c
  unfolding run_command bytes_eq
  run-chat c args e = chat-none c args e

  run_line-wide :
      (c : Client) (args : Bytes)
      → run_line j time sends c (codes "chat" ++ (wide_colon ++ args)) ≡ back c
  unfolding run_line
  run_line-wide c args = elim (find_byte-wide args) [
    | inl (e, f) ↦
        ap (λ r. run_command j time sends c r.0 r.1) (parse-wide_none args f) ∙ run-chat c args e
    | inr (i, _, f) ↦
        ap (λ t. run_command j time sends c t (parse_command (wide_line args)).1)
          (parse-wide_some args i f)
        ∙ run-wide c (trim_right (take i args)) (parse_command (wide_line args)).1
  ]

  read_line-wide :
      (args : Bytes)
      → (read_line (record { typed = codes "chat" ++ (wide_colon ++ args); failed = false })).0
        ≡ codes "chat" ++ (wide_colon ++ c_string (take_line 1016 args).0)
  unfolding read_line take_line c_string
  read_line-wide args = refl

  -- Whatever follows it, be it long, and whatever it holds, `chat` typed with the full-width colon
  -- sends nothing and changes nothing.
  pub wide_chat :
      (c : Client) (args : Bytes)
      → let input : Input = record {
        typed = codes "chat" ++ (wide_colon ++ args);
        failed = false;
      } in
        (menu_round j time sends c input).0 ≡ back c
  unfolding menu_round
  wide_chat c args =
      ap (λ l. run_line j time sends c l) (read_line-wide args)
      ∙ run_line-wide c (c_string (take_line 1016 args).0)
