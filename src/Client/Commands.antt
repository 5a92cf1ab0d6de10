-- ===== src/Client/Commands.antt =====
-- `mainMenu`, `main`'s requests and the handlers of the commands.
use cluster_chat_server_with.Prelude.{
  ℕ, zero, suc, ◌+◌, Bool, false, not, [], ◌∷◌, ◌++◌, Option, none, some, Bytes, length, take, drop,
  get_or, eqb, ltb, if◌then◌else◌, ℤ, pos, negsuc, bytes_eq,
}
use cluster_chat_server_with.Text.{codes}
use cluster_chat_server_with.Config.{is_digit, trim_copy, trim_left, find_byte, digits_value}
use cluster_chat_server_with.Json.{Json, Fields, int, text}
use cluster_chat_server_with.Client.{Client}
use cluster_chat_server_with.Client.Input.{Input, read_line}

-- The full-width colon, in UTF-8.
abbrev pub wide_colon : Bytes
wide_colon = 239 ∷ 188 ∷ 154 ∷ []

-- `find` of a text.
unfoldable pub find_text : Bytes → Bytes → Option ℕ
find_text pattern [] = none
find_text pattern (c ∷ cs) =
    let rest = find_text pattern cs in
    if bytes_eq (take (length pattern) (c ∷ cs)) pattern
    then some 0
    else elim rest [ none ↦ none | some i ↦ some (suc i) ]

abbrev negated : ℕ → ℤ
negated zero = pos 0
negated (suc n) = negsuc n

-- The value of the digits in front, if there is one and it is an int.
unfoldable pub checked_digits : ℕ → (ℕ → ℤ) → Bytes → Option ℤ
checked_digits limit sign s =
    if not (is_digit (get_or s 0 0))
    then none
    else if ltb limit (digits_value 0 s)
    then none
    else some (sign (digits_value 0 s))

-- `stoi`: `none` stands for its exception, which nothing catches.
unfoldable pub stoi : Bytes → Option ℤ
unfolding trim_left checked_digits
stoi s =
    let t = trim_left s in
    if eqb (get_or t 0 0) b'-'
    then checked_digits 2147483648 negated (drop 1 t)
    else if eqb (get_or t 0 0) b'+'
    then checked_digits 2147483647 pos (drop 1 t)
    else checked_digits 2147483647 pos t

-- How a command ends: back in the menu, with or without a request, or in an exception.
pub data Outcome : Type 0 where
  back : Client → Outcome
  crashed : Outcome

-- `idx = str.find(":")`: what stands before and behind it.
unfoldable pub split_colon : Bytes → Option (Bytes × Bytes)
split_colon args = elim (find_byte b':' args) [
  | none ↦ none
  | some i ↦ some (take i args, drop (i + 1) args)
]

unfoldable pub find_separator : Bytes → Option (ℕ × ℕ)
unfolding find_text
find_separator line = elim (find_byte b':' line) [
  | some i ↦ some (i, 1)
  | none ↦ elim (find_text wide_colon line) [ none ↦ none | some i ↦ some (i, 3) ]
]

-- The command and its arguments in a line of the menu.
abbrev pub cut_line : Bytes → Option (ℕ × ℕ) → Bytes × Bytes
cut_line line none = (trim_copy line, [])
cut_line line (some (at, len)) = (trim_copy (take at line), drop (at + len) line)

unfoldable pub parse_command : Bytes → Bytes × Bytes
unfolding find_separator
parse_command line = cut_line line (find_separator line)

abbrev pub chat_fields : Client → ℤ → Bytes → Bytes → Fields
chat_fields c friend_id msg time =
    (codes "msgId", int (pos 6))
    ∷ (codes "id", int c.current_user.id)
    ∷ (codes "name", text c.current_user.name)
    ∷ (codes "to", int friend_id)
    ∷ (codes "msg", text msg)
    ∷ (codes "time", text time)
    ∷ []

abbrev pub groupchat_fields : Client → ℤ → Bytes → Bytes → Fields
groupchat_fields c group_id msg time =
    (codes "msgId", int (pos 10))
    ∷ (codes "id", int c.current_user.id)
    ∷ (codes "name", text c.current_user.name)
    ∷ (codes "groupid", int group_id)
    ∷ (codes "msg", text msg)
    ∷ (codes "time", text time)
    ∷ []

abbrev pub addfriend_fields : Client → ℤ → Fields
addfriend_fields c friend_id =
    (codes "msgId", int (pos 7))
    ∷ (codes "id", int c.current_user.id)
    ∷ (codes "friendId", int friend_id)
    ∷ []

abbrev pub addgroup_fields : Client → ℤ → Fields
addgroup_fields c group_id =
    (codes "msgId", int (pos 9))
    ∷ (codes "id", int c.current_user.id)
    ∷ (codes "groupid", int group_id)
    ∷ []

abbrev pub creategroup_fields : Client → Bytes → Bytes → Fields
creategroup_fields c name desc =
    (codes "msgId", int (pos 8))
    ∷ (codes "id", int c.current_user.id)
    ∷ (codes "groupname", text name)
    ∷ (codes "groupdesc", text desc)
    ∷ []

abbrev pub logout_fields : Client → Fields
logout_fields c = (codes "msgId", int (pos 3)) ∷ (codes "id", int c.current_user.id) ∷ []

abbrev pub login_fields : ℤ → Bytes → Fields
login_fields id pwd =
    (codes "msgId", int (pos 1)) ∷ (codes "id", int id) ∷ (codes "password", text pwd) ∷ []

abbrev pub reg_fields : Bytes → Bytes → Fields
reg_fields name pwd =
    (codes "msgId", int (pos 4)) ∷ (codes "name", text name) ∷ (codes "password", text pwd) ∷ []

-- `time` is what `getCurrentTime` gives, and `sends` whether `send` succeeds.
module _ (j : Json) (time : Bytes) (sends : Bool) where
  -- The request and its NUL.
  unfoldable pub send_request : Fields → Client → Client
  send_request fields c =
      if sends then record c { sent = c.sent ++ (j.dump (j.make fields) ++ 0 ∷ []) ∷ [] } else c

  unfoldable pub chat_to : Client → Bytes → Option ℤ → Outcome
  unfolding send_request
  chat_to c msg none = crashed
  chat_to c msg (some friend_id) = back (send_request (chat_fields c friend_id msg time) c)

  unfoldable pub chat : Client → Bytes → Outcome
  unfolding split_colon chat_to
  chat c args = elim (split_colon args) [ none ↦ back c | some a ↦ chat_to c a.1 (stoi a.0) ]

  unfoldable pub groupchat_to : Client → Bytes → Option ℤ → Outcome
  unfolding send_request
  groupchat_to c msg none = crashed
  groupchat_to c msg (some group_id) = back (send_request (groupchat_fields c group_id msg time) c)

  unfoldable pub groupchat : Client → Bytes → Outcome
  unfolding split_colon groupchat_to
  groupchat c args = elim (split_colon args) [
    | none ↦ back c
    | some a ↦ groupchat_to c a.1 (stoi a.0)
  ]

  unfoldable pub addfriend : Client → Bytes → Outcome
  unfolding send_request
  addfriend c args = elim (stoi args) [
    | none ↦ crashed
    | some friend_id ↦ back (send_request (addfriend_fields c friend_id) c)
  ]

  unfoldable pub addgroup : Client → Bytes → Outcome
  unfolding send_request
  addgroup c args = elim (stoi args) [
    | none ↦ crashed
    | some group_id ↦ back (send_request (addgroup_fields c group_id) c)
  ]

  unfoldable pub creategroup : Client → Bytes → Outcome
  unfolding split_colon send_request
  creategroup c args = elim (split_colon args) [
    | none ↦ back c
    | some a ↦ back (send_request (creategroup_fields c a.0 a.1) c)
  ]

  unfoldable pub logout : Client → Outcome
  unfolding send_request
  logout c =
      let asked = send_request (logout_fields c) c in
      back (if sends then record asked { menu_running = false } else asked)

  -- `commandHandlerMap`; `help`, an empty command and an unknown one only print.
  unfoldable pub run_command : Client → Bytes → Bytes → Outcome
  unfolding chat groupchat addfriend addgroup creategroup logout
  run_command c command args =
      if bytes_eq command (codes "chat")
      then chat c args
      else if bytes_eq command (codes "addfriend")
      then addfriend c args
      else if bytes_eq command (codes "creategroup")
      then creategroup c args
      else if bytes_eq command (codes "addgroup")
      then addgroup c args
      else if bytes_eq command (codes "groupchat")
      then groupchat c args
      else if bytes_eq command (codes "logout")
      then logout c
      else back c

  -- One round of `mainMenu` behind `getline`.
  unfoldable pub run_line : Client → Bytes → Outcome
  unfolding parse_command run_command
  run_line c line = let (command, args) = parse_command line in run_command c command args

  -- One round of `mainMenu`, with what is left of the input.
  unfoldable pub menu_round : Client → Input → Outcome × Input
  unfolding run_line read_line
  menu_round c input = let (line, rest) = read_line input in (run_line c line, rest)

  -- At most `rounds` rounds of `mainMenu`, whose loop need not end.
  unfoldable pub main_menu : ℕ → Client → Input → Outcome
  unfolding menu_round
  main_menu zero c input = back c
  main_menu (suc rounds) c input =
      let (outcome, rest) = menu_round c input in
      if not c.menu_running
      then back c
      else elim outcome [ crashed ↦ crashed | back next ↦ main_menu rounds next rest ]

  -- `main`: the request of a login, before it waits for the reply, and of a registration.
  unfoldable pub ask_login : Client → ℤ → Bytes → Client
  unfolding send_request
  ask_login c id pwd = send_request (login_fields id pwd) (record c { login_success = false })

  unfoldable pub ask_reg : Client → Bytes → Bytes → Client
  unfolding send_request
  ask_reg c name pwd = send_request (reg_fields name pwd) c
