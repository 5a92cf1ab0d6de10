-- ===== src/Client/Responses.antt =====
-- `doLoginResponse`, `doRegResponse` and the body of the `try` block in
-- `readTaskHandler`. A `json::exception` in any of them ends the handling of the message, with what
-- was changed so far.
use cluster_chat_server_with.Prelude.{
  ◌+◌, Bool, true, false, List, [], ◌∷◌, ◌++◌, some, Bytes, if◌then◌else◌, ℤ, pos, int_eq,
}
use cluster_chat_server_with.Text.{codes}
use cluster_chat_server_with.Json.{Json}
use cluster_chat_server_with.Models.{GroupUser}
use cluster_chat_server_with.Client.{Client}
use cluster_chat_server_with.Client.Screen.{
  Act, ◌>>=◌, ◌>>◌, read, change, show, show_current_user_data,
}

module _ (j : Json) where
  -- `json::parse(str)` with the members of a friend.
  unfoldable pub add_friend_text : Bytes → Act (Unit {0})
  add_friend_text str = do
    js ← read (j.parse str)
    id ← read (j.get_int (codes "id") js)
    name ← read (j.get_text (codes "name") js)
    state ← read (j.get_text (codes "state") js)
    change (λ c. record c {
      friends = c.friends ++ record { id = id; name = name; password = []; state = state } ∷ [];
    })

  unfoldable pub add_friend_texts : List Bytes → Act (Unit {0})
  unfolding add_friend_text
  add_friend_texts [] = change (λ c. c)
  add_friend_texts (str ∷ strs) = do add_friend_text str; add_friend_texts strs

  unfoldable pub read_member : Bytes → Act GroupUser
  read_member usr = do
    js ← read (j.parse usr)
    id ← read (j.get_int (codes "id") js)
    name ← read (j.get_text (codes "name") js)
    state ← read (j.get_text (codes "state") js)
    role ← read (j.get_text (codes "role") js)
    read (
        some (record {
          user = record { id = id; name = name; password = []; state = state };
          role = role;
        }))

  unfoldable pub read_members : List Bytes → Act (List GroupUser)
  unfolding read_member
  read_members [] = read (some [])
  read_members (usr ∷ usrs) = do m ← read_member usr; ms ← read_members usrs; read (some (m ∷ ms))

  unfoldable pub add_group_text : Bytes → Act (Unit {0})
  unfolding read_members
  add_group_text str = do
    js ← read (j.parse str)
    id ← read (j.get_int (codes "id") js)
    name ← read (j.get_text (codes "groupname") js)
    desc ← read (j.get_text (codes "groupdesc") js)
    usrs ← read (j.get_texts (codes "users") js)
    users ← read_members usrs
    change (λ c. record c {
      groups = c.groups ++ record { id = id; name = name; desc = desc; users = users } ∷ [];
    })

  unfoldable pub add_group_texts : List Bytes → Act (Unit {0})
  unfolding add_group_text
  add_group_texts [] = change (λ c. c)
  add_group_texts (str ∷ strs) = do add_group_text str; add_group_texts strs

  -- The line of a chat message, which is written when its members have been read.
  unfoldable pub show_chat : Bytes → j.Value → Act (Unit {0})
  show_chat front js = do
    time ← read (j.get_text (codes "time") js)
    name ← read (j.get_text (codes "name") js)
    msg ← read (j.get_text (codes "msg") js)
    show (
        front
        ++ (time
            ++ (codes " ["
                ++ (j.member (codes "id") js
                    ++ (codes "] " ++ (name ++ (codes " said: " ++ msg)))))))

  unfoldable pub group_front : j.Value → Bytes
  group_front js = codes "Group[" ++ (j.member (codes "groupid") js ++ codes "] message: ")

  abbrev offline_front : ℤ → j.Value → Bytes
  offline_front msg_id js = if int_eq msg_id (pos 6) then [] else group_front js

  unfoldable pub show_offline : Bytes → Act (Unit {0})
  unfolding show_chat group_front
  show_offline str = do
    js ← read (j.parse str)
    msg_id ← read (j.get_int (codes "msgId") js)
    show_chat (offline_front msg_id js) js

  unfoldable pub show_offlines : List Bytes → Act (Unit {0})
  unfolding show_offline
  show_offlines [] = change (λ c. c)
  show_offlines (str ∷ strs) = do show_offline str; show_offlines strs

  -- `if (respJs.contains(key))` around a loop over the member's texts.
  unfoldable pub if_contains : Bytes → j.Value → (List Bytes → Act (Unit {0})) → Act (Unit {0})
  if_contains key js each =
      if j.contains key js
      then (do strs ← read (j.get_texts key js); each strs)
      else change (λ c. c)

  unfoldable pub take_friends : j.Value → Act (Unit {0})
  unfolding if_contains add_friend_texts
  take_friends js =
      if_contains (codes "friends") js λ strs c. add_friend_texts strs (record c { friends = [] })

  unfoldable pub take_groups : j.Value → Act (Unit {0})
  unfolding if_contains add_group_texts
  take_groups js =
      if_contains (codes "groups") js λ strs c. add_group_texts strs (record c { groups = [] })

  unfoldable pub accept_login : j.Value → Act (Unit {0})
  unfolding take_friends take_groups if_contains show_offlines show_current_user_data
  accept_login js = do
    change (λ c. record c { login_success = true })
    id ← read (j.get_int (codes "id") js)
    change (λ c. record c { current_user = record c.current_user { id = id } })
    name ← read (j.get_text (codes "name") js)
    change (λ c. record c { current_user = record c.current_user { name = name } })
    take_friends js
    take_groups js
    change show_current_user_data
    if_contains (codes "offlinemsg") js show_offlines

  abbrev answer_login : j.Value → Bool → Act (Unit {0})
  answer_login js true = accept_login js
  answer_login js false = change (λ c. record c { login_success = false })

  unfoldable pub do_login_response : j.Value → Act (Unit {0})
  unfolding accept_login
  do_login_response js = do
    errno ← read (j.get_int (codes "errno") js)
    answer_login js (int_eq errno (pos 0))

  abbrev answer_reg : j.Value → Bool → Act (Unit {0})
  answer_reg js true = show (
      codes "register success, userid is "
      ++ (j.member (codes "id") js ++ codes ". Please use userid to login."))
  answer_reg js false = change (λ c. c)

  unfoldable pub do_reg_response : j.Value → Act (Unit {0})
  do_reg_response js = do
    errno ← read (j.get_int (codes "errno") js)
    answer_reg js (int_eq errno (pos 0))

  abbrev post : Act (Unit {0})
  post = change (λ c. record c { rw_sem = c.rw_sem + 1 })

  unfoldable pub handle_type : ℤ → j.Value → Act (Unit {0})
  unfolding do_login_response do_reg_response show_chat group_front
  handle_type msg_type js =
      if int_eq msg_type (pos 6)
      then show_chat [] js
      else if int_eq msg_type (pos 10)
      then show_chat (group_front js) js
      else if int_eq msg_type (pos 2)
      then (do do_login_response js; post)
      else if int_eq msg_type (pos 5)
      then (do do_reg_response js; post)
      else change (λ c. c)

  -- The `try` block on the text of one message; its `catch` only writes to the error output.
  unfoldable pub handle_message : Bytes → Act (Unit {0})
  unfolding handle_type
  handle_message message = do
    js ← read (j.parse message)
    msg_type ← read (j.get_int (codes "msgId") js)
    handle_type msg_type js

  -- The messages of the receiving loop, one after the other.
  unfoldable pub handle_messages : List Bytes → Client → Client
  unfolding handle_message
  handle_messages [] c = c
  handle_messages (message ∷ rest) c = handle_messages rest (handle_message message c).1
