-- ===== src/Service/Requests.antt =====
-- From the text of a message to its handler: `getHandler` with the handlers' reading of the request
-- (src/server/chatservice.cpp), the calls in `ChatServer::onMessage` (src/server/chatserver.cpp),
-- and `handleClusterMessage` with the calls in `ClusterServer::onMessage`
-- (src/server/clusterserver.cpp).
use cluster_chat_server_with.Prelude.{
  ℕ, Bool, List, [], ◌∷◌, ◌++◌, map, Option, none, some, Bytes, is_empty, if◌then◌else◌, ℤ, pos,
  int_eq,
}
use cluster_chat_server_with.Text.{codes}
use cluster_chat_server_with.Json.{Json, Fields, int, text, texts, ints, both, reading}
use cluster_chat_server_with.Models.{User, GroupUser, Group}
use cluster_chat_server_with.Router.Table.{GroupMessage}
use cluster_chat_server_with.Wire.Receive.{Delivery, one_chat, message}
use cluster_chat_server_with.Service.Connections.{Conn}
use cluster_chat_server_with.Service.Chat
use cluster_chat_server_with.Service.Chat.{
  Peers, Node, handle_cluster_one_chat_frame, handle_cluster_group_chat,
}
use cluster_chat_server_with.Service.Group.{group_chat}
use cluster_chat_server_with.Service.Session.{
  Refusal, invalid, in_use, not_registered, Reply, refused, admitted, login, reg, logout,
  add_friend, open_group, join_group,
}

-- The handlers of `msgHandlerMap_`, and the one that only logs.
pub data Handler : Type 0 where
  login_handler logout_handler reg_handler one_chat_handler add_friend_handler : Handler
  create_group_handler add_group_handler group_chat_handler unknown_handler : Handler

-- `getHandler`, with the numbers of `EnMsgType`.
unfoldable pub get_handler : ℤ → Handler
get_handler msg_id =
    if int_eq msg_id (pos 1)
    then login_handler
    else if int_eq msg_id (pos 3)
    then logout_handler
    else if int_eq msg_id (pos 4)
    then reg_handler
    else if int_eq msg_id (pos 6)
    then one_chat_handler
    else if int_eq msg_id (pos 7)
    then add_friend_handler
    else if int_eq msg_id (pos 8)
    then create_group_handler
    else if int_eq msg_id (pos 9)
    then add_group_handler
    else if int_eq msg_id (pos 10)
    then group_chat_handler
    else unknown_handler

abbrev refusal_fields : Refusal → Fields
refusal_fields invalid =
    (codes "errno", int (pos 1)) ∷ (codes "errmsg", text (codes "id or password is invalid!")) ∷ []
refusal_fields in_use =
    (codes "errno", int (pos 2))
    ∷ (codes "errmsg", text (codes "This account is using, input another!"))
    ∷ []
refusal_fields not_registered =
    (codes "errno", int (pos 3)) ∷ (codes "errmsg", text (codes "register session failed")) ∷ []

-- A member that is left out when the list is empty.
abbrev pub listed : Bytes → List Bytes → Fields
listed key items = if is_empty items then [] else (key, texts items) ∷ []

abbrev pub friend_fields : User → Fields
friend_fields u =
    (codes "id", int u.id) ∷ (codes "name", text u.name) ∷ (codes "state", text u.state) ∷ []

abbrev pub member_fields : GroupUser → Fields
member_fields m =
    (codes "id", int m.user.id)
    ∷ (codes "name", text m.user.name)
    ∷ (codes "state", text m.user.state)
    ∷ (codes "role", text m.role)
    ∷ []

-- What `sendGroupChat` puts into its message.
unfoldable pub group_fields : GroupMessage → Fields
group_fields g =
    (codes "msgId", int (pos 101))
    ∷ (codes "fromNode", text g.from_node)
    ∷ (codes "toNode", text g.to_node)
    ∷ (codes "toUsers", ints g.to_users)
    ∷ (codes "payload", text g.payload)
    ∷ (codes "traceId", text g.trace_id)
    ∷ []

module _ (j : Json) where
  unfoldable pub group_json : Group → Fields
  group_json g =
      (codes "id", int g.id)
      ∷ (codes "groupname", text g.name)
      ∷ (codes "groupdesc", text g.desc)
      ∷ (codes "users", texts (map (λ m. j.dump (j.make (member_fields m))) g.users))
      ∷ []

  -- The reply to a login.
  unfoldable pub login_fields : Reply → Fields
  unfolding group_json
  login_fields (refused r) = (codes "msgId", int (pos 2)) ∷ refusal_fields r
  login_fields (admitted id name messages friends groups) =
      (codes "msgId", int (pos 2))
      ∷ (codes "errno", int (pos 0))
      ∷ (codes "id", int id)
      ∷ (codes "name", text name)
      ∷ (listed (codes "offlinemsg") messages
          ++ (listed (codes "friends") (map (λ u. j.dump (j.make (friend_fields u))) friends)
              ++ listed (codes "groups") (map (λ g. j.dump (j.make (group_json g))) groups)))

unfoldable pub reg_fields : Option ℤ → Fields
reg_fields none = (codes "msgId", int (pos 5)) ∷ (codes "errno", int (pos 1)) ∷ []
reg_fields (some id) =
    (codes "msgId", int (pos 5)) ∷ (codes "errno", int (pos 0)) ∷ (codes "id", int id) ∷ []

module _ (j : Json) (p : Peers) (loop_of : Conn → ℕ) (in_loop : ℕ → Bool) where
  abbrev N : Type 0
  N = Node p loop_of in_loop

  -- `conn->send(resp.dump())` in a handler.
  unfoldable pub answer : Conn → Fields → N → N
  answer conn fields s = record s {
    outbox = s.outbox ++ record { conn = conn; msg = j.dump (j.make fields) } ∷ [];
  }

  -- The handlers on a request; each reads the members that it needs before it does anything.
  unfoldable pub handle_login : Conn → j.Value → N → N
  unfolding answer login_fields
  handle_login conn js =
      reading (both (j.get_int (codes "id") js) (j.get_text (codes "password") js)) λ a s.
        let (reply, t) = login p loop_of in_loop conn a.0 a.1 s in
        answer conn (login_fields j reply) t

  unfoldable pub handle_logout : j.Value → N → N
  handle_logout js = reading (j.get_int (codes "id") js) λ id s. (logout p loop_of in_loop id s).1

  unfoldable pub handle_reg : Conn → j.Value → N → N
  unfolding answer reg_fields
  handle_reg conn js =
      reading (both (j.get_text (codes "name") js) (j.get_text (codes "password") js))
        λ a s. let (made, t) = reg p loop_of in_loop a.0 a.1 s in answer conn (reg_fields made) t

  unfoldable pub handle_one_chat : j.Value → N → N
  handle_one_chat js =
      reading (both (j.get_int (codes "to") js) (j.get_int (codes "id") js))
        λ a s. (Chat.one_chat p loop_of in_loop a.1 a.0 (j.dump js) s).1

  unfoldable pub handle_add_friend : j.Value → N → N
  handle_add_friend js =
      reading (both (j.get_int (codes "id") js) (j.get_int (codes "friendId") js))
        λ a s. (add_friend p loop_of in_loop a.0 a.1 s).1

  unfoldable pub handle_create_group : j.Value → N → N
  handle_create_group js =
      reading
        (both (j.get_int (codes "id") js)
          (both (j.get_text (codes "groupname") js) (j.get_text (codes "groupdesc") js)))
        λ a s. (open_group p loop_of in_loop a.0 a.1.0 a.1.1 s).1

  unfoldable pub handle_add_group : j.Value → N → N
  handle_add_group js =
      reading (both (j.get_int (codes "id") js) (j.get_int (codes "groupid") js))
        λ a s. (join_group p loop_of in_loop a.0 a.1 s).1

  unfoldable pub handle_group_chat : j.Value → N → N
  handle_group_chat js =
      reading (both (j.get_int (codes "id") js) (j.get_int (codes "groupid") js))
        λ a s. (group_chat p loop_of in_loop a.0 a.1 (j.dump js) s).1

  -- `msgHandlerMap_`
  unfoldable pub run_handler : Handler → Conn → j.Value → N → N
  unfolding handle_login handle_logout handle_reg handle_one_chat handle_add_friend
      handle_create_group handle_add_group handle_group_chat
  run_handler login_handler conn js = handle_login conn js
  run_handler logout_handler conn js = handle_logout js
  run_handler reg_handler conn js = handle_reg conn js
  run_handler one_chat_handler conn js = handle_one_chat js
  run_handler add_friend_handler conn js = handle_add_friend js
  run_handler create_group_handler conn js = handle_create_group js
  run_handler add_group_handler conn js = handle_add_group js
  run_handler group_chat_handler conn js = handle_group_chat js
  run_handler unknown_handler conn js = λ s. s

  unfoldable pub handle_parsed : Option j.Value → Conn → N → N
  unfolding run_handler get_handler
  handle_parsed none conn = λ s. s
  handle_parsed (some js) conn =
      reading (j.get_int (codes "msgId") js) λ msg_id. run_handler (get_handler msg_id) conn js

  -- The `try` block of `ChatServer::onMessage`, on the text of a request.
  unfoldable pub handle_request : Conn → Bytes → N → N
  unfolding handle_parsed
  handle_request conn request = handle_parsed (j.parse request) conn

  unfoldable pub serve_requests : Conn → List Bytes → N → N
  unfolding handle_request
  serve_requests conn [] s = s
  serve_requests conn (request ∷ rest) s = serve_requests conn rest (handle_request conn request s)

  unfoldable pub handle_cluster_one_chat : j.Value → N → N
  handle_cluster_one_chat js =
      reading (both (j.get_int (codes "toUser") js) (j.get_text (codes "payload") js))
        λ a s. (handle_cluster_one_chat_frame p loop_of in_loop a.0 a.1 s).1

  unfoldable pub handle_cluster_users : j.Value → N → N
  handle_cluster_users js =
      reading (both (j.get_ints (codes "toUsers") js) (j.get_text (codes "payload") js))
        λ a s. (handle_cluster_group_chat p loop_of in_loop a.0 a.1 s).1

  unfoldable pub handle_cluster_message : j.Value → N → N
  unfolding handle_cluster_one_chat handle_cluster_users
  handle_cluster_message js = reading (j.get_int (codes "msgId") js) λ msg_id s.
      let one = handle_cluster_one_chat js s in
      let users = handle_cluster_users js s in
      if int_eq msg_id (pos 100) then one else if int_eq msg_id (pos 101) then users else s

  unfoldable pub handle_json : Option j.Value → N → N
  unfolding handle_cluster_message
  handle_json none = λ s. s
  handle_json (some js) = handle_cluster_message js

  -- A call that the loop of `ClusterServer::onMessage` makes.
  unfoldable pub handle_delivery : Delivery → N → N
  unfolding handle_json
  handle_delivery (one_chat to_user payload) s =
      (handle_cluster_one_chat_frame p loop_of in_loop to_user payload s).1
  handle_delivery (message json_text) s = handle_json (j.parse json_text) s

  unfoldable pub serve_deliveries : List Delivery → N → N
  unfolding handle_delivery
  serve_deliveries [] s = s
  serve_deliveries (d ∷ ds) s = serve_deliveries ds (handle_delivery d s)
