-- ===== src/Tests/Menu.antt =====
-- A client that logs in.
use cluster_chat_server_with.Prelude.{refl, true, [], ◌∷◌, pos, find, bytes_eq, bytes_eq_inst}
use cluster_chat_server_with.Text.{codes}
use cluster_chat_server_with.Json.{Json, Fields, int, text}
use cluster_chat_server_with.Client.{Client, new_client}
use cluster_chat_server_with.Client.Commands.{ask_login, send_request}
use cluster_chat_server_with.Client.Screen.{show_current_user_data}
use cluster_chat_server_with.Client.Responses.{
  handle_message, handle_type, do_login_response, accept_login, take_friends, take_groups,
  if_contains,
}
use cluster_chat_server_with.Client.Main.{
  choosing, waiting_login, Run, after_login, login_chosen, received, login_woken,
}
use cluster_chat_server_with.Client.Accepted.{Steps, done, further, Among, menu_needs_reply}
use cluster_chat_server_with.Tests.Client.{two_objects}

abbrev reply : Fields
reply =
    (codes "msgId", int (pos 2))
    ∷ (codes "errno", int (pos 0))
    ∷ (codes "id", int (pos 7))
    ∷ (codes "name", text (codes "cat"))
    ∷ []

abbrev json : Json
json = two_objects reply reply

abbrev asked : Client
asked = ask_login json [] true new_client (pos 7) (codes "pw")

abbrev answered : Client
answered = (handle_message json (codes "{}") asked).1

abbrev start : Run
start = record { phase = choosing; client = new_client }

to_menu : Steps json start (codes "{}" ∷ []) (after_login 0 answered)
unfolding ask_login send_request handle_message handle_type do_login_response accept_login
    take_friends take_groups if_contains show_current_user_data find bytes_eq
to_menu =
    further
      (further (further (done start) (login_chosen [] true (pos 7) (codes "pw") new_client))
        (received (codes "{}") (record { phase = waiting_login; client = asked })))
      (login_woken 0 answered refl)

menu_needs_reply_example : Among json (codes "{}" ∷ [])
menu_needs_reply_example =
    menu_needs_reply json to_menu refl (λ e. absurd (cc))
      (unfold after_login ask_login send_request handle_message handle_type do_login_response
          accept_login take_friends take_groups if_contains show_current_user_data find bytes_eq in
        refl)
