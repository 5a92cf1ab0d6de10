-- ===== src/Tests/Client.antt =====
-- A client, and a JSON library that is right about two objects.
use cluster_chat_server_with.Prelude.{
  false, replicate, ◌≡◌, refl, ap, true, List, [], ◌∷◌, ◌++◌, Option, none, some, arith, Bytes, map,
  if◌then◌else◌, ℤ, pos, find, bytes_eq, bytes_eq_inst,
}
use cluster_chat_server_with.Text.{codes}
use cluster_chat_server_with.Json.{Json, Field, Fields, IsFaithful, int, text, texts, ints, is_some}
use cluster_chat_server_with.Models.{User, no_user}
use cluster_chat_server_with.Reader.Objects.{print, nothing, IsBody}
use cluster_chat_server_with.Client.{Client, new_client}
use cluster_chat_server_with.Client.Input.{line_then, read_line, take_line}
use cluster_chat_server_with.Client.Commands.{
  back, crashed, wide_colon, chat_fields, menu_round, run_line, run_command, addfriend, stoi,
  checked_digits, parse_command, find_separator,
}
use cluster_chat_server_with.Config.{find_byte, trim_copy, trim_left, trim_right}
use cluster_chat_server_with.Client.Typed.{wide_chat}
use cluster_chat_server_with.Client.Receive.{feed_reader}
use cluster_chat_server_with.Client.Stream.{object_text, feed_reader-objects}
use cluster_chat_server_with.Client.Responses.{handle_message}
use cluster_chat_server_with.Client.Keeps.{view}
use cluster_chat_server_with.Client.Login.{reply_fields, friends_after, login_reply}
use cluster_chat_server_with.Service.Requests
use cluster_chat_server_with.Service.Requests.{friend_fields, group_fields}
use cluster_chat_server_with.Tests.Reader.{body, body-IsBody}

abbrev as_int : Option Field → Option ℤ
as_int none = none
as_int (some (int i)) = some i
as_int (some (text t)) = none
as_int (some (texts ts)) = none
as_int (some (ints is)) = none

abbrev as_text : Option Field → Option Bytes
as_text none = none
as_text (some (int i)) = none
as_text (some (text t)) = some t
as_text (some (texts ts)) = none
as_text (some (ints is)) = none

abbrev as_texts : Option Field → Option (List Bytes)
as_texts none = none
as_texts (some (int i)) = none
as_texts (some (text t)) = none
as_texts (some (texts ts)) = some ts
as_texts (some (ints is)) = none

abbrev as_ints : Option Field → Option (List ℤ)
as_ints none = none
as_ints (some (int i)) = none
as_ints (some (text t)) = none
as_ints (some (texts ts)) = none
as_ints (some (ints is)) = some is

-- An object with a member `errno` is written `{}`, another one `{1}`.
abbrev pub two_objects : Fields → Fields → Json
two_objects fs gs = record {
  Value = Fields;
  make = λ v. v;
  parse = λ t. if bytes_eq t (codes "{}") then some fs else some gs;
  dump = λ v. if is_some (find (codes "errno") v) then codes "{}" else codes "{1}";
  contains = λ k v. is_some (find k v);
  member = λ k v. [];
  get_int = λ k v. as_int (find k v);
  get_text = λ k v. as_text (find k v);
  get_texts = λ k v. as_texts (find k v);
  get_ints = λ k v. as_ints (find k v);
}

pub two_objects-other :
    (fs gs : Fields) → find (codes "errno") gs ≡ none → IsFaithful (two_objects fs gs) gs
unfolding bytes_eq
two_objects-other fs gs e = record {
  parsed = rw e refl;
  opens = rw e refl;
  no_nul = rw e (omega arith, (omega arith, (omega arith, tt)));
  got_int = λ k i f. ap as_int f;
  got_text = λ k t f. ap as_text f;
  got_texts = λ k ts f. ap as_texts f;
  contained = λ k. refl;
  got_ints = λ k is f. ap as_ints f;
}

two_objects-errno :
    (fs gs : Fields) (f : Field)
    → find (codes "errno") fs ≡ some f
    → IsFaithful (two_objects fs gs) fs
unfolding bytes_eq
two_objects-errno fs gs f e = record {
  parsed = rw e refl;
  opens = rw e refl;
  no_nul = rw e (omega arith, (omega arith, tt));
  got_int = λ k i f. ap as_int f;
  got_text = λ k t f. ap as_text f;
  got_texts = λ k ts f. ap as_texts f;
  contained = λ k. refl;
  got_ints = λ k is f. ap as_ints f;
}

abbrev pub ann : User
ann = record no_user { id = pos 2; name = codes "ann" }

abbrev pub logged_in : Client
logged_in = record new_client { current_user = ann; friends = ann ∷ []; menu_running = true }

abbrev friend : User
friend = record no_user { id = pos 5; name = codes "bob" }

-- The reply with one friend and an offline message.
abbrev reply : Fields
reply =
    (codes "msgId", int (pos 2))
    ∷ (codes "errno", int (pos 0))
    ∷ (codes "id", int (pos 7))
    ∷ (codes "name", text (codes "cat"))
    ∷ (codes "offlinemsg", texts ([] ∷ []))
    ∷ (codes "friends", texts (codes "{1}" ∷ []))
    ∷ []

abbrev reply_json : Json
reply_json = two_objects reply (friend_fields friend)

login_reply_example :
    view
      (handle_message reply_json
        (reply_json.dump (
          reply_json.make
            (reply_fields reply_json (pos 7) (codes "cat") ([] ∷ []) (friend ∷ []) [])))
        logged_in).1
    ≡ (
      record ann { id = pos 7; name = codes "cat" },
      friends_after reply_json (friend ∷ []) (ann ∷ []),
      true,
    )
login_reply_example =
    login_reply reply_json (pos 7) (codes "cat") ([] ∷ []) (friend ∷ []) [] logged_in
      (unfold Requests.login_fields find bytes_eq in
        two_objects-errno reply (friend_fields friend) (int (pos 0)) (unfold find bytes_eq in refl))
      (two_objects-other reply (friend_fields friend) (unfold find bytes_eq in refl), tt)

abbrev request : Fields
request = chat_fields logged_in (pos 5) (codes "hi: you") (codes "now")

abbrev pub chat_json : Json
chat_json = two_objects request request

wide_chat_example :
    (menu_round chat_json
      (codes "now")
      true
      logged_in
      (record { typed = codes "chat" ++ (wide_colon ++ codes "5:hi"); failed = false })).0
    ≡ back logged_in
wide_chat_example = wide_chat chat_json (codes "now") true logged_in (codes "5:hi")

-- A line that is too long fails every later read.
too_long : (read_line (read_line (line_then (replicate 1024 b'x') (codes "help"))).1).0 ≡ []
unfolding read_line take_line
too_long = refl

-- A friend's id that is no number ends the program.
addfriend-name : run_line chat_json (codes "now") true logged_in (codes "addfriend:bob") ≡ crashed
unfolding run_line run_command addfriend stoi checked_digits parse_command find_separator find_byte
    trim_copy trim_left trim_right bytes_eq
addfriend-name = refl

feed_reader-objects_example :
    feed_reader [] ((object_text body ++ codes "{") ∷ codes "}" ∷ [])
    ≡ some (map object_text (body ∷ nothing ∷ []), [])
feed_reader-objects_example =
    feed_reader-objects (body ∷ nothing ∷ []) ((object_text body ++ codes "{") ∷ codes "}" ∷ [])
      (body-IsBody, ((unfold IsBody in tt), tt)) (unfold print in refl)
