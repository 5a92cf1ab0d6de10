-- ===== src/Client/Keeps.antt =====
-- What the second half of the handling of a reply leaves alone: the groups and the offline
-- messages change neither the user nor the friends.
use cluster_chat_server_with.Prelude.{
  ◌≡◌, refl, ◌∙◌, inl, inr, Bool-cases, Bool, List, [], ◌∷◌, Option, none, some, Bytes,
  bytes_eq_inst,
}
use cluster_chat_server_with.Text.{codes}
use cluster_chat_server_with.Json.{Json}
use cluster_chat_server_with.Models.{User}
use cluster_chat_server_with.Client.{Client}
use cluster_chat_server_with.Client.Screen.{Act, chain}
use cluster_chat_server_with.Client.Responses.{
  read_member, read_members, add_group_text, add_group_texts, show_chat, show_offline,
  show_offlines, if_contains, take_groups,
}

-- The members that only the first half of the reply's handling changes.
abbrev pub View : Type 0
View = User × List User × Bool

abbrev pub view : Client → View
view c = (c.current_user, c.friends, c.login_success)

pub record Keeps {A : Type 0} (m : Act A) : Type 0 where
  pub kept : (c : Client) → view (m c).1 ≡ view c

pub view-chain :
    {A B : Type 0} (r : Option A × Client) (k : A → Act B)
    → ((a : A) → Keeps (k a))
    → view (chain r k).1 ≡ view r.1
view-chain (none, c) k h = refl
view-chain (some a, c) k h = (h a).kept c

pub then_Keeps :
    {A B : Type 0} {m : Act A} {k : A → Act B}
    → Keeps m
    → ((a : A) → Keeps (k a))
    → Keeps (λ c. chain (m c) k)
then_Keeps {m} {k} f h = record { kept = λ c. view-chain (m c) k h ∙ f.kept c }

read_Keeps :
    {A B : Type 0} (o : Option A) {k : A → Act B}
    → ((a : A) → Keeps (k a))
    → Keeps (λ c. chain (o, c) k)
read_Keeps o {k} h = record { kept = λ c. view-chain (o, c) k h }

pub plain_Keeps : {A : Type 0} {m : Act A} → ((c : Client) → view (m c).1 ≡ view c) → Keeps m
plain_Keeps h = record { kept = h }

module _ (j : Json) where
  read_member-Keeps : (usr : Bytes) → Keeps (read_member j usr)
  unfolding read_member
  read_member-Keeps usr = read_Keeps (j.parse usr) λ js.
      read_Keeps (j.get_int (codes "id") js) λ id. read_Keeps (j.get_text (codes "name") js) λ name.
        read_Keeps (j.get_text (codes "state") js)
          λ state. read_Keeps (j.get_text (codes "role") js) λ role. plain_Keeps λ c. refl

  read_members-Keeps : (usrs : List Bytes) → Keeps (read_members j usrs)
  unfolding read_members
  read_members-Keeps [] = plain_Keeps λ c. refl
  read_members-Keeps (usr ∷ usrs) =
      then_Keeps (read_member-Keeps usr)
        (λ m. then_Keeps (read_members-Keeps usrs) (λ ms. plain_Keeps λ d. refl))

  add_group_text-Keeps : (str : Bytes) → Keeps (add_group_text j str)
  unfolding add_group_text
  add_group_text-Keeps str = read_Keeps (j.parse str) λ js.
      read_Keeps (j.get_int (codes "id") js) λ id.
        read_Keeps (j.get_text (codes "groupname") js) λ name.
          read_Keeps (j.get_text (codes "groupdesc") js) λ desc.
            read_Keeps (j.get_texts (codes "users") js)
              λ usrs. then_Keeps (read_members-Keeps usrs) (λ users. plain_Keeps λ c. refl)

  add_group_texts-Keeps : (strs : List Bytes) → Keeps (add_group_texts j strs)
  unfolding add_group_texts
  add_group_texts-Keeps [] = plain_Keeps λ c. refl
  add_group_texts-Keeps (str ∷ strs) =
      then_Keeps (add_group_text-Keeps str) (λ _. add_group_texts-Keeps strs)

  pub show_chat-Keeps : (front : Bytes) (js : j.Value) → Keeps (show_chat j front js)
  unfolding show_chat
  show_chat-Keeps front js = read_Keeps (j.get_text (codes "time") js) λ time.
      read_Keeps (j.get_text (codes "name") js)
        λ name. read_Keeps (j.get_text (codes "msg") js) λ msg. plain_Keeps λ c. refl

  pub show_offlines-Keeps : (strs : List Bytes) → Keeps (show_offlines j strs)
  unfolding show_offlines show_offline
  show_offlines-Keeps [] = plain_Keeps λ c. refl
  show_offlines-Keeps (str ∷ strs) =
      then_Keeps
        (read_Keeps (j.parse str)
          λ js. read_Keeps (j.get_int (codes "msgId") js) λ msg_id. show_chat-Keeps _ js)
        (λ _. show_offlines-Keeps strs)

  pub if_contains-Keeps :
      (key : Bytes) (js : j.Value) (each : List Bytes → Act (Unit {0}))
      → ((strs : List Bytes) → Keeps (each strs))
      → Keeps (if_contains j key js each)
  unfolding if_contains
  if_contains-Keeps key js each h = elim (Bool-cases (j.contains key js)) [
    | inl e ↦ rw e (read_Keeps (j.get_texts key js) h)
    | inr e ↦ rw e (plain_Keeps λ c. refl)
  ]

  pub take_groups-Keeps : (js : j.Value) → Keeps (take_groups j js)
  unfolding take_groups
  take_groups-Keeps js =
      if_contains-Keeps (codes "groups") js _
        (λ strs. plain_Keeps λ c. (add_group_texts-Keeps strs).kept (record c { groups = [] }))
