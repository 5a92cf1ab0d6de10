-- ===== src/Client/Screen.antt =====
-- What the client shows (`showCurrentUserData`, src/client/main.cpp), and the steps that a message
-- is handled in, each of which may throw.
use cluster_chat_server_with.Prelude.{List, [], ◌∷◌, ◌++◌, Option, none, some, Bytes}
use cluster_chat_server_with.Text.{codes, to_string}
use cluster_chat_server_with.Models.{User, GroupUser, Group}
use cluster_chat_server_with.Client.{Client}

-- A step that may throw.
abbrev pub Act : Type 0 → Type 0
Act A = Client → Option A × Client

abbrev pub chain : {A B : Type 0} → Option A × Client → (A → Act B) → Option B × Client
chain (none, c) k = (none, c)
chain (some a, c) k = k a c

infixl 5 ◌>>=◌ ◌>>◌
abbrev pub ◌>>=◌ : {A B : Type 0} → Act A → (A → Act B) → Act B
◌>>=◌ m k c = chain (m c) k

abbrev pub ◌>>◌ : {B : Type 0} → Act (Unit {0}) → Act B → Act B
◌>>◌ m k c = chain (m c) (λ _. k)

abbrev pub read : {A : Type 0} → Option A → Act A
read o c = (o, c)

abbrev pub change : (Client → Client) → Act (Unit {0})
change f c = (some tt, f c)

abbrev pub show : Bytes → Act (Unit {0})
show line = change (λ c. record c { shown = c.shown ++ line ∷ [] })

unfoldable pub friend_line : User → Bytes
friend_line u = to_string u.id ++ (codes " " ++ (u.name ++ (codes " " ++ u.state)))

unfoldable pub member_line : GroupUser → Bytes
unfolding friend_line
member_line m = friend_line m.user ++ (codes " " ++ m.role)

unfoldable pub friend_lines : List User → List Bytes
unfolding friend_line
friend_lines [] = []
friend_lines (u ∷ us) = friend_line u ∷ friend_lines us

unfoldable pub member_lines : List GroupUser → List Bytes
unfolding member_line
member_lines [] = []
member_lines (m ∷ ms) = member_line m ∷ member_lines ms

unfoldable pub group_lines : List Group → List Bytes
unfolding member_lines
group_lines [] = []
group_lines (g ∷ gs) =
    (codes "[" ++ (to_string g.id ++ (codes "] " ++ (g.name ++ (codes ": " ++ g.desc)))))
    ∷ codes "Group members:"
    ∷ (member_lines g.users ++ ([] ∷ group_lines gs))

unfoldable pub show_current_user_data : Client → Client
unfolding friend_lines group_lines
show_current_user_data c = record c {
  shown =
      c.shown
      ++ (codes "==================== login user ===================="
          ∷ (codes "current login user => id: "
              ++ (to_string c.current_user.id ++ (codes " name: " ++ c.current_user.name)))
          ∷ codes "-------------------- friend list --------------------"
          ∷ (friend_lines c.friends
              ++ (codes "-------------------- group list --------------------"
                  ∷ (group_lines c.groups
                      ++ (codes "====================================================" ∷ [])))));
}
