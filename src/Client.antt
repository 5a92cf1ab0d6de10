-- ===== src/Client.antt =====
-- The chat client (src/client/main.cpp): what it remembers, the commands of its menu, and what it
-- does with replies. Terminal and socket are lists of what was written.
pub mod Input
pub mod Commands
pub mod Typed
pub mod Served
pub mod Screen
pub mod Responses
pub mod Receive
pub mod Stream
pub mod Keeps
pub mod Login
pub mod Main
pub mod Accepted
use cluster_chat_server_with.Prelude.{ℕ, Bool, false, List, [], Bytes}
use cluster_chat_server_with.Models.{User, Group, no_user}

-- The global variables, the semaphore `rwSem`, and the texts of the messages sent and shown.
pub record Client : Type 0 where
  pub current_user : User
  pub friends : List User
  pub groups : List Group
  pub menu_running : Bool
  pub login_success : Bool
  pub rw_sem : ℕ
  pub sent : List Bytes
  pub shown : List Bytes

-- At the start of `main`.
abbrev pub new_client : Client
new_client = record {
  current_user = no_user;
  friends = [];
  groups = [];
  menu_running = false;
  login_success = false;
  rw_sem = 0;
  sent = [];
  shown = [];
}
