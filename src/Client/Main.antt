-- ===== src/Client/Main.antt =====
-- The two threads of the client: the loop of `main` and the receiving thread, which takes a message
-- whenever one has arrived. The semaphore holds `main` back until the thread has posted.
use cluster_chat_server_with.Prelude.{
  ℕ, suc, ◌≡◌, Bool, true, false, if◌then◌else◌, List, [], ◌∷◌, Bytes, ℤ,
}
use cluster_chat_server_with.Json.{Json}
use cluster_chat_server_with.Client.{Client}
use cluster_chat_server_with.Client.Commands.{
  Outcome, back, crashed, menu_round, ask_login, ask_reg,
}
use cluster_chat_server_with.Client.Input.{Input}
use cluster_chat_server_with.Client.Responses.{handle_message}

-- Where `main` is: at the choices, at `sem_wait` after a login or a registration, in `mainMenu`, or
-- at its end.
pub data Phase : Type 0 where
  choosing waiting_login waiting_reg in_menu ended : Phase

pub record Run : Type 0 where
  pub phase : Phase
  pub client : Client

-- `sem_wait` after a login, with the semaphore at one more than `n`.
unfoldable pub after_login : ℕ → Client → Run
after_login n c =
    if c.login_success
    then record { phase = in_menu; client = record c { rw_sem = n; menu_running = true } }
    else record { phase = choosing; client = record c { rw_sem = n } }

unfoldable pub after_line : Outcome → Client → Run
after_line (back next) c = record { phase = in_menu; client = next }
after_line crashed c = record { phase = ended; client = c }

-- `time` is what the clock gives and `sends` whether `send` succeeds, at that step. The list holds
-- the message that the step takes in, if it does.
pub data Step (j : Json) : Run → List Bytes → Run → Type 0 where
  login_chosen :
      (time : Bytes) (sends : Bool) (id : ℤ) (pwd : Bytes) (c : Client)
      → Step j
          (record { phase = choosing; client = c })
          []
          (record { phase = waiting_login; client = ask_login j time sends c id pwd })
  reg_chosen :
      (time : Bytes) (sends : Bool) (name pwd : Bytes) (c : Client)
      → Step j
          (record { phase = choosing; client = c })
          []
          (record { phase = waiting_reg; client = ask_reg j time sends c name pwd })
  quit_chosen :
      (c : Client)
      → Step j (record { phase = choosing; client = c }) [] (record { phase = ended; client = c })
  login_woken :
      (n : ℕ) (c : Client)
      → c.rw_sem ≡ suc n
      → Step j (record { phase = waiting_login; client = c }) [] (after_login n c)
  reg_woken :
      (n : ℕ) (c : Client)
      → c.rw_sem ≡ suc n
      → Step j
          (record { phase = waiting_reg; client = c })
          []
          (record { phase = choosing; client = record c { rw_sem = n } })
  line_typed :
      (time : Bytes) (sends : Bool) (input : Input) (c : Client)
      → c.menu_running ≡ true
      → Step j
          (record { phase = in_menu; client = c })
          []
          (after_line (menu_round j time sends c input).0 c)
  menu_left :
      (c : Client)
      → c.menu_running ≡ false
      → Step j (record { phase = in_menu; client = c }) [] (record { phase = choosing; client = c })
  received :
      (text : Bytes) (s : Run)
      → Step j s (text ∷ []) (record s { client = (handle_message j text s.client).1 })
  -- `recv` gives nothing, and the thread ends the program.
  connection_lost : (s : Run) → Step j s [] (record s { phase = ended })
