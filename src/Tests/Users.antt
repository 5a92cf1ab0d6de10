-- ===== src/Tests/Users.antt =====
-- Two users on one connection, which is closed twice.
use cluster_chat_server_with.Prelude.{
  arith, [], ◌∷◌, List, none, some, pos, negsuc, replicate, find, assign, erase, int_eq_inst,
}
use cluster_chat_server_with.Service.Connections.{pick_conn_bucket, find_conn}
use cluster_chat_server_with.Service.Users.{
  Call, adds, removes, closes, calls, Steps, users, calls_refine,
}

abbrev run : List Call
run = adds (pos 1) 8 ∷ adds (pos 5) 8 ∷ closes 8 ∷ removes (pos 2) ∷ closes 8 ∷ closes 8 ∷ []

calls_refine_example :
    Steps run
      (none ∷ none ∷ some (pos 1) ∷ none ∷ some (pos 5) ∷ some (negsuc 0) ∷ [])
      (λ u. none)
      (users (calls run (replicate 4 [])).1)
unfolding calls pick_conn_bucket find_conn find assign erase
calls_refine_example = calls_refine run 4 (omega arith)
