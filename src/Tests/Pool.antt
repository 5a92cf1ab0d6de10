-- ===== src/Tests/Pool.antt =====
-- A pool of three whose second connection could not be opened, and the loading of a .env file.
use cluster_chat_server_with.Prelude.{
  ℕ, ◌+◌, ◌≤◌, ◌≡◌, refl, Bool, List, [], ◌∷◌, some, Bytes, pos, eqb, not, find, bytes_eq,
  bytes_eq_inst,
}
use cluster_chat_server_with.Text.{codes}
use cluster_chat_server_with.Pool.{Pool, new_pool, get_connection, open_from}
use cluster_chat_server_with.Pool.Lent.{copies, Moves, moved, unmoved, borrows, pool_keeps}
use cluster_chat_server_with.Config.{
  Environment, load_env_lines, parse_line, trim_copy, trim_left, trim_right, find_byte,
}
use cluster_chat_server_with.Config.Env.{first_of, first_setting, load_env_lines-find}

abbrev connects : ℕ → Bool
connects i = not (eqb i 1)

abbrev one_lent : Pool
one_lent = record { queue = 2 ∷ []; lent = 0 ∷ [] }

to_one_lent : Moves (new_pool connects (pos 3)) one_lent
unfolding new_pool open_from get_connection
to_one_lent = moved unmoved (borrows (new_pool connects (pos 3)) one_lent 0 refl)

pool_keeps_example :
    (copies 0 one_lent.queue + copies 0 one_lent.lent ≡ copies 0 (new_pool connects (pos 3)).queue)
    × (copies 0 one_lent.queue + copies 0 one_lent.lent ≤ 1)
pool_keeps_example = pool_keeps connects (pos 3) one_lent 0 to_one_lent

abbrev env : Environment
env = (codes "A", codes "0") ∷ []

abbrev lines : List Bytes
lines = codes "# demo" ∷ codes " export B = 'x y' " ∷ codes "A=1" ∷ codes "B=2" ∷ []

load_env_lines-find_example :
    find (codes "B") (load_env_lines env lines)
    ≡ first_of (find (codes "B") env) (first_setting (codes "B") lines)
load_env_lines-find_example = load_env_lines-find lines env (codes "B")

parse_line-export : parse_line (codes " export B = 'x y' ") ≡ some (codes "B", codes "x y")
unfolding parse_line trim_copy trim_left trim_right find_byte bytes_eq
parse_line-export = refl
