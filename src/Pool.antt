-- ===== src/Pool.antt =====
-- `ConnectionPool` (src/server/db/connectionpool.cpp): a queue of open connections that callers
-- borrow and give back.
pub mod Lent
use cluster_chat_server_with.Prelude.{
  ℕ, zero, suc, ◌+◌, Bool, List, [], ◌∷◌, ◌++◌, Option, none, some, eqb, if◌then◌else◌, ℤ,
  is_nonpos, to_nat,
}

-- A connection is a pointer. `lent` holds those that a `shared_ptr` outside keeps.
pub record Pool : Type 0 where
  pub queue : List ℕ
  pub lent : List ℕ

-- The constructor's loop from round `i` on, with `n` rounds left: `connects i` tells whether
-- connection `i` could be opened.
unfoldable pub open_from : (ℕ → Bool) → ℕ → ℕ → List ℕ
open_from connects i zero = []
open_from connects i (suc n) =
    let rest = open_from connects (suc i) n in if connects i then i ∷ rest else rest

-- The constructor: a size that is not positive opens none.
unfoldable pub new_pool : (ℕ → Bool) → ℤ → Pool
unfolding open_from
new_pool connects max_size = record {
  queue = open_from connects 0 (if is_nonpos max_size then 0 else to_nat max_size);
  lent = [];
}

-- `getConnection`; none while it waits.
unfoldable pub get_connection : Pool → Option (ℕ × Pool)
get_connection p = elim p.queue [
  | [] ↦ none
  | c ∷ rest ↦ some (c, record { queue = rest; lent = c ∷ p.lent })
]

-- One holder of `c` less.
unfoldable pub drop_one : ℕ → List ℕ → List ℕ
drop_one c [] = []
drop_one c (d ∷ rest) = let dropped = drop_one c rest in if eqb d c then rest else d ∷ dropped

-- The deleter of the `shared_ptr`.
unfoldable pub give_back : ℕ → Pool → Pool
unfolding drop_one
give_back c p = record { queue = p.queue ++ c ∷ []; lent = drop_one c p.lent }
