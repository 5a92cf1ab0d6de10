-- ===== src/Redis/Sessions.antt =====
-- The sessions in Redis (src/server/redis/redis.cpp): what the nodes see of them is one map from
-- users to the node that has the user.
use cluster_chat_server_with.Prelude.{
  ◌≡◌, ◌≢◌, ap, Bool, true, false, List, [], ◌∷◌, Option, none, some, Bytes, All, arith, drop,
  is_empty, if◌then◌else◌, ℤ, int_eq, int_eq_iff,
}
use cluster_chat_server_with.Text.{codes, to_string_injective}
use cluster_chat_server_with.Redis.{
  other, RedisServer, session_key, session_value, bind_user_node, unbind_user_node,
  get_user_session,
}
use cluster_chat_server_with.Redis.Store.{IsStore, set_words, get_words}

abbrev pub del_words : Bytes → List Bytes
del_words key = codes "DEL" ∷ key ∷ []

abbrev pub rem_words : Bytes → Bytes → List Bytes
rem_words key member = codes "SREM" ∷ key ∷ member ∷ []

-- More of the documented replies: what the commands do to the values of the other keys, and DEL
-- and SREM.
pub record IsKeyed (r : RedisServer) (d : IsStore r) : Type 0 where
  pub set_other :
      (k v h : Bytes) (w : r.State)
      → h ≢ k
      → d.value_of (r.command (set_words k v) w).1 h ≡ d.value_of w h
  pub set_refused :
      (k v x h : Bytes) (w : r.State)
      → d.value_of w k ≡ some x
      → d.value_of (r.command (set_words k v) w).1 h ≡ d.value_of w h
  pub got_values :
      (k h : Bytes) (w : r.State) → d.value_of (r.command (get_words k) w).1 h ≡ d.value_of w h
  pub deleted : (k : Bytes) (w : r.State) → (r.command (del_words k) w).0 ≡ some other
  pub deleted_value : (k : Bytes) (w : r.State) → d.value_of (r.command (del_words k) w).1 k ≡ none
  pub deleted_other :
      (k h : Bytes) (w : r.State)
      → h ≢ k
      → d.value_of (r.command (del_words k) w).1 h ≡ d.value_of w h
  pub removed : (k m : Bytes) (w : r.State) → (r.command (rem_words k m) w).0 ≡ some other
  pub removed_values :
      (k m h : Bytes) (w : r.State) → d.value_of (r.command (rem_words k m) w).1 h ≡ d.value_of w h

-- A call that a node makes; the last one is with the node and the instance of the caller.
pub data SessionCall : Type 0 where
  looks_up : ℤ → SessionCall
  unbinds : ℤ → Bytes → SessionCall
  binds : ℤ → Bytes → Bytes → SessionCall

pub data Answer : Type 0 where
  done : Bool → Answer
  found : Option (Bytes × Bytes) → Answer

-- The abstract view: the node and the instance that have a user.
abbrev pub Sessions : Type 0
Sessions = ℤ → Option (Bytes × Bytes)

abbrev pub with_session : ℤ → Option (Bytes × Bytes) → Sessions → Sessions
with_session u session t v = if int_eq u v then session else t v

-- What a call promises: a bind takes a free user, and no other; an unbind frees the user,
-- whichever node has it; a lookup changes nothing.
unfoldable pub promised : SessionCall → Sessions → Answer × Sessions
promised (looks_up u) t = (found (t u), t)
promised (unbinds u n) t = (done true, with_session u none t)
promised (binds u n i) t = elim (t u) [
  | none ↦ (done true, with_session u (some (n, i)) t)
  | some _ ↦ (done false, t)
]

unfoldable pub all_promised : List SessionCall → Sessions → List Answer × Sessions
unfolding promised
all_promised [] t = ([], t)
all_promised (c ∷ cs) t =
    let (answer, after) = promised c t in
    let (answers, last) = all_promised cs after in (answer ∷ answers, last)

-- A node has a name, and its instance has no bar.
abbrev pub IsProper : SessionCall → Type 0
IsProper (looks_up u) = Unit
IsProper (unbinds u n) = Unit
IsProper (binds u n i) = (is_empty n ≡ false) × All (λ c. c ≢ b'|') i

pub session_key_ne : (u v : ℤ) → int_eq u v ≡ false → session_key v ≢ session_key u
session_key_ne u v e same =
    ground (arith, int_eq_iff u v, to_string_injective v u (ap (drop 13) same))

module _ (r : RedisServer) where
  unfoldable pub asked : SessionCall → r.State → Answer × r.State
  asked (looks_up u) w = let (session, w') = get_user_session r u w in (found session, w')
  asked (unbinds u n) w = let (ok, w') = unbind_user_node r u n w in (done ok, w')
  asked (binds u n i) w = let (ok, w') = bind_user_node r u n i w in (done ok, w')

  unfoldable pub all_asked : List SessionCall → r.State → List Answer × r.State
  unfolding asked
  all_asked [] w = ([], w)
  all_asked (c ∷ cs) w =
      let (answer, after) = asked c w in
      let (answers, last) = all_asked cs after in (answer ∷ answers, last)

abbrev pub stored : Option (Bytes × Bytes) → Option Bytes
stored none = none
stored (some (n, i)) = some (session_value n i)

module _ (r : RedisServer) (d : IsStore r) where
  -- The values of the session keys are the sessions, all of proper nodes.
  pub record Shows (w : r.State) (t : Sessions) : Type 0 where
    pub values : (u : ℤ) → d.value_of w (session_key u) ≡ stored (t u)
    pub proper : (u : ℤ) (n i : Bytes) → t u ≡ some (n, i) → IsProper (binds u n i)
