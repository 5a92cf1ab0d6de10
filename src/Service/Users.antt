-- ===== src/Service/Users.antt =====
-- What the table of connections promises (src/server/chatservice.cpp): a map from users to
-- connections, whatever buckets it is cut into.
use cluster_chat_server_with.Prelude.{
  ℕ, ◌<◌, ◌≡◌, ◌≢◌, refl, sym, inl, inr, List, [], ◌∷◌, Option, none, some, length, get_or,
  length-set, if◌then◌else◌, ℤ, negsuc, int_eq, Map, find, int_eq_inst, replicate, subst, zero, suc,
}
use mathlib.Core.Path.{fun_ext}
use cluster_chat_server_with.Service.Connections.{
  Conn, Buckets, pick_conn_bucket, add_local_connection, remove_local_connection,
  get_local_connection, remove_local_connection_by_conn, get-add, get-remove,
}
use cluster_chat_server_with.Service.Table.{
  IsOwn, NoneFound, FoundAt, find_conn-found, find_conn-none, remove_by_conn-cases,
  add_local_connection-IsOwn, remove_local_connection-IsOwn,
}

pub data Call : Type 0 where
  adds : ℤ → Conn → Call
  removes : ℤ → Call
  closes : Conn → Call

-- A call on the buckets, with the user that `removeLocalConnectionByConn` returns.
unfoldable pub call : Call → Buckets → Option ℤ × Buckets
unfolding add_local_connection remove_local_connection remove_local_connection_by_conn
call (adds u conn) bs = (none, add_local_connection u conn bs)
call (removes u) bs = (none, remove_local_connection u bs)
call (closes conn) bs = let (u, cs) = remove_local_connection_by_conn conn bs in (some u, cs)

unfoldable pub calls : List Call → Buckets → List (Option ℤ) × Buckets
unfolding call
calls [] bs = ([], bs)
calls (c ∷ cs) bs =
    let (answer, after) = call c bs in
    let (answers, last) = calls cs after in (answer ∷ answers, last)

-- The abstract table.
abbrev pub Users : Type 0
Users = ℤ → Option Conn

abbrev pub Sets : Users → ℤ → Option Conn → Users → Type 0
Sets t u entry t' = (w : ℤ) → t' w ≡ (if int_eq u w then entry else t w)

-- The steps of the abstract table. The close of a connection removes one user that has it, and
-- which one is left open; without such a user the table stays.
pub data Step : Call → Option ℤ → Users → Users → Type 0 where
  added :
      {t t' : Users} (u : ℤ) (conn : Conn) → Sets t u (some conn) t' → Step (adds u conn) none t t'
  removed : {t t' : Users} (u : ℤ) → Sets t u none t' → Step (removes u) none t t'
  one_closed :
      {t t' : Users} (u : ℤ) (conn : Conn)
      → t u ≡ some conn
      → Sets t u none t'
      → Step (closes conn) (some u) t t'
  none_closed :
      {t t' : Users} (conn : Conn)
      → ((u : ℤ) → t u ≢ some conn)
      → ((u : ℤ) → t' u ≡ t u)
      → Step (closes conn) (some (negsuc 0)) t t'

pub data Steps : List Call → List (Option ℤ) → Users → Users → Type 0 where
  no_call : {t : Users} → Steps [] [] t t
  then_call :
      {c : Call} {cs : List Call} {answer : Option ℤ} {answers : List (Option ℤ)} {t t' t'' : Users}
      → Step c answer t t'
      → Steps cs answers t' t''
      → Steps (c ∷ cs) (answer ∷ answers) t t''

-- The users that the buckets hold.
abbrev pub users : Buckets → Users
users bs u = get_local_connection u bs

abbrev IsTable : Buckets → Type 0
IsTable bs = (0 < length bs) × IsOwn bs

abbrev Refines : Call → Buckets → Type 0
Refines c bs = Step c (call c bs).0 (users bs) (users (call c bs).1) × IsTable (call c bs).1

close-none :
    (conn : Conn) (bs : Buckets) → IsTable bs → NoneFound conn bs → Refines (closes conn) bs
unfolding call get_local_connection
close-none conn bs table (nowhere, r) =
    rw (call, r)
      (
        none_closed conn (λ u. find_conn-none conn _ u (nowhere (pick_conn_bucket bs u)))
            (λ u. refl),
        table,
      )

close-at : (conn : Conn) (bs : Buckets) → IsTable bs → FoundAt conn bs → Refines (closes conn) bs
unfolding call get_local_connection remove_local_connection
close-at conn bs (h, own) (i, u, f, r) =
    let held = find_conn-found conn (get_or bs i []) u (own i).0 f in
    let here = (own i).1 u conn held in
    rw (call, r, sym here)
      (
        one_closed u conn (subst (λ n. find u (get_or bs n []) ≡ some conn) (sym here) held)
            (λ w. get-remove bs u w h),
        (rw length-set h, remove_local_connection-IsOwn u bs h own),
      )

call-Refines : (c : Call) (bs : Buckets) → IsTable bs → Refines c bs
unfolding call add_local_connection remove_local_connection
call-Refines (adds k conn) bs (h, own) = (
  added k conn (λ u. get-add bs k u conn h),
  (rw length-set h, add_local_connection-IsOwn k conn bs h own),
)
call-Refines (removes k) bs (h, own) = (
  removed k (λ u. get-remove bs k u h),
  (rw length-set h, remove_local_connection-IsOwn k bs h own),
)
call-Refines (closes conn) bs table = elim (remove_by_conn-cases conn bs) [
  | inl nowhere ↦ close-none conn bs table nowhere
  | inr found ↦ close-at conn bs table found
]

calls-Steps :
    (cs : List Call) (bs : Buckets)
    → IsTable bs
    → Steps cs (calls cs bs).0 (users bs) (users (calls cs bs).1)
unfolding calls
calls-Steps [] bs table = no_call
calls-Steps (c ∷ cs) bs table =
    let (step, kept) = call-Refines c bs table in then_call step (calls-Steps cs (call c bs).1 kept)

-- The buckets of a new service, as many as there are.
abbrev no_entries : Map ℤ Conn
no_entries = []

empty-nil : (n i : ℕ) → get_or (replicate n no_entries) i no_entries ≡ no_entries
empty-nil zero i = refl
empty-nil (suc n) zero = refl
empty-nil (suc n) (suc i) = empty-nil n i

length-replicate : (n : ℕ) → length (replicate n no_entries) ≡ n
length-replicate zero = refl
length-replicate (suc n) = rw (length-replicate n)

-- The calls of `addLocalConnection`, `removeLocalConnection` and `removeLocalConnectionByConn` on
-- the empty buckets of a new service, one or more, refine the abstract table: they are steps of a
-- map from users to connections, where the answer of a close is a user that had the connection,
-- who alone is taken out, or -1 when no user had it; and every lookup in the buckets that the
-- calls leave is the map's.
pub calls_refine :
    (cs : List Call) (count : ℕ)
    → 0 < count
    → Steps cs
        (calls cs (replicate count [])).0
        (λ _. none)
        (users (calls cs (replicate count [])).1)
unfolding get_local_connection find
calls_refine cs count h =
    let bs : Buckets = replicate count [] in
    let empty : (u : ℤ) → users bs u ≡ none =
      λ u. rw (empty-nil count (pick_conn_bucket bs u)) refl in
    let own : IsOwn bs = λ i. rw (empty-nil count i) (tt, λ u c e. absurd (cc)) in
    subst (λ t. Steps cs (calls cs bs).0 t (users (calls cs bs).1)) (fun_ext empty)
      (calls-Steps cs bs (rw (length-replicate count) h, own))
