-- ===== src/Tests/Store/Sessions.antt =====
-- Three calls of two nodes on the sessions in the small Redis server.
use cluster_chat_server_with.Prelude.{
  arith, ◌≡◌, ◌≢◌, refl, sym, ◌∙◌, inl, inr, true, false, List, [], ◌∷◌, Option, none, some, Bytes,
  Bool-cases, bytes_eq, bytes_eq_iff, bytes_eq_inst, pos, find, find-assign, find-erase,
  find-erase_self,
}
use cluster_chat_server_with.Text.{codes}
use cluster_chat_server_with.Redis.Sessions.{
  IsKeyed, done, found, SessionCall, looks_up, unbinds, binds, Sessions, Shows, all_asked, promised,
  all_promised,
}
use cluster_chat_server_with.Redis.Promises.{sessions_refine}
use cluster_chat_server_with.Tests.Store.{Store, server, server-IsStore, set_in}

pub not_same : (k h : Bytes) → h ≢ k → bytes_eq k h ≡ false
not_same k h n = elim (Bool-cases (bytes_eq k h)) [
  | inl e ↦ absurd (n (sym ((bytes_eq_iff k h).0 e)))
  | inr e ↦ e
]

set_other_key :
    (o : Option Bytes) (k v h : Bytes) (s : Store)
    → h ≢ k
    → find h (set_in o k v s).1.values ≡ find h s.values
set_other_key none k v h s n = find-assign k h v s.values ∙ rw (not_same k h n) refl
set_other_key (some x) k v h s n = refl

pub server-IsKeyed : IsKeyed server server-IsStore
unfolding server-IsStore bytes_eq
server-IsKeyed = record {
  set_other = λ k v h s n. set_other_key (find k s.values) k v h s n;
  set_refused = λ k v x h s e. rw e refl;
  got_values = λ k h s. refl;
  deleted = λ k s. refl;
  deleted_value = λ k s. find-erase_self k s.values;
  deleted_other = λ k h s n. find-erase k h s.values ∙ rw (not_same k h n) refl;
  removed = λ k m s. refl;
  removed_values = λ k m h s. refl;
}

abbrev pub no_sessions : Sessions
no_sessions u = none

abbrev pub empty : Store
empty = record { values = []; hashes = []; sets = [] }

-- Node n1 has the user, node n2 does not get it, and a late unbind of n2 frees it.
abbrev calls : List SessionCall
calls =
    binds (pos 4) (codes "n1") (codes "1")
    ∷ binds (pos 4) (codes "n2") (codes "2")
    ∷ looks_up (pos 4)
    ∷ unbinds (pos 4) (codes "n2")
    ∷ looks_up (pos 4)
    ∷ []

pub empty-Shows : Shows server server-IsStore empty no_sessions
unfolding server-IsStore find
empty-Shows = record { values = λ u. refl; proper = λ u n i e. absurd (cc) }

sessions_refine_example :
    ((all_asked server calls empty).0
      ≡ done true ∷ done false ∷ found (some (codes "n1", codes "1")) ∷ done true ∷ found none ∷ [])
    × Shows server server-IsStore
        (all_asked server calls empty).1
        (all_promised calls no_sessions).1
unfolding all_promised promised
sessions_refine_example =
    sessions_refine server server-IsStore server-IsKeyed calls empty no_sessions
      ((refl, (λ e. omega arith, tt)), ((refl, (λ e. omega arith, tt)), (tt, (tt, (tt, tt)))))
      empty-Shows
