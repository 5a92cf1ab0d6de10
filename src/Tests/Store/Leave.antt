-- ===== src/Tests/Store/Leave.antt =====
-- Node n1 is interrupted while it and node n2 have a user each.
use cluster_chat_server_with.Prelude.{
  arith, ◌≡◌, ◌≢◌, refl, ap, ◌∙◌, inl, inr, Bool, true, false, List, [], ◌∷◌, Option, none, some,
  Bytes, Bool-cases, bytes_eq, bytes_eq_iff, bytes_eq_refl, bytes_eq_inst, pos, find, assign, erase,
  find-assign, find-assign_self, find-erase, if◌then◌else◌,
}
use cluster_chat_server_with.Text.{codes}
use cluster_chat_server_with.Redis.Sessions.{SessionCall, binds, all_asked, all_promised}
use cluster_chat_server_with.Redis.Index.{has, IsIndex}
use cluster_chat_server_with.Registry.{Sys, new_registry}
use cluster_chat_server_with.Registry.Cleanup.{Leaves}
use cluster_chat_server_with.Cluster.Start.{ChatNode, reset_handler}
use cluster_chat_server_with.Cluster.Leave.{reset_handler-Leaves}
use cluster_chat_server_with.Tests.Service.{loop_now, here_now}
use cluster_chat_server_with.Tests.Cluster.{tables, json, hash}
use cluster_chat_server_with.Tests.Store.Bound.{machine, sender}
use cluster_chat_server_with.Tests.Store.{
  Store, server, server-IsStore, set_in, fields_in, without, member, clock, wall_ms, plane,
}
use cluster_chat_server_with.Tests.Store.Sessions.{
  server-IsKeyed, not_same, no_sessions, empty, empty-Shows,
}

has-without :
    (m x : Bytes) (ms : List Bytes) → x ≢ m → has x ms ≡ true → has x (without m ms) ≡ true
unfolding without
has-without m x [] n h = h
has-without m x (y ∷ ms) n h = elim (Bool-cases (bytes_eq y m)) [
  | inl e ↦ rw e (
      has-without m x ms n
        (other_first y x ms (not_same y x (λ f. n (f ∙ (bytes_eq_iff y m).0 e))) h))
  | inr e ↦ rw e (kept y x ms (without m ms) (has-without m x ms n) h)
]
  where
    other_first :
        (y x : Bytes) (ms : List Bytes)
        → bytes_eq y x ≡ false
        → has x (y ∷ ms) ≡ true
        → has x ms ≡ true
    other_first y x ms e h = rw e at h

    kept :
        (y x : Bytes) (ms ns : List Bytes)
        → (has x ms ≡ true → has x ns ≡ true)
        → has x (y ∷ ms) ≡ true
        → has x (y ∷ ns) ≡ true
    kept y x ms ns f h = elim (Bool-cases (bytes_eq y x)) [
      | inl e ↦ rw e refl
      | inr e ↦ rw e (f (rw e at h))
    ]

or_true : (b : Bool) {c : Bool} → c ≡ true → (if b then true else c) ≡ true
or_true true e = refl
or_true false e = e

other_set :
    (k h : Bytes) (ms : List Bytes) (s : Store)
    → bytes_eq k h ≡ false
    → find h (assign k ms s.sets) ≡ find h s.sets
other_set k h ms s e = find-assign k h ms s.sets ∙ rw e refl

same_set :
    (k h : Bytes) (ms : List Bytes) (s : Store)
    → bytes_eq k h ≡ true
    → find h (assign k ms s.sets) ≡ some ms
same_set k h ms s e = find-assign k h ms s.sets ∙ rw e refl

gone_set : (k h : Bytes) (s : Store) → h ≢ k → find h (erase k s.sets) ≡ find h s.sets
gone_set k h s n = find-erase k h s.sets ∙ rw (not_same k h n) refl

-- A set changed at one key still has what it had, if the set at that key has.
changed_set :
    (k h x : Bytes) (ms : List Bytes) (s : Store)
    → (has x (fields_in (find k s.sets)) ≡ true → has x ms ≡ true)
    → has x (fields_in (find h s.sets)) ≡ true
    → has x (fields_in (find h (assign k ms s.sets))) ≡ true
changed_set k h x ms s keeps is_in = elim (Bool-cases (bytes_eq k h)) [
  | inl e ↦
      ap (λ o. has x (fields_in o)) (same_set k h ms s e)
      ∙ keeps (ap (λ q. has x (fields_in (find q s.sets))) ((bytes_eq_iff k h).0 e) ∙ is_in)
  | inr e ↦ ap (λ o. has x (fields_in o)) (other_set k h ms s e) ∙ is_in
]

set_in-sets : (o : Option Bytes) (k v : Bytes) (s : Store) → (set_in o k v s).1.sets ≡ s.sets
set_in-sets none k v s = refl
set_in-sets (some x) k v s = refl

server-IsIndex : IsIndex server server-IsStore
unfolding server-IsStore bytes_eq
server-IsIndex = record {
  members_of = λ s k. fields_in (find k s.sets);
  members_listed = λ k s. refl;
  listed_members = λ k h s. refl;
  listed_values = λ k h s. refl;
  added_self = λ k m s.
      ap (λ o. has m (fields_in o)) (find-assign_self k _ s.sets) ∙ rw (bytes_eq_refl m) refl;
  added_keeps = λ k m x h s. changed_set k h x _ s (or_true (bytes_eq m x));
  removed_keeps = λ k m x h s n. changed_set k h x _ s (has-without m x _ n);
  set_members = λ k v h s. ap (λ m. fields_in (find h m)) (set_in-sets (find k s.values) k v s);
  got_members = λ k h s. refl;
  deleted_members = λ k h s n. ap fields_in (gone_set k h s n);
}

abbrev two_binds : List SessionCall
two_binds = binds (pos 4) (codes "n1") (codes "1") ∷ binds (pos 5) (codes "n2") (codes "2") ∷ []

abbrev leaving : Sys plane
leaving = record {
  registry = record new_registry { self_node = member (codes "n1") };
  world = (all_asked server two_binds empty).1;
}

abbrev node : ChatNode plane tables json hash loop_now here_now
node = record sender { world = record machine { sys = leaving } }

reset_handler-Leaves_example :
    let s' = reset_handler plane tables json hash loop_now here_now node in
    Leaves server server-IsStore server-IsKeyed server-IsIndex clock wall_ms leaving
      (all_promised two_binds no_sessions).1
      s'.world.sys
    × (s'.world.router.conn_map ≡ [])
reset_handler-Leaves_example =
    reset_handler-Leaves server server-IsStore server-IsKeyed server-IsIndex clock wall_ms tables
      json hash loop_now here_now two_binds empty no_sessions node refl
      ((refl, (λ e. omega arith, tt)), ((refl, (λ e. omega arith, tt)), tt)) empty-Shows
      (λ u n i e. absurd (cc)) refl
