-- ===== src/Tests/Store.antt =====
-- A small Redis server, with two nodes.
mod Bound
mod Sessions
mod Leave
mod Reached
mod Excluded
mod Moves
use cluster_chat_server_with.Prelude.{
  ℕ, ◌≡◌, refl, ap, true, false, List, [], ◌∷◌, ◌++◌, map, Option, none, some, arith, Bytes,
  if◌then◌else◌, ℤ, pos, Map, find, assign, erase, find-assign_self, bytes_eq, bytes_eq_inst,
  int_eq_inst, get_or,
}
use cluster_chat_server_with.Text.{codes}
use cluster_chat_server_with.Types.{NodeMeta, no_node, valid}
use cluster_chat_server_with.Redis.{Reply, status, array, other, RedisServer, node_key, node_fields}
use cluster_chat_server_with.Redis.Store.{IsStore, reply_of}
use cluster_chat_server_with.Registry.Plane.{ControlPlane, redis_plane}
use cluster_chat_server_with.Registry.{Sys, new_registry, bind_user, query_user_node}
use cluster_chat_server_with.Registry.Shared.{IsRegistered}

pub record Store : Type 0 where
  pub values : Map Bytes Bytes
  pub hashes : Map Bytes (List Bytes)
  pub sets : Map Bytes (List Bytes)

abbrev pub fields_in : Option (List Bytes) → List Bytes
fields_in none = []
fields_in (some fs) = fs

abbrev set_in : Option Bytes → Bytes → Bytes → Store → Option Reply × Store
set_in none k v s = (some (status (some (codes "OK"))), record s { values = assign k v s.values })
set_in (some x) k v s = (some other, s)

unfoldable pub without : Bytes → List Bytes → List Bytes
without m [] = []
without m (x ∷ xs) = let rest = without m xs in if bytes_eq x m then rest else x ∷ rest

abbrev run : List Bytes → Store → Option Reply × Store
run [] s = (some other, s)
run (c ∷ []) s = (some other, s)
run (c ∷ k ∷ rest) s =
    if bytes_eq c (codes "SET")
    then set_in (find k s.values) k (get_or rest 0 []) s
    else if bytes_eq c (codes "GET")
    then (some (reply_of (find k s.values)), s)
    else if bytes_eq c (codes "HGETALL")
    then (some (array (map some (fields_in (find k s.hashes)))), s)
    else if bytes_eq c (codes "DEL")
    then (
      some other,
      record { values = erase k s.values; hashes = erase k s.hashes; sets = erase k s.sets },
    )
    else if bytes_eq c (codes "SADD")
    then (
      some other,
      record s { sets = assign k (get_or rest 0 [] ∷ fields_in (find k s.sets)) s.sets },
    )
    else if bytes_eq c (codes "SREM")
    then (
      some other,
      record s { sets = assign k (without (get_or rest 0 []) (fields_in (find k s.sets))) s.sets },
    )
    else if bytes_eq c (codes "SMEMBERS")
    then (some (array (map some (fields_in (find k s.sets)))), s)
    else (some other, s)

abbrev pub server : RedisServer
server = record { State = Store; command = run }

set_in-hashes : (o : Option Bytes) (k v : Bytes) (s : Store) → (set_in o k v s).1.hashes ≡ s.hashes
set_in-hashes none k v s = refl
set_in-hashes (some x) k v s = refl

pub server-IsStore : IsStore server
unfolding bytes_eq
server-IsStore = record {
  value_of = λ s k. find k s.values;
  fields_of = λ s k. fields_in (find k s.hashes);
  set_free = λ k v s e. rw e refl;
  set_keeps = λ k v s e. rw e (find-assign_self k v s.values);
  set_taken = λ k v x s e. rw e refl;
  set_fields = λ k v h s. ap (λ m. fields_in (find h m)) (set_in-hashes (find k s.values) k v s);
  got = λ k s. refl;
  got_fields = λ k h s. refl;
  got_all = λ k s. refl;
  all_fields = λ k h s. refl;
  added = λ k m s. refl;
  added_values = λ k m h s. refl;
  added_fields = λ k m h s. refl;
}

abbrev pub member : Bytes → NodeMeta
member id = record no_node {
  node_id = id;
  instance_id = id ++ codes "#1";
  inter_ip = codes "ip";
  inter_port = 7;
}

abbrev pub clock : Store → ℕ × Store
clock s = (5, s)

abbrev pub wall_ms : Store → ℤ
wall_ms s = pos 9

abbrev pub world : Store
world = record {
  values = [];
  hashes =
      (node_key (codes "n1"), node_fields (member (codes "n1")) (pos 3))
      ∷ (node_key (codes "n2"), node_fields (member (codes "n2")) (pos 4))
      ∷ [];
  sets = [];
}

abbrev pub plane : ControlPlane
plane = redis_plane server clock wall_ms

abbrev pub first : Sys plane
first = record { registry = record new_registry { self_node = member (codes "n1") }; world = world }

abbrev pub second : Sys plane
second = record {
  registry = record new_registry { self_node = member (codes "n2") };
  world = (bind_user plane (pos 4) first).1.world;
}

pub first-IsRegistered :
    IsRegistered server server-IsStore clock wall_ms (member (codes "n1")) world
unfolding server-IsStore valid find bytes_eq
first-IsRegistered = record {
  is_valid = refl;
  client_port_fits = omega arith;
  inter_port_fits = omega arith;
  has_instance = refl;
  no_bar = (λ e. omega arith, (λ e. omega arith, (λ e. omega arith, (λ e. omega arith, tt))));
  heartbeat_at = 3;
  registered = refl;
}
