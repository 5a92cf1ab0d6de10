-- ===== src/Redis/Store.antt =====
-- What several nodes see of the one Redis server that they share (src/server/redis/redis.cpp).
use cluster_chat_server_with.Prelude.{
  ℕ, ◌^◌, ◌<◌, ◌≡◌, ◌≢◌, refl, ap, ◌∙◌, true, false, List, [], ◌∷◌, map, Option, none, some, Bytes,
  All, is_empty, ℤ, pos, bytes_eq,
}
use cluster_chat_server_with.Text.{codes, to_string}
use cluster_chat_server_with.Types.{NodeMeta, valid}
use cluster_chat_server_with.Redis.{
  Reply, status, string, array, other, RedisServer, node_key, node_users_key, session_key,
  node_fields, session_value, run_commands, get_node, bind_user_node, get_user_session,
}
use cluster_chat_server_with.Redis.Encoding.{read_session-session_value, read_fields-node_fields}

abbrev pub set_words : Bytes → Bytes → List Bytes
set_words key v = codes "SET" ∷ key ∷ v ∷ codes "NX" ∷ []

abbrev pub get_words : Bytes → List Bytes
get_words key = codes "GET" ∷ key ∷ []

abbrev pub hash_words : Bytes → List Bytes
hash_words key = codes "HGETALL" ∷ key ∷ []

abbrev pub add_words : Bytes → Bytes → List Bytes
add_words key member = codes "SADD" ∷ key ∷ member ∷ []

abbrev pub reply_of : Option Bytes → Reply
reply_of none = other
reply_of (some v) = string (some v)

-- The documented replies of four commands, in terms of the value of a key and of the fields of a
-- hash in turn; each command is answered.
pub record IsStore (r : RedisServer) : Type 0 where
  pub value_of : r.State → Bytes → Option Bytes
  pub fields_of : r.State → Bytes → List Bytes
  pub set_free :
      (k v : Bytes) (w : r.State)
      → value_of w k ≡ none
      → (r.command (set_words k v) w).0 ≡ some (status (some (codes "OK")))
  pub set_keeps :
      (k v : Bytes) (w : r.State)
      → value_of w k ≡ none
      → value_of (r.command (set_words k v) w).1 k ≡ some v
  pub set_taken :
      (k v x : Bytes) (w : r.State)
      → value_of w k ≡ some x
      → (r.command (set_words k v) w).0 ≡ some other
  pub set_fields :
      (k v h : Bytes) (w : r.State) → fields_of (r.command (set_words k v) w).1 h ≡ fields_of w h
  pub got :
      (k : Bytes) (w : r.State) → (r.command (get_words k) w).0 ≡ some (reply_of (value_of w k))
  pub got_fields :
      (k h : Bytes) (w : r.State) → fields_of (r.command (get_words k) w).1 h ≡ fields_of w h
  pub got_all :
      (k : Bytes) (w : r.State)
      → (r.command (hash_words k) w).0 ≡ some (array (map some (fields_of w k)))
  pub all_fields :
      (k h : Bytes) (w : r.State) → fields_of (r.command (hash_words k) w).1 h ≡ fields_of w h
  pub added : (k m : Bytes) (w : r.State) → (r.command (add_words k m) w).0 ≡ some other
  pub added_values :
      (k m h : Bytes) (w : r.State) → value_of (r.command (add_words k m) w).1 h ≡ value_of w h
  pub added_fields :
      (k m h : Bytes) (w : r.State) → fields_of (r.command (add_words k m) w).1 h ≡ fields_of w h

module _ (r : RedisServer) (d : IsStore r) where
  run_one :
      (c : List Bytes) (w : r.State) (x : Reply)
      → (r.command c w).0 ≡ some x
      → run_commands r (c ∷ []) w ≡ (true, (r.command c w).1)
  unfolding run_commands
  run_one c w x e = rw (e, run_commands) refl

  pub user_added :
      (u : ℤ) (n : Bytes) (w : r.State)
      → run_commands r (add_words (node_users_key n) (to_string u) ∷ []) w
        ≡ (true, (r.command (add_words (node_users_key n) (to_string u)) w).1)
  user_added u n w =
      run_one (add_words (node_users_key n) (to_string u)) w other
        (d.added (node_users_key n) (to_string u) w)

  pub bind-free :
      (u : ℤ) (n i : Bytes) (w : r.State)
      → d.value_of w (session_key u) ≡ none
      → (bind_user_node r u n i w).0 ≡ true
  unfolding bind_user_node bytes_eq
  bind-free u n i w e = rw (d.set_free (session_key u) (session_value n i) w e) (
      ap (λ p. p.0)
        (user_added u n (r.command (set_words (session_key u) (session_value n i)) w).1))

  -- The state behind a bind that finds no session.
  abbrev pub after_set : ℤ → Bytes → Bytes → r.State → r.State
  after_set u n i w = (r.command (set_words (session_key u) (session_value n i)) w).1

  pub bind-state :
      (u : ℤ) (n i : Bytes) (w : r.State)
      → d.value_of w (session_key u) ≡ none
      → (bind_user_node r u n i w).1
        ≡ (r.command (add_words (node_users_key n) (to_string u)) (after_set u n i w)).1
  unfolding bind_user_node bytes_eq
  bind-state u n i w e =
      rw (d.set_free (session_key u) (session_value n i) w e)
        (ap (λ p. p.1) (user_added u n (after_set u n i w)))

  pub bind-value :
      (u : ℤ) (n i : Bytes) (w : r.State)
      → d.value_of w (session_key u) ≡ none
      → d.value_of (bind_user_node r u n i w).1 (session_key u) ≡ some (session_value n i)
  bind-value u n i w e =
      ap (λ t. d.value_of t (session_key u)) (bind-state u n i w e)
      ∙ d.added_values (node_users_key n) (to_string u) (session_key u) (after_set u n i w)
      ∙ d.set_keeps (session_key u) (session_value n i) w e

  pub bind-fields :
      (u : ℤ) (n i h : Bytes) (w : r.State)
      → d.value_of w (session_key u) ≡ none
      → d.fields_of (bind_user_node r u n i w).1 h ≡ d.fields_of w h
  bind-fields u n i h w e =
      ap (λ t. d.fields_of t h) (bind-state u n i w e)
      ∙ d.added_fields (node_users_key n) (to_string u) h (after_set u n i w)
      ∙ d.set_fields (session_key u) (session_value n i) h w

  pub bind-taken :
      (u : ℤ) (n i x : Bytes) (w : r.State)
      → d.value_of w (session_key u) ≡ some x
      → (bind_user_node r u n i w).0 ≡ false
  unfolding bind_user_node
  bind-taken u n i x w e = rw (d.set_taken (session_key u) (session_value n i) x w e) refl

  pub session-bound :
      (u : ℤ) (n i : Bytes) (w : r.State)
      → is_empty n ≡ false
      → All (λ c. c ≢ b'|') i
      → d.value_of w (session_key u) ≡ some (session_value n i)
      → (get_user_session r u w).0 ≡ some (n, i)
  unfolding get_user_session
  session-bound u n i w named h e =
      rw (d.got (session_key u) w, e, read_session-session_value n i h, named) refl

  pub session-fields :
      (u : ℤ) (h : Bytes) (w : r.State) → d.fields_of (get_user_session r u w).1 h ≡ d.fields_of w h
  unfolding get_user_session
  session-fields u h w = d.got_fields (session_key u) h w

  -- A node whose hash holds the fields that it registered with.
  pub node-registered :
      (m : NodeMeta) (ms : ℕ) (w : r.State)
      → m.client_port < 2 ^ 16
      → m.inter_port < 2 ^ 16
      → valid m ≡ true
      → d.fields_of w (node_key m.node_id) ≡ node_fields m (pos ms)
      → (get_node r m.node_id w).0 ≡ some (record m { heartbeat_ms = pos ms })
  unfolding get_node node_fields valid
  node-registered m ms w a b v e =
      rw (d.got_all (node_key m.node_id) w, e, read_fields-node_fields m ms a b, v) refl

  pub node-fields : (n h : Bytes) (w : r.State) → d.fields_of (get_node r n w).1 h ≡ d.fields_of w h
  unfolding get_node
  node-fields n h w = d.all_fields (node_key n) h w
