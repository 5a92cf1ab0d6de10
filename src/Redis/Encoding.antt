-- ===== src/Redis/Encoding.antt =====
-- What a node writes into the control plane, another node reads back.
use cluster_chat_server_with.Prelude.{
  ℕ, suc, ◌+◌, ◌-◌, ◌*◌, ◌%◌, ◌^◌, ◌<◌, ◌≡◌, ◌≢◌, refl, ap, ◌∙◌, [], ◌∷◌, ◌++◌, map, some, arith,
  Bytes, length, drop, All, ℤ, pos, negsuc, bytes_eq, take-length_append,
}
use cluster_chat_server_with.Text.{
  value, decimal, to_string, IsDigits, decimal-IsDigits, value-decimal, rfind-last,
}
use cluster_chat_server_with.Types.{NodeMeta, no_node}
use cluster_chat_server_with.Config.{atoi, digits_value}
use cluster_chat_server_with.Redis.{session_value, read_session, node_fields, read_fields}

pub drop_mark : (b : ℕ) (s t : Bytes) → drop (length s + 1) (s ++ b ∷ t) ≡ t
drop_mark b [] t = refl
drop_mark b (c ∷ cs) t =
    let next : suc (length cs) + 1 ≡ suc (length cs + 1) = omega arith in rw next (drop_mark b cs t)

-- The session value that `bindUserNode` writes gives back its node and its instance, if the
-- instance holds no bar; the node may hold some.
pub read_session-session_value :
    (node_id instance_id : Bytes)
    → All (λ c. c ≢ b'|') instance_id
    → read_session (session_value node_id instance_id) ≡ (node_id, instance_id)
unfolding read_session session_value
read_session-session_value n i h =
    rw (rfind-last b'|' n i h, read_session, take-length_append n (b'|' ∷ i), drop_mark b'|' n i)
      refl

pub digits_value-value : (acc : ℕ) (s : Bytes) → IsDigits s → digits_value acc s ≡ value acc s
unfolding digits_value value
digits_value-value acc [] h = refl
digits_value-value acc (c ∷ cs) h =
    ground (arith, h.0, digits_value-value (acc * 10 + (c - 48)) cs h.1)

atoi-digits : (s : Bytes) → IsDigits s → atoi s ≡ pos (digits_value 0 s)
unfolding atoi
atoi-digits [] h = refl
atoi-digits (c ∷ cs) h = ground (arith, h.0)

pub atoi-decimal : (n : ℕ) → atoi (decimal n) ≡ pos n
atoi-decimal n =
    atoi-digits (decimal n) (decimal-IsDigits n)
    ∙ ap pos (digits_value-value 0 (decimal n) (decimal-IsDigits n) ∙ value-decimal n)

atoi-minus : (s : Bytes) (n : ℕ) → digits_value 0 s ≡ suc n → atoi (b'-' ∷ s) ≡ negsuc n
unfolding atoi
atoi-minus s n e = rw e refl

-- `atoi` reads what `to_string` prints.
pub atoi-to_string : (u : ℤ) → atoi (to_string u) ≡ u
unfolding to_string
atoi-to_string (pos n) = atoi-decimal n
atoi-to_string (negsuc n) =
    atoi-minus (decimal (suc n)) n
      (digits_value-value 0 (decimal (suc n)) (decimal-IsDigits (suc n)) ∙ value-decimal (suc n))

-- The fields that `registerNode` writes give back every member of the node, in `getNode`, if the
-- ports fit 16 bits and the heartbeat is not negative.
pub read_fields-node_fields :
    (m : NodeMeta) (ms : ℕ)
    → m.client_port < 2 ^ 16
    → m.inter_port < 2 ^ 16
    → read_fields no_node (map some (node_fields m (pos ms))) ≡ record m { heartbeat_ms = pos ms }
unfolding read_fields node_fields bytes_eq to_string
read_fields-node_fields m ms h k =
    let client : m.client_port % 2 ^ 16 ≡ m.client_port = omega arith in
    let inter : m.inter_port % 2 ^ 16 ≡ m.inter_port = omega arith in
    rw (atoi-decimal m.client_port, atoi-decimal m.inter_port, atoi-decimal ms) (rw (client, inter))
