-- ===== src/Wire/Frame.antt =====
-- The byte layout of the messages between nodes: `appendUint32` and the frame that `sendOneChat`
-- builds (src/server/clusterrouter.cpp), `readUint32` (src/server/clusterserver.cpp).
use cluster_chat_server_with.Prelude.{
  ℕ, ◌+◌, ◌-◌, ◌*◌, ◌/◌, ◌%◌, ◌^◌, ◌<◌, ◌≡◌, [], ◌∷◌, ◌++◌, arith, Bytes, length, get_or, ltb,
  if◌then◌else◌, ℤ, pos, negsuc,
}

abbrev pub u32_mod : ℕ
u32_mod = 2 ^ 32

abbrev pub magic : Bytes
magic = b'O' ∷ b'N' ∷ b'C' ∷ b'1' ∷ []

abbrev pub magic_bytes : ℕ
magic_bytes = 4

abbrev pub header_bytes : ℕ
header_bytes = 8

abbrev pub body_prefix_bytes : ℕ
body_prefix_bytes = 4

-- `(value >> k) & 0xFF`, most significant byte first.
unfoldable pub append_uint32 : Bytes → ℕ → Bytes
append_uint32 out value =
    out ++ (value / 2 ^ 24 % 256 ∷ value / 2 ^ 16 % 256 ∷ value / 2 ^ 8 % 256 ∷ value % 256 ∷ [])

-- The four shifted bytes do not overlap, so their bitwise or is their sum.
unfoldable pub read_uint32 : Bytes → ℕ
read_uint32 b =
    get_or b 0 0 % 256 * 2 ^ 24
    + get_or b 1 0 % 256 * 2 ^ 16
    + get_or b 2 0 % 256 * 2 ^ 8
    + get_or b 3 0 % 256

-- `static_cast<uint32_t>` of an int.
unfoldable pub to_u32 : ℤ → ℕ
to_u32 (pos n) = n % u32_mod
to_u32 (negsuc n) = u32_mod - 1 - n % u32_mod

-- `static_cast<int>` of a uint32_t.
unfoldable pub to_int : ℕ → ℤ
to_int v = if ltb v (2 ^ 31) then pos v else negsuc (u32_mod - 1 - v)

-- The range of an int.
abbrev pub IsInt : ℤ → Type 0
IsInt (pos n) = n < 2 ^ 31
IsInt (negsuc n) = n < 2 ^ 31

-- The frame that `sendOneChat` writes.
unfoldable pub one_chat_frame : ℤ → Bytes → Bytes
one_chat_frame to_user payload =
    append_uint32 (append_uint32 magic ((body_prefix_bytes + length payload) % u32_mod))
      (to_u32 to_user)
    ++ payload

pub read-append_uint32 :
    (v : ℕ) (rest : Bytes) → v < u32_mod → read_uint32 (append_uint32 [] v ++ rest) ≡ v
unfolding read_uint32 append_uint32
read-append_uint32 v rest h = omega arith

pub to_u32-lt : (z : ℤ) → to_u32 z < u32_mod
unfolding to_u32
to_u32-lt (pos n) = omega arith
to_u32-lt (negsuc n) = omega arith

pub to_int-to_u32 : (z : ℤ) → IsInt z → to_int (to_u32 z) ≡ z
unfolding to_int to_u32
to_int-to_u32 (pos n) h = ground arith
to_int-to_u32 (negsuc n) h = ground arith
