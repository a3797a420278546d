-- ===== src/Ether.antt =====
-- Ethernet addresses: the address tests of src/vps/vfm/net_util.c, and the fixed-size arrays
-- `uint8_t[MAC_ADDR_LEN]` and `uint8_t[NAME_LEN]` of src/vps/vfm/include/vfm_fip.h.
use vfm.Base.{ℕ, Bool, List, [], ◌∷◌, ◌==◌}
use Prim.Native.Nat.{bit_and}

-- `uint8_t mac[MAC_ADDR_LEN]`
pub data Mac : Type 0 where
  mac : (b₀ b₁ b₂ b₃ b₄ b₅ : ℕ) → Mac

-- `uint8_t name[NAME_LEN]`
pub data Name : Type 0 where
  name : (b₀ b₁ b₂ b₃ b₄ b₅ b₆ b₇ : ℕ) → Name

-- the bytes in memory
abbrev pub mac_bytes : Mac → List ℕ
mac_bytes (mac a b c d e f) = a ∷ b ∷ c ∷ d ∷ e ∷ f ∷ []

abbrev pub name_bytes : Name → List ℕ
name_bytes (name a b c d e f g h) = a ∷ b ∷ c ∷ d ∷ e ∷ f ∷ g ∷ h ∷ []

-- `0x01 & addr[0]`, read as a truth value
unfoldable pub is_multicast_ether_addr : Mac → ℕ
is_multicast_ether_addr (mac a b c d e f) = bit_and 0x01 a

unfoldable pub is_broadcast_ether_addr : Mac → Bool
is_broadcast_ether_addr (mac a b c d e f) =
    bit_and (bit_and (bit_and (bit_and (bit_and a b) c) d) e) f == 0xff
