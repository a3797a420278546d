-- ===== src/Base/Words.antt =====
-- Machine words of the C code on its little-endian host: `uint16_t` and `uint32_t` values, their
-- bytes in memory, and the byte swaps `htons`, `ntohs`, `htonl` and `ntohl`.
use Prim.Native.Nat.{ℕ, ◌+◌, ◌-◌, ◌*◌, ◌/◌, ◌%◌, ◌^◌, ◌<◌}
use mathlib.Core.Path.{◌≡◌}
use mathlib.Core.List.{List, [], ◌∷◌}
use native.Mathlib.Omega.{arith}

abbrev pub IsByte : ℕ → Type 0
IsByte b = b < 256

abbrev pub IsWord16 : ℕ → Type 0
IsWord16 v = v < 65536

abbrev pub IsWord32 : ℕ → Type 0
IsWord32 v = v < 4294967296

-- `a - b` on `uint32_t`
abbrev pub sub32 : ℕ → ℕ → ℕ
sub32 a b = (a + 2 ^ 32 - b) % 2 ^ 32

-- The bytes of a value in memory, the lowest first, and the value that bytes in memory make.
abbrev pub le16 : ℕ → List ℕ
le16 v = v % 256 ∷ v / 256 % 256 ∷ []

abbrev pub le32 : ℕ → List ℕ
le32 v = v % 256 ∷ v / 256 % 256 ∷ v / 65536 % 256 ∷ v / 16777216 % 256 ∷ []

abbrev pub of_le16 : ℕ → ℕ → ℕ
of_le16 a b = a + b * 256

abbrev pub of_le32 : ℕ → ℕ → ℕ → ℕ → ℕ
of_le32 a b c d = a + b * 256 + c * 65536 + d * 16777216

-- `htons` and `ntohs`
unfoldable pub swap16 : ℕ → ℕ
swap16 v = v % 256 * 256 + v / 256 % 256

-- `htonl` and `ntohl`
unfoldable pub swap32 : ℕ → ℕ
swap32 v = v % 256 * 16777216 + v / 256 % 256 * 65536 + v / 65536 % 256 * 256 + v / 16777216 % 256

pub swap16-swap16 : (v : ℕ) → IsWord16 v → swap16 (swap16 v) ≡ v
unfolding swap16
swap16-swap16 v h = omega arith

pub swap16-IsWord16 : (v : ℕ) → IsWord16 (swap16 v)
unfolding swap16
swap16-IsWord16 v = omega arith

pub swap32-IsWord32 : (v : ℕ) → IsWord32 (swap32 v)
unfolding swap32
swap32-IsWord32 v = omega arith

pub of_le16-le16 : (v : ℕ) → IsWord16 v → of_le16 (v % 256) (v / 256 % 256) ≡ v
of_le16-le16 v h = omega arith

pub of_le32-le32 :
    (v : ℕ)
    → IsWord32 v
    → of_le32 (v % 256) (v / 256 % 256) (v / 65536 % 256) (v / 16777216 % 256) ≡ v
of_le32-le32 v h = omega arith

-- On the little-endian host a swapped load reads the bytes in network order.
pub swap16-of_le16 : (a b : ℕ) → IsByte a → IsByte b → swap16 (of_le16 a b) ≡ a * 256 + b
unfolding swap16
swap16-of_le16 a b ha hb = omega arith

pub swap32-swap32 : (v : ℕ) → IsWord32 v → swap32 (swap32 v) ≡ v
unfolding swap32
swap32-swap32 v h = omega arith
