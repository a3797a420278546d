-- ===== src/Config.antt =====
-- src/vps/vfm/config.c: the addresses of the configuration file, read and printed. A character is
-- its code; `none` is `abort`.
pub mod Addresses
pub mod File
pub mod Lines
use Prim.Native.Nat.{bit_or}
use vfm.Base.{
  ℕ, zero, suc, ◌+◌, ◌-◌, ◌*◌, ◌/◌, ◌%◌, ◌&&◌, Bool, Option, none, some, List, [], ◌∷◌, ◌++◌, ◌==◌,
  leb, ltb, if◌then◌else◌,
}
use vfm.Outcome.{Outcome, ok, fault, ◌>>=◌}

abbrev between : (lo hi c : ℕ) → Bool
between lo hi c = leb lo c && leb c hi

-- One step of the first loop of `parse_address`: a colon stays, a digit becomes its value.
unfoldable pub digit_value : ℕ → Option ℕ
digit_value c =
    if c == 58
    then some c
    else if between 65 70 c
    then some (c - 55)
    else if between 97 102 c
    then some (c - 87)
    else if between 48 57 c
    then some (c - 48)
    else none

unfoldable pub keep : ℕ → Option (List ℕ) → Option (List ℕ)
keep v none = none
keep v (some r) = some (v ∷ r)

-- The first loop: the first `n` characters of the buffer are converted where they are.
unfoldable pub digit_values : ℕ → List ℕ → Outcome (Option (List ℕ))
unfolding digit_value keep
digit_values zero buff = ok (some buff)
digit_values (suc n) [] = fault
digit_values (suc n) (c ∷ buff) = elim (digit_value c) [
  | none ↦ ok none
  | some v ↦ digit_values n buff >>= λ r. ok (keep v r)
]

-- The second loop: a byte of two digits, then a step over the third character.
unfoldable pub pack_digits : ℕ → List ℕ → Outcome (List ℕ)
pack_digits zero buff = ok []
pack_digits (suc n) (a ∷ b ∷ _ ∷ buff) =
    pack_digits n buff >>= λ r. ok (bit_or (a * 16) b % 256 ∷ r)
pack_digits (suc zero) (a ∷ b ∷ []) = ok (bit_or (a * 16) b % 256 ∷ [])
pack_digits (suc (suc n)) (a ∷ b ∷ []) = fault
pack_digits (suc n) (a ∷ []) = fault
pack_digits (suc n) [] = fault

unfoldable pub packed : ℕ → Option (List ℕ) → Outcome (Option (List ℕ))
unfolding pack_digits
packed n none = ok none
packed n (some buff) = pack_digits n buff >>= λ r. ok (some r)

unfoldable pub parse_address : List ℕ → (address_length : ℕ) → Outcome (Option (List ℕ))
unfolding digit_values packed
parse_address buff n = digit_values (n * 3 - 1) buff >>= packed n

-- an upper-case digit of `printf("%0.2X")`
unfoldable pub hex_digit : ℕ → ℕ
hex_digit d = if ltb d 10 then 48 + d else 55 + d

-- What `print_address` prints behind the name.
unfoldable pub print_address : List ℕ → List ℕ
unfolding hex_digit
print_address [] = []
print_address (b ∷ []) = hex_digit (b / 16 % 16) ∷ hex_digit (b % 16) ∷ []
print_address (b ∷ c ∷ bs) =
    hex_digit (b / 16 % 16) ∷ hex_digit (b % 16) ∷ 58 ∷ print_address (c ∷ bs)
