-- ===== src/Config/Addresses.antt =====
-- What the configuration prints as an address, it reads back as the same address.
use Prim.Native.Nat.{bit_or}
use vfm.Base.{
  ℕ, zero, suc, ◌+◌, ◌-◌, ◌*◌, ◌/◌, ◌%◌, ◌<◌, ◌≡◌, refl, ap, ◌∙◌, inl, inr, Bool, true, false, ◌&&◌,
  ◌||◌, none, some, List, [], ◌∷◌, ◌++◌, arith, length, ◌==◌, ==_iff, IsByte, leb, Bool-cases,
}
use vfm.Outcome.{ok, ◌>>=◌}
use vfm.Config.{
  digit_value, keep, digit_values, pack_digits, parse_address, hex_digit, print_address,
}

-- A test that holds for every number below `n`.
abbrev all_below : ℕ → (ℕ → Bool) → Bool
all_below zero p = true
all_below (suc n) p = p n && all_below n p

and_true : (a b : Bool) → (a && b) ≡ true → (a ≡ true) × (b ≡ true)
and_true true b h = (refl, h)
and_true false b h = cc

holds_below : (n i : ℕ) (p : ℕ → Bool) → all_below n p ≡ true → i < n → p i ≡ true
holds_below zero i p h lt = absurd (omega arith)
holds_below (suc n) i p h lt =
    let both = and_true (p n) (all_below n p) h in
    elim (Bool-cases (i == n)) [
      | inl e ↦ ap p ((==_iff i n).0 e) ∙ both.0
      | inr e ↦ holds_below n i p both.1 (ground arith)
    ]

-- Two digits make a byte.
nibbles : (x y : ℕ) → x < 16 → y < 16 → bit_or (x * 16) y ≡ x * 16 + y
nibbles x y hx hy = (==_iff (bit_or (x * 16) y) (x * 16 + y)).0 (
    holds_below 16 y (λ j. bit_or (x * 16) j == x * 16 + j)
      (holds_below 16 x (λ i. all_below 16 (λ j. bit_or (i * 16) j == i * 16 + j)) refl hx) hy)

digit_value-hex_digit : (d : ℕ) → d < 16 → digit_value (hex_digit d) ≡ some d
unfolding digit_value hex_digit
digit_value-hex_digit d h = ground arith

byte_back : (b : ℕ) → IsByte b → bit_or (b / 16 % 16 * 16) (b % 16) % 256 ≡ b
byte_back b h = rw (nibbles (b / 16 % 16) (b % 16) (omega arith) (omega arith)) (omega arith)

abbrev pub AllBytes : List ℕ → Type 0
AllBytes [] = Unit {0}
AllBytes (b ∷ bs) = IsByte b × AllBytes bs

-- the buffer after the first loop
abbrev digit_list : List ℕ → List ℕ
digit_list [] = []
digit_list (b ∷ []) = b / 16 % 16 ∷ b % 16 ∷ []
digit_list (b ∷ c ∷ bs) = b / 16 % 16 ∷ b % 16 ∷ 58 ∷ digit_list (c ∷ bs)

-- One character of the first loop.
digit_step :
    (n c v : ℕ) (buff : List ℕ)
    → digit_value c ≡ some v
    → digit_values (suc n) (c ∷ buff) ≡ (digit_values n buff >>= λ r. ok (keep v r))
unfolding digit_values
digit_step n c v buff e = rw (e, digit_values)

digit_stop :
    (n c : ℕ) (buff : List ℕ) → digit_value c ≡ none → digit_values (suc n) (c ∷ buff) ≡ ok none
unfolding digit_values
digit_stop n c buff e = rw (e, digit_values)

-- The characters of a byte.
byte_step :
    (n b : ℕ) (buff r : List ℕ)
    → digit_values n buff ≡ ok (some r)
    → digit_values (suc (suc n)) (hex_digit (b / 16 % 16) ∷ hex_digit (b % 16) ∷ buff)
      ≡ ok (some (b / 16 % 16 ∷ b % 16 ∷ r))
unfolding keep
byte_step n b buff r e =
    let high = digit_value-hex_digit (b / 16 % 16) (omega arith) in
    let low = digit_value-hex_digit (b % 16) (omega arith) in
    digit_step (suc n) (hex_digit (b / 16 % 16)) (b / 16 % 16) (hex_digit (b % 16) ∷ buff) high
    ∙ rw (digit_step n (hex_digit (b % 16)) (b % 16) buff low, e)

digits_read :
    (addr rest : List ℕ)
    → digit_values (length addr * 3 - 1) (print_address addr ++ rest)
      ≡ ok (some (digit_list addr ++ rest))
unfolding digit_values print_address keep
digits_read [] rest = refl
digits_read (b ∷ []) rest =
    let two : length (b ∷ []) * 3 - 1 ≡ 2 = omega arith in rw two (byte_step 0 b rest rest refl)
digits_read (b ∷ c ∷ bs) rest =
    let m = length (c ∷ bs) * 3 - 1 in
    let more : List ℕ = print_address (c ∷ bs) ++ rest in
    let next : length (b ∷ c ∷ bs) * 3 - 1 ≡ suc (suc (suc m)) = omega arith in
    let colon : digit_value 58 ≡ some 58 = unfold digit_value in refl in
    rw next (
      byte_step (suc m) b (58 ∷ more) (58 ∷ digit_list (c ∷ bs) ++ rest)
        (digit_step m 58 58 more colon ∙ rw (digits_read (c ∷ bs) rest)))

bytes_packed :
    (addr rest : List ℕ)
    → AllBytes addr
    → pack_digits (length addr) (digit_list addr ++ rest) ≡ ok addr
unfolding pack_digits
bytes_packed [] rest all = refl
bytes_packed (b ∷ []) [] all = rw (byte_back b all.0)
bytes_packed (b ∷ []) (r ∷ rest) all = rw (byte_back b all.0)
bytes_packed (b ∷ c ∷ bs) rest all = rw (byte_back b all.0, bytes_packed (c ∷ bs) rest all.1)

-- `parse_address` reads back the address that `print_address` printed, whatever follows it in the
-- buffer, and never aborts on one.
pub parse_address-print_address :
    (addr rest : List ℕ)
    → AllBytes addr
    → parse_address (print_address addr ++ rest) (length addr) ≡ ok (some addr)
unfolding parse_address
parse_address-print_address addr rest all = rw (digits_read addr rest, bytes_packed addr rest all)

-- the characters that an address is made of: a colon and the digits
abbrev pub is_address_char : ℕ → Bool
is_address_char c =
    c == 58 || ((leb 65 c && leb c 70) || ((leb 97 c && leb c 102) || (leb 48 c && leb c 57)))

digit_value-none : (c : ℕ) → is_address_char c ≡ false → digit_value c ≡ none
unfolding digit_value
digit_value-none c h = ground arith

digit_value-some : (c : ℕ) → is_address_char c ≡ true → (v : ℕ) × (digit_value c ≡ some v)
unfolding digit_value
digit_value-some c h = elim (Bool-cases (c == 58)) [
  | inl e ↦ (c, rw e)
  | inr n ↦ elim (Bool-cases (leb 65 c && leb c 70)) [
    | inl e ↦ (c - 55, rw (n, e))
    | inr n' ↦ elim (Bool-cases (leb 97 c && leb c 102)) [
      | inl e ↦ (c - 87, rw (n, n', e))
      | inr n'' ↦ (c - 48, ground arith)
    ]
  ]
]

abbrev pub AllChars : List ℕ → Type 0
AllChars [] = Unit {0}
AllChars (c ∷ cs) = (is_address_char c ≡ true) × AllChars cs

digits_refused :
    (n : ℕ) (front : List ℕ) (c : ℕ) (rest : List ℕ)
    → AllChars front
    → is_address_char c ≡ false
    → length front < n
    → digit_values n (front ++ c ∷ rest) ≡ ok none
unfolding digit_values
digits_refused zero front c rest all bad lt = absurd (omega arith)
digits_refused (suc n) [] c rest all bad lt = digit_stop n c rest (digit_value-none c bad)
digits_refused (suc n) (x ∷ front) c rest all bad lt =
    let (v, e) = digit_value-some x all.0 in
    digit_step n x v (front ++ c ∷ rest) e
    ∙ rw (digits_refused n front c rest all.1 bad (omega arith))

-- A character that is neither a colon nor a digit, among those that an address of the given length
-- takes, makes `parse_address` abort.
pub parse_address_aborts :
    (n : ℕ) (front : List ℕ) (c : ℕ) (rest : List ℕ)
    → AllChars front
    → is_address_char c ≡ false
    → length front < n * 3 - 1
    → parse_address (front ++ c ∷ rest) n ≡ ok none
unfolding parse_address
parse_address_aborts n front c rest all bad lt =
    rw (digits_refused (n * 3 - 1) front c rest all bad lt)
