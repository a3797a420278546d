-- ===== src/Config/Lines.antt =====
-- What a line of the configuration file sets, and which settings are accepted.
use vfm.Base.{
  ℕ, ◌*◌, ◌-◌, ◌≡◌, ◌≤◌, ◌<◌, ◌⊎◌, ◌↔◌, refl, sym, ap, ◌∙◌, Bool, true, false, ◌||◌, some, List, [],
  ◌∷◌, ◌++◌, length, replicate, ◌==◌, ltb, if◌then◌else◌, arith, le→ltb,
}
use vfm.Outcome.{ok, fault}
use vfm.Config.{print_address}
use vfm.Config.Addresses.{AllBytes, parse_address-print_address}
use vfm.Config.File.{
  Settings, trimmed, str_trim, has_char, split_at_char, config_line, assign, address_of, is_key,
  print_and_validate_config, process_config_line,
}

-- The settings that are meant to be accepted, and those with a negative `mgmt_mode_remote`.
abbrev pub IsAccepted : Settings → Type 0
IsAccepted s =
    (s.g_vfm_local ≤ 1)
    × ((s.g_vfm_remote ≤ 1) ⊎ (0x80000000 ≤ s.g_vfm_remote))
    × ((1 ≤ s.g_vfm_protocol) × (s.g_vfm_protocol ≤ 3))
    × (s.g_fcoe_t11 ≤ 1)

-- `print_and_validate_config` goes on, with the settings as they are, exactly if the local mode is 0
-- or 1, the remote mode is 0, 1 or negative, the protocol is known and the FCoE type is 0 or 1.
pub validated_iff : (s : Settings) → (print_and_validate_config s ≡ some s) ↔ IsAccepted s
unfolding print_and_validate_config
validated_iff s = ground arith

-- the names of the bridge's addresses
pub data AddressName : Type 0 where
  gw_internal_mac : AddressName
  gw_mac : AddressName
  wwpn : AddressName
  wwnn : AddressName

abbrev pub key : AddressName → List ℕ
key gw_internal_mac =
    b'g' ∷ b'w' ∷ b'_' ∷ b'i' ∷ b'n' ∷ b't' ∷ b'e' ∷ b'r' ∷ b'n' ∷ b'a' ∷ b'l' ∷ b'_' ∷ b'm' ∷ b'a'
    ∷ b'c' ∷ []
key gw_mac = b'g' ∷ b'w' ∷ b'_' ∷ b'm' ∷ b'a' ∷ b'c' ∷ []
key wwpn = b'w' ∷ b'w' ∷ b'p' ∷ b'n' ∷ []
key wwnn = b'w' ∷ b'w' ∷ b'n' ∷ b'n' ∷ []

abbrev pub size : AddressName → ℕ
size gw_internal_mac = 6
size gw_mac = 6
size wwpn = 8
size wwnn = 8

abbrev pub stored : AddressName → List ℕ → Settings → Settings
stored gw_internal_mac a s = record s { g_bridge_enc_mac = a }
stored gw_mac a s = record s { g_bridge_mac = a }
stored wwpn a s = record s { g_wwpn = a }
stored wwnn a s = record s { g_wwnn = a }

or_false : (a b : Bool) → (a || b) ≡ false → (a ≡ false) × (b ≡ false)
or_false false b h = (refl, h)
or_false true b h = cc

split_first :
    (x : ℕ) (front back : List ℕ)
    → has_char x front ≡ false
    → split_at_char x (front ++ x ∷ back) ≡ some (front, back)
unfolding split_at_char has_char
split_first x [] back h = ground arith
split_first x (c ∷ front) back h =
    let (here, more) = or_false (c == x) (has_char x front) h in
    rw (here, split_first x front back more)

kept : (s : List ℕ) → length (trimmed s) ≤ 30 → str_trim s ≡ ok (trimmed s)
unfolding str_trim
kept s h = rw (le→ltb 30 (length (trimmed s)) h)

length-print_address : (a : List ℕ) → length (print_address a) ≤ length a * 3
unfolding print_address
length-print_address [] = omega arith
length-print_address (b ∷ []) = omega arith
length-print_address (b ∷ c ∷ bs) = omega (arith, length-print_address (c ∷ bs))

printed_read :
    (a : List ℕ) (set : List ℕ → Settings)
    → AllBytes a
    → address_of (print_address a) (length a) set ≡ ok (some (set a))
unfolding address_of
printed_read a set all =
    rw (parse_address-print_address a (replicate (50 - length (print_address a)) 0) all)

size_below : (k : AddressName) → (size k ≤ 8) × (length (key k) ≤ 30)
size_below gw_internal_mac = (omega arith, omega arith)
size_below gw_mac = (omega arith, omega arith)
size_below wwpn = (omega arith, omega arith)
size_below wwnn = (omega arith, omega arith)

module _ (atoi : List ℕ → ℕ) where
  line_split :
      (name value : List ℕ) (s : Settings)
      → has_char 35 (name ++ 61 ∷ value) ≡ false
      → has_char 61 name ≡ false
      → config_line atoi (name ++ 61 ∷ value) s ≡ (
          if ltb 49 (length name) || ltb 49 (length value)
          then fault
          else process_config_line atoi name value s)
  unfolding config_line
  line_split name value s no_comment no_sign = rw (no_comment, split_first 61 name value no_sign)

  -- In a line that is no comment, a name or a value that is too long is not noticed: neither 50
  -- characters with the blanks, nor 31 without them fit where they are written to.
  pub long_line_overruns :
      (name value : List ℕ) (s : Settings)
      → has_char 35 (name ++ 61 ∷ value) ≡ false
      → has_char 61 name ≡ false
      → (49 < length name)
        ⊎ ((49 < length value) ⊎ ((30 < length (trimmed name)) ⊎ (30 < length (trimmed value))))
      → config_line atoi (name ++ 61 ∷ value) s ≡ fault
  unfolding process_config_line str_trim
  long_line_overruns name value s no_comment no_sign long =
      line_split name value s no_comment no_sign ∙ ground arith

  assign_address :
      (k : AddressName) (value : List ℕ) (s : Settings)
      → assign atoi (key k) value s ≡ address_of value (size k) (λ a. stored k a s)
  unfolding assign is_key
  assign_address gw_internal_mac value s = refl
  assign_address gw_mac value s = refl
  assign_address wwpn value s = refl
  assign_address wwnn value s = refl

  -- A line that names one of the bridge's addresses sets it to the bytes that print as its value,
  -- whatever blanks are around and within the name and the value, as long as each has less than 50
  -- characters with them, and leaves the other settings.
  pub address_line :
      (k : AddressName) (name value a : List ℕ) (s : Settings)
      → has_char 35 (name ++ 61 ∷ value) ≡ false
      → has_char 61 name ≡ false
      → length name < 50
      → length value < 50
      → trimmed name ≡ key k
      → trimmed value ≡ print_address a
      → length a ≡ size k
      → AllBytes a
      → config_line atoi (name ++ 61 ∷ value) s ≡ ok (some (stored k a s))
  unfolding process_config_line
  address_line k name value a s no_comment no_sign short_name short_value e1 e2 e3 all =
      let (few, few_chars) = size_below k in
      let few_digits = length-print_address a in
      line_split name value s no_comment no_sign
      ∙ rw (le→ltb 49 (length name) (omega arith)) (
          rw (le→ltb 49 (length value) (omega arith)) (
            rw (kept name (omega (arith, ap length e1))) (
              rw (kept value (omega (arith, ap length e2, few_digits))) (
                rw (e1, e2)
                  (assign_address k (print_address a) s
                    ∙ rw (sym e3) (printed_read a (λ x. stored k x s) all))))))
