-- ===== src/Tests/Addresses.antt =====
-- The theorems on the configuration file at concrete inputs.
use vfm.Base.{ℕ, ◌≡◌, ◌↔◌, refl, ◌%◌, some, List, [], ◌∷◌, ◌++◌, arith, replicate}
use vfm.Outcome.{ok}
use vfm.Config.{print_address}
use vfm.Config.File.{Settings, print_and_validate_config, config_line, has_char, trimmed}
use vfm.Config.Lines.{IsAccepted, validated_iff, address_line, gw_mac, key, stored}

abbrev addr : List ℕ
addr = 0 ∷ 2 ∷ 201 ∷ 171 ∷ 16 ∷ 255 ∷ []

abbrev pub settings : Settings
settings = record {
  g_loglevel = 0;
  g_vfm_local = 0;
  g_vfm_remote = 1;
  g_vfm_protocol = 1;
  g_bridge_enc_mac = replicate 6 0;
  g_bridge_mac = replicate 6 0;
  g_if_name = replicate 10 0;
  g_wwpn = replicate 8 0;
  g_wwnn = replicate 8 0;
  g_fcoe_t11 = 1;
  g_db_path = replicate 100 0;
  g_log_path = replicate 100 0;
}

abbrev pub atoi : List ℕ → ℕ
atoi [] = 0
atoi (c ∷ _) = c % 16

-- a name and a value with blanks and a newline
abbrev spaced_name : List ℕ
spaced_name = 32 ∷ (key gw_mac ++ 9 ∷ [])

abbrev spaced_value : List ℕ
spaced_value = 32 ∷ (print_address addr ++ 32 ∷ 10 ∷ [])

address_line_example :
    config_line atoi (spaced_name ++ 61 ∷ spaced_value) settings
    ≡ ok (some (stored gw_mac addr settings))
unfolding has_char trimmed print_address
address_line_example =
    address_line atoi gw_mac spaced_name spaced_value addr settings refl refl (omega arith)
      (omega arith) refl refl refl
      (omega arith, (omega arith, (omega arith, (omega arith, (omega arith, (omega arith, tt))))))

validated_iff_example : (print_and_validate_config settings ≡ some settings) ↔ IsAccepted settings
validated_iff_example = validated_iff settings

-- a database path of 40 characters
