-- ===== src/Config/File.antt =====
-- src/vps/vfm/config.c: the lines of the configuration file, and the check of what they set. A line
-- is its characters without the zero byte; `none` is `abort`.
use Prim.Native.String.{String}
use Prim.Native.Char.{code}
use vfm.Base.{
  ℕ, ◌-◌, Bool, true, false, not, ◌&&◌, ◌||◌, Option, none, some, List, [], ◌∷◌, ◌++◌, length,
  replicate, ◌==◌, ltb, if◌then◌else◌,
}
use vfm.Outcome.{Outcome, ok, fault, ◌>>=◌}
use vfm.Fip.Memory.{write_into}
use vfm.Config.{parse_address}

-- The globals that the file sets. An `int` is its 32 bits.
pub record Settings : Type 0 where
  pub g_loglevel : ℕ
  pub g_vfm_local : ℕ
  pub g_vfm_remote : ℕ
  pub g_vfm_protocol : ℕ
  pub g_bridge_enc_mac : List ℕ
  pub g_bridge_mac : List ℕ
  pub g_if_name : List ℕ
  pub g_wwpn : List ℕ
  pub g_wwnn : List ℕ
  pub g_fcoe_t11 : ℕ
  pub g_db_path : List ℕ
  pub g_log_path : List ℕ

-- an `int` above 1, and one below 0
abbrev pub above_one : ℕ → Bool
above_one v = ltb 1 v && ltb v 0x80000000

abbrev pub below_zero : ℕ → Bool
below_zero v = ltb 0x7FFFFFFF v

-- `strcmp(s, key) == 0`
unfoldable pub is_key : List ℕ → String → Bool
is_key [] String.[] = true
is_key [] (String.◌∷◌ c key) = false
is_key (b ∷ s) String.[] = false
is_key (b ∷ s) (String.◌∷◌ c key) = (b == code c) && is_key s key

-- The loop of `str_trim`: blanks, tabs and newlines go, wherever they stand.
unfoldable pub trimmed : List ℕ → List ℕ
trimmed [] = []
trimmed (c ∷ s) =
    let rest = trimmed s in if (c == 32) || ((c == 9) || (c == 10)) then rest else c ∷ rest

-- What it keeps passes through an array of 30 characters.
unfoldable pub str_trim : List ℕ → Outcome (List ℕ)
unfolding trimmed
str_trim s = let kept = trimmed s in if ltb 30 (length kept) then fault else ok kept

-- An address is read from the array of 50 characters that the value lies in.
unfoldable pub address_of :
    (value : List ℕ) → (address_length : ℕ) → (List ℕ → Settings) → Outcome (Option Settings)
unfolding parse_address
address_of value n set = parse_address (value ++ replicate (50 - length value) 0) n >>= λ r.
    elim r [ none ↦ ok none | some bytes ↦ ok (some (set bytes)) ]

-- The protocol stays as it is for a value that is not known.
unfoldable pub protocol_of : List ℕ → (before : ℕ) → ℕ
unfolding is_key
protocol_of value before =
    if is_key value "EN"
    then 1
    else if is_key value "IB"
    then 2
    else if is_key value "FC"
    then 3
    else before

-- `strpbrk`
unfoldable pub has_char : ℕ → List ℕ → Bool
has_char x [] = false
has_char x (c ∷ s) = (c == x) || has_char x s

-- `strchr`: what stands before and behind the first such character
unfoldable pub split_at_char : ℕ → List ℕ → Option (List ℕ × List ℕ)
split_at_char x [] = none
split_at_char x (c ∷ s) =
    let rest = split_at_char x s in
    if c == x
    then some ([], s)
    else elim rest [ none ↦ none | some (front, back) ↦ some (c ∷ front, back) ]

module _ (atoi : List ℕ → ℕ) where
  -- The tests on a name, in turn.
  unfoldable pub assign : (type value : List ℕ) → Settings → Outcome (Option Settings)
  unfolding is_key address_of protocol_of write_into
  assign type value s =
      if is_key type "log_level"
      then ok (some (record s { g_loglevel = atoi value }))
      else if is_key type "mgmt_mode_local"
      then ok (some (record s { g_vfm_local = atoi value }))
      else if is_key type "mgmt_mode_remote"
      then ok (some (record s { g_vfm_remote = atoi value }))
      else if is_key type "internal_protocol"
      then ok (some (record s { g_vfm_protocol = protocol_of value s.g_vfm_protocol }))
      else if is_key type "gw_internal_mac"
      then address_of value 6 (λ a. record s { g_bridge_enc_mac = a })
      else if is_key type "gw_mac"
      then address_of value 6 (λ a. record s { g_bridge_mac = a })
      else if is_key type "vfm_eth_intf"
      then (write_into 0 (value ++ 0 ∷ []) s.g_if_name >>= λ a.
          ok (some (record s { g_if_name = a })))
      else if is_key type "wwpn"
      then address_of value 8 (λ a. record s { g_wwpn = a })
      else if is_key type "wwnn"
      then address_of value 8 (λ a. record s { g_wwnn = a })
      else if is_key type "fcoe_t11"
      then ok (some (record s { g_fcoe_t11 = atoi value }))
      else if is_key type "database"
      then (write_into 0 value s.g_db_path >>= λ a. ok (some (record s { g_db_path = a })))
      else if is_key type "logfile"
      then (write_into 0 value s.g_log_path >>= λ a. ok (some (record s { g_log_path = a })))
      else ok (some s)

  unfoldable pub process_config_line : (type value : List ℕ) → Settings → Outcome (Option Settings)
  unfolding str_trim assign
  process_config_line type value s = str_trim type >>= λ t. str_trim value >>= λ v. assign t v s

  -- The name and the value go to arrays of 50 characters, the value with its zero byte. A name of 50
  -- characters fills its array, and its end is not found.
  unfoldable pub config_line : (buff : List ℕ) → Settings → Outcome (Option Settings)
  unfolding has_char split_at_char process_config_line
  config_line buff s = if has_char 35 buff then ok (some s) else elim (split_at_char 61 buff) [
    | none ↦ ok (some s)
    | some (type, value) ↦
        if ltb 49 (length type) || ltb 49 (length value)
        then fault
        else process_config_line type value s
  ]

  unfoldable pub config_lines : List (List ℕ) → Settings → Outcome (Option Settings)
  unfolding config_line
  config_lines [] s = ok (some s)
  config_lines (buff ∷ lines) s =
      config_line buff s >>= λ r. elim r [ none ↦ ok none | some after ↦ config_lines lines after ]

-- Where it aborts. The text that it prints is left out.
unfoldable pub print_and_validate_config : Settings → Option Settings
print_and_validate_config s =
    if not (s.g_vfm_local == 1) && (above_one s.g_vfm_local || below_zero s.g_vfm_local)
    then none
    else if not (s.g_vfm_remote == 1) && (above_one s.g_vfm_remote || below_zero s.g_vfm_local)
    then none
    else if (s.g_vfm_protocol == 1) || ((s.g_vfm_protocol == 2) || (s.g_vfm_protocol == 3))
    then (if (s.g_fcoe_t11 == 0) || (s.g_fcoe_t11 == 1) then some s else none)
    else none

-- What `fgets` returns in turn from the file; `none` where the file cannot be opened.
unfoldable pub read_config :
    (atoi : List ℕ → ℕ) → Option (List (List ℕ)) → Settings → Outcome (Option Settings)
unfolding config_lines print_and_validate_config
read_config atoi none s = ok (some (record s { g_loglevel = 3 }))
read_config atoi (some lines) s = config_lines atoi lines s >>= λ r. elim r [
  | none ↦ ok none
  | some after ↦ ok (print_and_validate_config after)
]
