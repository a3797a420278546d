-- ===== src/Db/Bridges.antt =====
-- src/vps/vfm/db/vfmdb_bridge_device.c: the bridge devices that a bitmask and attributes select, each
-- with its gateway modules.
use vfm.Base.{
  ℕ, Bool, true, false, ◌&&◌, none, some, List, [], ◌∷◌, ◌++◌, replicate, ◌==◌, if◌then◌else◌,
}
use Prim.Native.String.{String}
use vfm.Outcome.{Outcome, ok, ◌>>=◌, code, db_error}
use vfm.Db.{Libc, Sqlite, text, chars, vfmdb_prepare_query, vfmdb_execute_query}
use vfm.Db.Column.{same_column}
use vfm.Db.Rows.{Columns, memcpy, fill}
use vfm.Db.Where.{Bit, q_uint8, q_named_param, add_query_parameters, add_bits}

-- the fields of `vfm_bd_attr_t` that a row fills
pub record Bridge : Type 0 where
  pub guid : List ℕ
  pub vfm_guid : List ℕ
  pub desc : List ℕ
  pub firmware_version : List ℕ

-- `_num_gw_module` is the length of the indices, cut to a byte where the structure is written.
pub record Device : Type 0 where
  pub bridge : Bridge
  pub gw_modules : List (List ℕ)

-- after `memset`
abbrev pub no_bridge : Bridge
no_bridge = record {
  guid = replicate 8 0;
  vfm_guid = replicate 8 0;
  desc = replicate 64 0;
  firmware_version = replicate 64 0;
}

-- Every column is copied in its array's size, whatever the length of the text.
unfoldable pub bridge_column : String × List ℕ → Bridge → Outcome Bridge
unfolding same_column memcpy
bridge_column (col, v) b =
    if same_column col "guid"
    then (memcpy 8 v >>= λ s. ok (record b { guid = s }))
    else if same_column col "vfm_guid"
    then (memcpy 8 v >>= λ s. ok (record b { vfm_guid = s }))
    else if same_column col "desc"
    then (memcpy 64 v >>= λ s. ok (record b { desc = s }))
    else if same_column col "firmware_version"
    then (memcpy 64 v >>= λ s. ok (record b { firmware_version = s }))
    else ok b

unfoldable pub process_bridge : Columns → List Bridge → Outcome (ℕ × List Bridge)
unfolding fill bridge_column
process_bridge cols rsc = fill bridge_column cols no_bridge >>= λ b. ok (0, rsc ++ b ∷ [])

unfoldable pub module_column : String × List ℕ → List ℕ → Outcome (List ℕ)
unfolding same_column memcpy
module_column (col, v) m = if same_column col "gw_module_id" then memcpy 8 v else ok m

-- `fresh` is what the memory of the next index holds.
unfoldable pub process_gateway_module :
    (fresh : List ℕ) → Columns → List (List ℕ) → Outcome (ℕ × List (List ℕ))
unfolding fill module_column
process_gateway_module fresh cols rsc = fill module_column cols fresh >>= λ m. ok (0, rsc ++ m ∷ [])

abbrev is_zero : List ℕ → Bool
is_zero [] = true
is_zero (b ∷ bs) = b == 0 && is_zero bs

-- the bits of `vfm_bd_attr_bitmask_t` that a selection looks at
pub record BridgeBits : Type 0 where
  pub guid : Bool
  pub desc : Bool
  pub firmware_version : Bool
  pub vfm_guid : Bool

abbrev pub bridge_conditions : BridgeBits → Bridge → List Bit
bridge_conditions b a =
    record { is_set = b.guid; db_field = "guid"; value = q_named_param "?1" }
    ∷ record { is_set = b.desc; db_field = "`desc`"; value = q_uint8 a.desc }
    ∷ record {
      is_set = b.firmware_version;
      db_field = "firmware_version";
      value = q_uint8 a.firmware_version;
    }
    ∷ record { is_set = b.vfm_guid; db_field = "vfm_guid"; value = q_named_param "?2" }
    ∷ []

-- The format of both guids is printed by a `sprintf` over itself.
abbrev pub formats : Libc → BridgeBits → List ℕ
formats libc b =
    let first : List ℕ = if b.guid then b'g' ∷ [] else [] in
    if b.vfm_guid then libc.sprintf_over (chars first ∷ text "g" ∷ []) else first

-- The guids that are bound. A guid of the VFM alone is the first.
abbrev pub guids : BridgeBits → Bridge → List (List ℕ)
guids b a =
    let args : List (List ℕ) = if b.guid then a.guid ∷ [] else [] in
    if b.vfm_guid then args ++ a.vfm_guid ∷ [] else args

module _ {Store : Type 0} (sql : Sqlite Store) (libc : Libc) (fresh : List ℕ) where
  -- Without a guid every module is read.
  unfoldable pub populate_gateway_module_information :
      Store → (bd_guid : List ℕ) → Outcome (List (List ℕ))
  unfolding add_bits add_query_parameters vfmdb_prepare_query vfmdb_execute_query
      process_gateway_module
  populate_gateway_module_information db bd_guid =
      add_bits (add_query_parameters libc)
        (record {
          is_set = if is_zero bd_guid then false else true;
          db_field = "vfm_bridge_guid";
          value = q_named_param "?1";
        }
          ∷ [])
        (libc.sprintf (text "select * from vfm_gw_module_attr " ∷ [])) 0
      >>= λ (query, _).
          vfmdb_prepare_query sql db (query ++ b';' ∷ [])
            (if is_zero bd_guid then [] else b'g' ∷ []) (bd_guid ∷ [])
          >>= λ prepared. elim prepared [
            | none ↦ ok []
            | some stmt ↦
                vfmdb_execute_query sql db stmt (process_gateway_module fresh) []
                >>= λ (_, found, _). ok found
          ]

  -- The modules of each bridge in turn; an error of one is not looked at.
  unfoldable pub populate_modules : Store → List Bridge → Outcome (List Device)
  unfolding populate_gateway_module_information
  populate_modules db [] = ok []
  populate_modules db (b ∷ bs) = populate_gateway_module_information db b.guid >>= λ found.
      populate_modules db bs >>= λ rest. ok (record { bridge = b; gw_modules = found } ∷ rest)

  -- The code, and the bridges.
  unfoldable pub populate_bridge_information :
      Store → (attr : Bridge) → (bitmask : BridgeBits) → Outcome (ℕ × List Device)
  unfolding add_bits add_query_parameters vfmdb_prepare_query vfmdb_execute_query process_bridge
      populate_modules
  populate_bridge_information db attr bitmask =
      add_bits (add_query_parameters libc) (bridge_conditions bitmask attr)
        (libc.sprintf (text "select * from vfm_bridge_device " ∷ [])) 0
      >>= λ (query, _).
          vfmdb_prepare_query sql db (query ++ b';' ∷ []) (formats libc bitmask)
            (guids bitmask attr)
          >>= λ prepared. elim prepared [
            | none ↦ ok (code db_error, [])
            | some stmt ↦ vfmdb_execute_query sql db stmt process_bridge [] >>= λ (rc, found, _).
                elim (rc == 0) [
                  | true ↦ populate_modules db found >>= λ devices. ok (0, devices)
                  | false ↦ ok (code db_error, [])
                ]
          ]
