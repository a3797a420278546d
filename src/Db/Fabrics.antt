-- ===== src/Db/Fabrics.antt =====
-- `populate_vfabric_information` of src/vps/vfm/db/vfmdb_vfabric.c: the fabrics that a bitmask and
-- attributes select.
use vfm.Base.{ℕ, Bool, List, [], ◌∷◌, ◌++◌, ◌==◌, if◌then◌else◌}
use vfm.Outcome.{Outcome, ok, ◌>>=◌}
use vfm.Db.{Libc, Sqlite, text}
use vfm.Db.Fabric.{VfabricRow, select, process_vfabric}
use vfm.Db.Where.{Bit, q_uint8, q_uint32, add_query_parameters, add_bits}

-- the bits of `vfm_vfabric_attr_bitmask_t` that are looked at
pub record VfabricBits : Type 0 where
  pub backup_gateway : Bool
  pub protocol_attr : Bool
  pub vfm_vfabric_id : Bool
  pub name : Bool
  pub desc : Bool
  pub primary_gateway : Bool
  pub auto_failback : Bool
  pub ctx_table_id : Bool

-- The conditions. The bit of the primary gateway adds the backup gateway too. The flag is a byte that
-- is read as a word, with the three bytes behind it.
abbrev pub vfabric_conditions : VfabricBits → VfabricRow → (auto_failback_word : ℕ) → List Bit
vfabric_conditions b f word =
    record { is_set = b.vfm_vfabric_id; db_field = "`id`"; value = q_uint32 f.id }
    ∷ record { is_set = b.name; db_field = "`name`"; value = q_uint8 f.name }
    ∷ record { is_set = b.desc; db_field = "`desc`"; value = q_uint8 f.desc }
    ∷ record {
      is_set = b.primary_gateway;
      db_field = "primary_gw_id";
      value = q_uint32 f.primary_gateway;
    }
    ∷ record {
      is_set = b.primary_gateway;
      db_field = "backup_gw_id";
      value = q_uint32 f.backup_gateway;
    }
    ∷ record { is_set = b.auto_failback; db_field = "auto_failback"; value = q_uint32 word }
    ∷ record { is_set = b.ctx_table_id; db_field = "ctx_table_id"; value = q_uint32 f.ctx_table_id }
    ∷ []

-- An error leaves no fabrics.
unfoldable pub populate_vfabric_information :
    {Store : Type 0}
    → Sqlite Store
    → (libc : Libc) → Store
    → (bits : List Bit) → Outcome (List VfabricRow)
unfolding add_bits add_query_parameters select process_vfabric
populate_vfabric_information sql libc db bits =
    add_bits (add_query_parameters libc) bits
      (libc.sprintf (text "Select * from v_vfm_vfabric_attr_with_vadapter_count" ∷ [])) 0
    >>= λ (query, _).
        select sql libc db (query ++ b';' ∷ []) (process_vfabric sql libc db) [] >>= λ (rc, found).
        ok (if rc == 0 then found else [])
