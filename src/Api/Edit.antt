-- ===== src/Api/Edit.antt =====
-- The handlers of src/vps/vfm/vfmapi_vadapter.c and src/vps/vfm/vfmapi_vfabric.c that edit, with
-- `vpsdb_edit_resource` of src/vps/vfm/db/db_access.c. What they return is not set, and is not looked
-- at.
use vfm.Base.{ℕ, Option, none, some, List, [], ◌∷◌, ◌++◌, ltb, ◌==◌, if◌then◌else◌}
use Prim.Native.String.{String}
use vfm.Outcome.{Outcome, ok, ◌>>=◌, code, db_error}
use vfm.Db.{
  Libc, Sqlite, Stmt, text, number, chars, vfmdb_prepare_query, vfmdb_prepare_query_ex,
  run_statement,
}
use vfm.Db.Rows.{VadapterRow}
use vfm.Db.Fabric.{VfabricRow}
use vfm.Db.Vadapter.{ResourceType, db_vadapter, db_vfabric}
use vfm.Db.Where.{Bit, q_uint8, q_uint32, add_update_query_parameters, add_bits}
use vfm.Db.Adapters.{VadapterBits}
use vfm.Db.Fabrics.{VfabricBits}
use vfm.Api.Tlv.{word_of}
use vfm.Api.Server.{Handler}
use vfm.Api.Handlers.{get_fresh, word_packet}
use vfm.Api.Inventory.{Abi}
use vfm.Api.Structs.{Layout, EnBits}

abbrev pub update_text : ResourceType → String
update_text db_vadapter = "update vfm_vadapter_attr set "
update_text db_vfabric = "update vfm_vfabric_attr set "

abbrev pub vadapter_changes : VadapterBits → VadapterRow → (state : ℕ) → List Bit
vadapter_changes b a state =
    record { is_set = b.state; db_field = "status"; value = q_uint32 state }
    ∷ record { is_set = b.name; db_field = "`name`"; value = q_uint8 a.name }
    ∷ record { is_set = b.desc; db_field = "`desc`"; value = q_uint8 a.desc }
    ∷ record { is_set = b.init_type; db_field = "init_type"; value = q_uint32 a.init_type }
    ∷ record { is_set = b.io_module_id; db_field = "io_module_id"; value = q_uint32 a.io_module_id }
    ∷ record { is_set = b.protocol; db_field = "protocol"; value = q_uint32 a.protocol }
    ∷ record { is_set = b.vfabric_id; db_field = "vfabric_id"; value = q_uint32 a.vfabric_id }
    ∷ []

abbrev pub vfabric_changes : VfabricBits → VfabricRow → List Bit
vfabric_changes b f =
    record { is_set = b.name; db_field = "`name`"; value = q_uint8 f.name }
    ∷ record { is_set = b.desc; db_field = "`desc`"; value = q_uint8 f.desc }
    ∷ record {
      is_set = b.primary_gateway;
      db_field = "primary_gw_id";
      value = q_uint32 f.primary_gateway;
    }
    ∷ record {
      is_set = b.backup_gateway;
      db_field = "backup_gw_id";
      value = q_uint32 f.backup_gateway;
    }
    ∷ record { is_set = b.protocol_attr; db_field = "protocol"; value = q_uint32 f.protocol }
    ∷ record { is_set = b.ctx_table_id; db_field = "ctx_table_id"; value = q_uint32 f.ctx_table_id }
    ∷ []

abbrev pub en_changes : EnBits → (vlan promiscuous silent : ℕ) → List Bit
en_changes b vlan promiscuous silent =
    record { is_set = b.vlan; db_field = "vlan"; value = q_uint32 vlan }
    ∷ record { is_set = b.promiscuous_mode; db_field = "promiscuous"; value = q_uint32 promiscuous }
    ∷ record { is_set = b.silent_listener; db_field = "silent_listener"; value = q_uint32 silent }
    ∷ []

module _ {Store : Type 0} (sql : Sqlite Store) (libc : Libc) where
  -- a statement without rows, where one could be prepared
  unfoldable pub run_update : Store → Option Stmt → Outcome (ℕ × Store)
  unfolding run_statement
  run_update db none = ok (code db_error, db)
  run_update db (some stmt) = run_statement sql db stmt >>= λ (rc, after).
      ok ((if rc == 0 then 0 else code db_error), after)

  unfoldable pub vpsdb_edit_resource :
      ResourceType → Store → (where_clause : List ℕ) → Outcome (ℕ × Store)
  unfolding vfmdb_prepare_query run_update
  vpsdb_edit_resource type db where_clause =
      vfmdb_prepare_query sql db (libc.sprintf (text (update_text type) ∷ chars where_clause ∷ []))
        [] []
      >>= run_update db

  -- `sprintf` prints the query to where it lies, with the id behind it.
  unfoldable pub where_id : (query : List ℕ) → (count : ℕ) → (condition : String) → ℕ → List ℕ
  where_id query count condition id =
      if ltb 0 count
      then libc.sprintf_over (chars query ∷ text condition ∷ number id ∷ text ";" ∷ [])
      else query

  module _ (abi : Abi) (layout : Layout) where
    -- Without a bit the text of the update ends behind `set`.
    unfoldable pub process_vfm_edit_vadapter : Handler Store
    unfolding get_fresh word_of add_bits add_update_query_parameters where_id vpsdb_edit_resource
        word_packet
    process_vfm_edit_vadapter buff pos db = get_fresh 4 buff pos >>= λ (bytes, at_bitmask).
        word_of bytes >>= λ vadapter_id.
        get_fresh layout.vadapter_bits_size buff at_bitmask >>= λ (bitmask, at_attr).
        get_fresh abi.vadapter_attr_size buff at_attr >>= λ (attr, _).
        add_bits (add_update_query_parameters libc)
          (vadapter_changes (layout.vadapter_bits bitmask) (layout.vadapter_attr attr)
            (layout.vadapter_state attr))
          [] 0
        >>= λ (query, count).
            vpsdb_edit_resource db_vadapter db (where_id query count " where id = " vadapter_id)
            >>= λ (err, after). ok (0, word_packet err, after)

    unfoldable pub edit_vfabric : Store → ℕ → List ℕ × ℕ → Outcome (ℕ × Store)
    unfolding where_id vpsdb_edit_resource
    edit_vfabric db id (query, count) =
        if ltb 0 count
        then vpsdb_edit_resource db_vfabric db (where_id query count " where id = " id)
        else ok (0, db)

    unfoldable pub process_vfm_edit_vfabric : Handler Store
    unfolding get_fresh word_of add_bits add_update_query_parameters edit_vfabric word_packet
    process_vfm_edit_vfabric buff pos db = get_fresh 4 buff pos >>= λ (bytes, at_bitmask).
        word_of bytes >>= λ vfabric_id.
        get_fresh layout.vfabric_bits_size buff at_bitmask >>= λ (bitmask, at_attr).
        get_fresh abi.vfabric_attr_size buff at_attr >>= λ (attr, _).
        add_bits (add_update_query_parameters libc)
          (vfabric_changes (layout.vfabric_bits bitmask) (layout.vfabric_attr attr)) [] 0
        >>= edit_vfabric db vfabric_id
        >>= λ (err, after). ok (0, word_packet err, after)

    -- The address is bound to the place that a `sprintf` over the end of the query prints.
    unfoldable pub edit_en :
        Store → (vadapter_id : ℕ) → EnBits → (attr : List ℕ) → Outcome (ℕ × Store)
    unfolding add_bits add_update_query_parameters where_id vfmdb_prepare_query_ex run_update
    edit_en db id b attr =
        let start : List ℕ = libc.sprintf (text "update vfm_vadapter_en_attr set" ∷ []) in
        let e = layout.en_attr attr in
        add_bits (add_update_query_parameters libc)
          (en_changes b e.vlan (layout.promiscuous_mode_word attr)
            (layout.silent_listener_word attr))
          (if b.mac then start ++ libc.sprintf_over (chars [] ∷ text " mac = ?" ∷ []) else start)
          (if b.mac then 1 else 0)
        >>= λ (query, count).
            vfmdb_prepare_query_ex sql db (where_id query count " where vadapter_id = " id)
              (some (if b.mac then b'm' ∷ [] else [])) (e.mac ∷ [])
            >>= run_update db

    unfoldable pub process_vfm_edit_en_attr : Handler Store
    unfolding get_fresh word_of edit_en word_packet
    process_vfm_edit_en_attr buff pos db = get_fresh 4 buff pos >>= λ (bytes, at_bitmask).
        word_of bytes >>= λ vadapter_id.
        get_fresh layout.en_bits_size buff at_bitmask >>= λ (bitmask, at_attr).
        get_fresh layout.en_attr_size buff at_attr >>= λ (attr, _).
        edit_en db vadapter_id (layout.en_bits bitmask) attr >>= λ (err, after).
        ok (0, word_packet err, after)
