-- ===== src/Api/Select.antt =====
-- The handlers of src/vps/vfm/vfmapi_vadapter.c, src/vps/vfm/vfmapi_vfabric.c and
-- src/vps/vfm/vfmapi_bridge_device.c that select.
use vfm.Base.{
  ℕ, ◌+◌, ◌*◌, List, [], ◌∷◌, ◌++◌, length, drop, le32, ltb, replicate, ◌==◌, if◌then◌else◌,
}
use vfm.Outcome.{Outcome, ok, fault, ◌>>=◌}
use vfm.Db.{Libc, Sqlite}
use vfm.Db.Fabric.{VfabricRow}
use vfm.Db.Adapters.{Adapter, populate_vadapter_information, vadapter_conditions}
use vfm.Db.Fabrics.{populate_vfabric_information, vfabric_conditions}
use vfm.Db.Bridges.{Device, populate_bridge_information}
use vfm.Api.{ResPacket, object, pointers, tlv_vfabric_attr}
use vfm.Api.Tlv.{unpack_tlv, get_api_tlv}
use vfm.Api.Server.{Handler}
use vfm.Api.Inventory.{Abi, Listed, vfabric_tlv, pack_bridge_data}
use vfm.Api.Structs.{Layout}

-- a structure that is read through a pointer to the bytes of a TLV
unfoldable pub unpack_struct : (size : ℕ) → (buff : List ℕ) → (ret_pos : ℕ) → Outcome (List ℕ × ℕ)
unfolding unpack_tlv
unpack_struct size buff pos = unpack_tlv buff pos >>= λ (bytes, next).
    if ltb (length bytes) size then fault else ok (bytes, next)

-- a structure that is cleared, and that a TLV is copied over
abbrev get_cleared : (size : ℕ) → (buff : List ℕ) → (ret_pos : ℕ) → Outcome (List ℕ × ℕ)
unfolding get_api_tlv
get_cleared size buff pos = get_api_tlv (replicate size 0) buff pos

unfoldable pub joined : List (List ℕ) → List ℕ
joined [] = []
joined (m ∷ ms) = m ++ joined ms

module _ (abi : Abi) (layout : Layout) where
  -- Each adapter with a TLV's type, that of a fabric, and length before it.
  unfoldable pub adapter_tlvs : List Adapter → List ℕ
  adapter_tlvs [] = []
  adapter_tlvs (a ∷ rest) =
      (le32 tlv_vfabric_attr ++ le32 abi.vadapter_attr_size ++ layout.vadapter_image a)
      ++ adapter_tlvs rest

  unfoldable pub adapter_packet : List Adapter → ResPacket
  unfolding adapter_tlvs
  adapter_packet found = record {
    content = object (adapter_tlvs found);
    size = length found * (abi.vadapter_attr_size + 8);
    count = length found;
  }

  -- The block of a fabric has room for the ids that it counts; none of them is written.
  unfoldable pub fabric_with_ids : (malloc : ℕ → List ℕ) → VfabricRow → Listed
  fabric_with_ids malloc f =
      let size : ℕ = abi.vfabric_attr_size + 8 + f.num_vadapter * 4 in
      record {
        attr = layout.vfabric_image f;
        array = drop (abi.vfabric_attr_size + 8) (malloc size);
      }

  unfoldable pub fabric_list : (malloc : ℕ → List ℕ) → List VfabricRow → List Listed
  unfolding fabric_with_ids
  fabric_list malloc [] = []
  fabric_list malloc (f ∷ fs) = fabric_with_ids malloc f ∷ fabric_list malloc fs

  unfoldable pub tlvs_of : List Listed → List (List ℕ)
  unfolding vfabric_tlv
  tlvs_of [] = []
  tlvs_of (v ∷ vs) = vfabric_tlv v ∷ tlvs_of vs

  unfoldable pub size_of : List (List ℕ) → ℕ
  size_of [] = 0
  size_of (t ∷ ts) = length t + size_of ts

  -- Each device with the indices of its modules, in the array that it points to.
  unfoldable pub device_list : List Device → List Listed
  unfolding joined
  device_list [] = []
  device_list (d ∷ ds) =
      record { attr = layout.bd_image d; array = joined d.gw_modules } ∷ device_list ds

  module _ {Store : Type 0} (sql : Sqlite Store) (libc : Libc) (fresh : Adapter)
      (fresh_module : List ℕ) where
    unfoldable pub process_vfm_vadapter_select_inventory : Handler Store
    unfolding unpack_struct populate_vadapter_information adapter_packet
    process_vfm_vadapter_select_inventory buff pos db =
        unpack_struct layout.vadapter_bits_size buff pos >>= λ (bitmask, at_attr).
        unpack_struct abi.vadapter_attr_size buff at_attr >>= λ (attr, _).
        populate_vadapter_information sql libc db fresh
          (vadapter_conditions (layout.vadapter_bits bitmask) (layout.vadapter_attr attr))
        >>= λ found. ok (0, adapter_packet found, db)

    unfoldable pub process_vfm_vfabric_select_inventory : Handler Store
    unfolding unpack_struct populate_vfabric_information fabric_list tlvs_of size_of
    process_vfm_vfabric_select_inventory buff pos db =
        unpack_struct abi.vfabric_attr_size buff pos >>= λ (attr, at_bitmask).
        unpack_struct layout.vfabric_bits_size buff at_bitmask >>= λ (bitmask, _).
        populate_vfabric_information sql libc db (
          vfabric_conditions (layout.vfabric_bits bitmask) (layout.vfabric_attr attr)
            (layout.auto_failback_word attr))
        >>= λ found.
            let tlvs : List (List ℕ) = tlvs_of (fabric_list libc.malloc found) in
            ok (0, record { content = pointers tlvs; size = size_of tlvs; count = length tlvs }, db)

    -- After an error the response is made of a structure that was never set.
    unfoldable pub bridges_selected : Handler Store
    unfolding get_api_tlv populate_bridge_information device_list pack_bridge_data
    bridges_selected buff pos db = get_cleared abi.bd_attr_size buff pos >>= λ (attr, at_bitmask).
        get_cleared layout.bd_bits_size buff at_bitmask >>= λ (bitmask, _).
        populate_bridge_information sql libc fresh_module db (layout.bd_attr attr)
          (layout.bd_bits bitmask)
        >>= λ (err, devices).
            if err == 0
            then (pack_bridge_data abi (device_list devices) >>= λ op_arg. ok (0, op_arg, db))
            else fault

    unfoldable pub process_vfm_bd_select_inventory : Handler Store
    unfolding bridges_selected
    process_vfm_bd_select_inventory buff pos db = bridges_selected buff pos db

    -- The guid stands first in the structure, and is copied over its front.
    unfoldable pub process_vfm_bd_query_general_attr : Handler Store
    unfolding bridges_selected
    process_vfm_bd_query_general_attr buff pos db = bridges_selected buff pos db

-- `process_vfm_vadapter_query_general_attrs` has an empty body: the response is made of a structure
-- that was never set.
unfoldable pub process_vfm_vadapter_query_general_attrs : {Store : Type 0} → Handler Store
process_vfm_vadapter_query_general_attrs buff pos db = fault
