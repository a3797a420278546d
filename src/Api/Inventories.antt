-- ===== src/Api/Inventories.antt =====
-- `vfm_vfabric_select_inventory`, from the fabrics that the database finds to the client's list.
use vfm.Base.{
  ℕ, ◌+◌, ◌≡◌, arith, List, ◌++◌, length, le32, drop, length-append, length-drop, append-nil,
  append_assoc,
}
use vfm.Outcome.{Outcome, ok}
use vfm.Db.{Libc, Sqlite}
use vfm.Db.Adapters.{Adapter}
use vfm.Db.Fabric.{VfabricRow}
use vfm.Db.Fabrics.{populate_vfabric_information, vfabric_conditions}
use vfm.Api.{ApiHdr, ResPacket, pointers, pointers_of, ctrl_hdr_bytes}
use vfm.Api.Layout.{append_bytes-fits}
use vfm.Api.Request.{Request}
use vfm.Api.Sizes.{drop_none}
use vfm.Api.Response.{vfm_pack_data}
use vfm.Api.Inventory.{Abi, Listed}
use vfm.Api.Fabrics.{fabric_tlvs, tlv_pointers, AreListed, pack_tlvs-fits}
use vfm.Api.Structs.{Layout}
use vfm.Api.Select.{fabric_list}

-- what `process_vfm_vfabric_select_inventory` leaves for the response
abbrev pub fabric_packet : List Listed → ResPacket
fabric_packet vs = record {
  content = pointers (tlv_pointers vs);
  size = length (fabric_tlvs vs);
  count = length vs;
}

-- the header of the response
abbrev pub fabrics_hdr : ApiHdr → List Listed → ApiHdr
fabrics_hdr h vs = record h { length = 12 + length (fabric_tlvs vs) }

-- the response behind a header
abbrev pub fabrics_response : ApiHdr → List Listed → List ℕ
fabrics_response h vs = ctrl_hdr_bytes h ++ (le32 (length vs) ++ fabric_tlvs vs)

module _ (abi : Abi) (malloc : ℕ → List ℕ) (sized : (n : ℕ) → length (malloc n) ≡ n) where
  packed :
      (vs : List Listed) (hd room : List ℕ)
      → AreListed abi vs
      → length hd ≡ 8
      → length room ≡ 4 + length (fabric_tlvs vs)
      → vfm_pack_data (fabric_packet vs) (record { message = hd ++ room; offset = 8 })
        ≡ ok (record {
          message = hd ++ (le32 (length vs) ++ fabric_tlvs vs);
          offset = 12 + length (fabric_tlvs vs);
        })
  unfolding vfm_pack_data pointers_of
  packed vs hd room l e size = rw (
    append_bytes-fits hd room (le32 (length vs)) 8 e (omega (arith, size)),
    pack_tlvs-fits abi vs (hd ++ le32 (length vs)) (drop 4 room) 12 l
        (omega (arith, e, length-append hd (le32 (length vs))))
        (omega (arith, size, length-drop 4 room)),
    drop_none (length (fabric_tlvs vs)) (drop 4 room) (omega (arith, size, length-drop 4 room)),
    append-nil (hd ++ le32 (length vs) ++ fabric_tlvs vs),
    append_assoc hd (le32 (length vs)) (fabric_tlvs vs),
  )

module _ {Store : Type 0} (sql : Sqlite Store) (libc : Libc) (abi : Abi) (layout : Layout)
    (fresh : Adapter) (fresh_module : List ℕ) where
  -- what the database finds for the client's structures
  abbrev pub fabrics_found : Store → (attr bitmask : List ℕ) → Outcome (List VfabricRow)
  fabrics_found db attr bitmask = populate_vfabric_information sql libc db (
      vfabric_conditions (layout.vfabric_bits bitmask) (layout.vfabric_attr attr)
        (layout.auto_failback_word attr))

  -- the structures of fabrics, as the handler makes them
  abbrev pub listed_of : List VfabricRow → List Listed
  listed_of found = fabric_list abi layout libc.malloc found
