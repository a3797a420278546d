-- ===== src/Db/Adapters.antt =====
-- src/vps/vfm/db/vfmdb_vadapter.c: the adapters that a bitmask and attributes select, with the
-- attributes of their protocol.
use vfm.Base.{
  ℕ, ◌%◌, Bool, true, Option, none, some, List, [], ◌∷◌, ◌++◌, length, ltb, ◌==◌, if◌then◌else◌,
}
use Prim.Native.String.{String}
use vfm.Outcome.{Outcome, ok, fault, ◌>>=◌}
use vfm.Db.{Libc, Sqlite, text, chars, vfmdb_prepare_query, vfmdb_execute_query}
use vfm.Db.Column.{same_column}
use vfm.Db.Rows.{Columns, VadapterRow, memcpy, fill, vadapter_column}
use vfm.Db.Fabric.{protocol_en, protocol_fc}
use vfm.Db.Where.{Bit, q_uint8, q_uint32, q_named_param, add_query_parameters, add_bits}

-- the fields of `vfm_vadapter_en_attr_t`, and of `vfm_vadapter_fc_attr_t`, that the code touches
pub record EnAttr : Type 0 where
  pub mac : List ℕ
  pub vlan : ℕ
  pub mtu : ℕ
  pub promiscuous_mode : ℕ
  pub silent_listener : ℕ

pub record FcAttr : Type 0 where
  pub wwnn : List ℕ
  pub wwpn : List ℕ
  pub fcid : List ℕ
  pub mtu : ℕ
  pub spma : ℕ
  pub fpma : ℕ

-- An adapter, with the two structures of which its protocol selects the one that is used.
pub record Adapter : Type 0 where
  pub row : VadapterRow
  pub en_attr : EnAttr
  pub fc_attr : FcAttr

-- the bits of the two bitmasks that are looked at
pub record ExBits : Type 0 where
  pub mac : Bool
  pub vlan : Bool
  pub en_mtu : Bool
  pub wwnn : Bool
  pub wwpn : Bool
  pub fc_mtu : Bool

unfoldable pub process_vadapter_en : Libc → String × List ℕ → EnAttr → Outcome EnAttr
unfolding same_column memcpy
process_vadapter_en libc (col, v) p =
    if same_column col "mac"
    then (memcpy 6 v >>= λ s. ok (record p { mac = s }))
    else if same_column col "promiscuous"
    then ok (record p { promiscuous_mode = libc.atoi v % 256 })
    else if same_column col "silent_listener"
    then ok (record p { silent_listener = libc.atoi v % 256 })
    else if same_column col "vlan"
    then ok (record p { vlan = libc.atoi v })
    else ok p

unfoldable pub process_vadapter_fc : Libc → String × List ℕ → FcAttr → Outcome FcAttr
unfolding same_column memcpy
process_vadapter_fc libc (col, v) p =
    if same_column col "wwnn"
    then (memcpy 8 v >>= λ s. ok (record p { wwnn = s }))
    else if same_column col "wwpn"
    then (memcpy 8 v >>= λ s. ok (record p { wwpn = s }))
    else if same_column col "fcid"
    then (memcpy 3 v >>= λ s. ok (record p { fcid = s }))
    else if same_column col "spma"
    then ok (record p { spma = libc.atoi v % 256 })
    else if same_column col "fpma"
    then ok (record p { fpma = libc.atoi v % 256 })
    else ok p

module _ {Store : Type 0} (sql : Sqlite Store) (libc : Libc) where
  -- A query that is prepared and run, and what its rows leave; its code is not looked at.
  unfoldable pub read_attributes :
      {A : Type 0}
      → Store
      → (query fmt : List ℕ) → (args : List (List ℕ)) → (String × List ℕ → A → Outcome A)
      → A
      → Outcome A
  unfolding vfmdb_prepare_query vfmdb_execute_query fill
  read_attributes db query fmt args column a =
      vfmdb_prepare_query sql db query fmt args >>= λ prepared. elim prepared [
        | none ↦ ok a
        | some stmt ↦
            vfmdb_execute_query sql db stmt (λ cols p. fill column cols p >>= λ q. ok (0, q)) a
            >>= λ (_, after, _). ok after
      ]

  unfoldable pub populate_en : Store → ExBits → Adapter → Outcome Adapter
  unfolding add_bits add_query_parameters read_attributes process_vadapter_en
  populate_en db bits a =
      let e = a.en_attr in
      add_bits (add_query_parameters libc)
        (record { is_set = bits.mac; db_field = "mac"; value = q_named_param "?1" }
          ∷ record { is_set = bits.vlan; db_field = "vlan"; value = q_uint32 e.vlan }
          ∷ record { is_set = bits.en_mtu; db_field = "mtu"; value = q_uint32 e.mtu }
          ∷ record { is_set = true; db_field = "vadapter_id"; value = q_uint32 a.row.id }
          ∷ [])
        [] 0
      >>= λ (query, _).
          read_attributes db
            (libc.sprintf
              (text "select * from vfm_vadapter_en_attr " ∷ chars query ∷ text " " ∷ []))
            (if bits.mac then b'm' ∷ [] else []) (e.mac ∷ []) (process_vadapter_en libc) e
          >>= λ after. ok (record a { en_attr = after })

  -- The format of both parameters is printed by a `sprintf` over itself. Both take the node name.
  unfoldable pub populate_fc : Store → ExBits → Adapter → Outcome Adapter
  unfolding add_bits add_query_parameters read_attributes process_vadapter_fc
  populate_fc db bits a =
      let f = a.fc_attr in
      let first : List ℕ = if bits.wwnn then b'g' ∷ [] else [] in
      add_bits (add_query_parameters libc)
        (record { is_set = bits.wwnn; db_field = "wwnn"; value = q_named_param "?1" }
          ∷ record { is_set = bits.wwpn; db_field = "wwpn"; value = q_named_param "?2" }
          ∷ record { is_set = bits.fc_mtu; db_field = "mtu"; value = q_uint32 f.mtu }
          ∷ record { is_set = true; db_field = "vadapter_id"; value = q_uint32 a.row.id }
          ∷ [])
        [] 0
      >>= λ (query, _).
          read_attributes db
            (libc.sprintf
              (text "select * from vfm_vadapter_fc_attr " ∷ chars query ∷ text " " ∷ []))
            (if bits.wwpn then libc.sprintf_over (chars first ∷ text "g" ∷ []) else first)
            (f.wwnn ∷ f.wwnn ∷ []) (process_vadapter_fc libc) f
          >>= λ after. ok (record a { fc_attr = after })

  -- `none` is a pointer to the bitmask that was never set.
  unfoldable pub populate_vadapter_ex :
      Store → (bitmask : Option ExBits) → Adapter → Outcome Adapter
  unfolding populate_en populate_fc
  populate_vadapter_ex db bitmask a =
      if a.row.protocol == protocol_en
      then elim bitmask [ none ↦ fault | some bits ↦ populate_en db bits a ]
      else if a.row.protocol == protocol_fc
      then elim bitmask [ none ↦ fault | some bits ↦ populate_fc db bits a ]
      else ok a

  -- A block with room for some adapters, and those that are in it. The next one lies in memory that
  -- holds `fresh`.
  unfoldable pub process_vadapter_inventory :
      Store → (fresh : Adapter) → (room : ℕ) → Columns → List Adapter → Outcome (ℕ × List Adapter)
  unfolding fill vadapter_column populate_vadapter_ex
  process_vadapter_inventory db fresh room cols rsc =
      if ltb (length rsc) room
      then (fill (vadapter_column libc) cols fresh.row >>= λ row.
          populate_vadapter_ex db none (record fresh { row = row }) >>= λ a. ok (0, rsc ++ a ∷ []))
      else fault

  unfoldable pub get_vadapter_count : Columns → ℕ → Outcome (ℕ × ℕ)
  get_vadapter_count [] count = fault
  get_vadapter_count ((_, v) ∷ _) count = ok (0, libc.atoi v)

  -- What is behind the last adapter for a query that could not be prepared, or failed.
  unfoldable pub populate_rows :
      Store → (fresh : Adapter) → (query : List ℕ) → (room : ℕ) → Outcome (List Adapter)
  unfolding vfmdb_prepare_query vfmdb_execute_query process_vadapter_inventory
  populate_rows db fresh query room =
      vfmdb_prepare_query sql db
        (libc.sprintf (text "select * from vfm_vadapter_attr " ∷ chars query ∷ text " " ∷ [])) [] []
      >>= λ prepared. elim prepared [
        | none ↦ ok []
        | some stmt ↦
            vfmdb_execute_query sql db stmt (process_vadapter_inventory db fresh room) []
            >>= λ (_, found, _). ok found
      ]

  -- the bits that are set, and the attributes that should match
  unfoldable pub populate_vadapter_information :
      Store → (fresh : Adapter) → (bits : List Bit) → Outcome (List Adapter)
  unfolding add_bits add_query_parameters vfmdb_prepare_query vfmdb_execute_query populate_rows
      get_vadapter_count
  populate_vadapter_information db fresh bits =
      add_bits (add_query_parameters libc) bits [] 0 >>= λ (conditions, _).
      let query : List ℕ = conditions ++ b';' ∷ [] in
      vfmdb_prepare_query sql db
        (libc.sprintf
          (text "select count(*) from vfm_vadapter_attr " ∷ chars query ∷ text " " ∷ []))
        [] []
      >>= λ prepared. elim prepared [
        | none ↦ ok []
        | some stmt ↦ vfmdb_execute_query sql db stmt get_vadapter_count 0 >>= λ (rc, count, _).
            if rc == 0 then populate_rows db fresh query count else ok []
      ]

-- the bits of `vfm_vadapter_attr_bitmask_t` that are looked at
pub record VadapterBits : Type 0 where
  pub id : Bool
  pub state : Bool
  pub init_type : Bool
  pub desc : Bool
  pub name : Bool
  pub protocol : Bool
  pub io_module_id : Bool
  pub vfabric_id : Bool

abbrev pub vadapter_conditions : VadapterBits → VadapterRow → List Bit
vadapter_conditions b a =
    record { is_set = b.id; db_field = "id"; value = q_uint32 a.id }
    ∷ record { is_set = b.desc; db_field = "`desc`"; value = q_uint8 a.desc }
    ∷ record { is_set = b.name; db_field = "`name`"; value = q_uint8 a.name }
    ∷ record { is_set = b.protocol; db_field = "protocol"; value = q_uint32 a.protocol }
    ∷ record { is_set = b.io_module_id; db_field = "io_module_id"; value = q_uint32 a.io_module_id }
    ∷ record { is_set = b.vfabric_id; db_field = "vfabric_id"; value = q_uint32 a.vfabric_id }
    ∷ []
