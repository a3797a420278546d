-- ===== src/Db/Fabric.antt =====
-- src/vps/vfm/db/vfmdb_vfabric.c: the rows of virtual fabrics, with the queries that reading one makes.
use vfm.Base.{
  ℕ, ◌+◌, ◌%◌, Option, none, some, List, [], ◌∷◌, ◌++◌, replicate, length, set, ltb, ◌==◌, ◌||◌,
  if◌then◌else◌,
}
use Prim.Native.String.{String}
use vfm.Outcome.{Outcome, ok, fault, ◌>>=◌, code, db_error}
use vfm.Db.{Libc, Sqlite, Piece, text, number, vfmdb_prepare_query, vfmdb_execute_query}
use vfm.Db.Column.{same_column}
use vfm.Db.Rows.{Columns, strcpy, memcpy, fill}

-- `en_attr` and `fc_attr` of a fabric, of which its protocol selects the one that is filled
pub record ProtocolAttr : Type 0 where
  pub vlan : ℕ
  pub mac : List ℕ
  pub wwnn : List ℕ
  pub wwpn : List ℕ
  pub fcid : List ℕ

-- the fields of `vfm_vfabric_attr_t` that a row fills
pub record VfabricRow : Type 0 where
  pub id : ℕ
  pub name : List ℕ
  pub desc : List ℕ
  pub protocol : ℕ
  pub primary_gateway : ℕ
  pub backup_gateway : ℕ
  pub ctx_table_id : ℕ
  pub auto_failover : ℕ
  pub auto_failback : ℕ
  pub num_vadapter : ℕ
  pub protocol_attr : ProtocolAttr

-- `VFM_PROTOCOL_EN` and `VFM_PROTOCOL_FC`
abbrev pub protocol_en : ℕ
protocol_en = 1

abbrev pub protocol_fc : ℕ
protocol_fc = 3

-- after `memset`
abbrev no_attr : ProtocolAttr
no_attr = record {
  vlan = 0;
  mac = replicate 6 0;
  wwnn = replicate 8 0;
  wwpn = replicate 8 0;
  fcid = replicate 3 0;
}

abbrev pub cleared : VfabricRow
cleared = record {
  id = 0;
  name = replicate 64 0;
  desc = replicate 64 0;
  protocol = 0;
  primary_gateway = 0;
  backup_gateway = 0;
  ctx_table_id = 0;
  auto_failover = 0;
  auto_failback = 0;
  num_vadapter = 0;
  protocol_attr = no_attr;
}

module _ (libc : Libc) where
  unfoldable pub vfabric_column : String × List ℕ → VfabricRow → Outcome VfabricRow
  unfolding same_column strcpy
  vfabric_column (col, v) f =
      if same_column col "primary_gw_id"
      then ok (record f { primary_gateway = libc.atoi v })
      else if same_column col "id"
      then ok (record f { id = libc.atoi v })
      else if same_column col "backup_gw_id"
      then ok (record f { backup_gateway = libc.atoi v })
      else if same_column col "name"
      then (strcpy f.name v >>= λ s. ok (record f { name = s }))
      else if same_column col "desc"
      then (strcpy f.desc v >>= λ s. ok (record f { desc = s }))
      else if same_column col "ctx_table_id"
      then ok (record f { ctx_table_id = libc.atoi v })
      else if same_column col "protocol"
      then ok (record f { protocol = libc.atoi v })
      else if same_column col "auto_failover"
      then ok (record f { auto_failover = libc.atoi v % 256 })
      else if same_column col "auto_failback"
      then ok (record f { auto_failback = libc.atoi v % 256 })
      else if same_column col "vadapter_id"
      then ok (record f { num_vadapter = libc.atoi v })
      else ok f

  unfoldable pub process_vfabric_en_attr : String × List ℕ → ProtocolAttr → Outcome ProtocolAttr
  unfolding same_column memcpy
  process_vfabric_en_attr (col, v) p =
      if same_column col "vlan"
      then ok (record p { vlan = libc.atoi v })
      else if same_column col "mac"
      then (memcpy 6 v >>= λ s. ok (record p { mac = s }))
      else ok p

  unfoldable pub process_vfabric_fc_attr : String × List ℕ → ProtocolAttr → Outcome ProtocolAttr
  unfolding same_column memcpy
  process_vfabric_fc_attr (col, v) p =
      if same_column col "wwnn"
      then (memcpy 8 v >>= λ s. ok (record p { wwnn = s }))
      else if same_column col "wwpn"
      then (memcpy 8 v >>= λ s. ok (record p { wwpn = s }))
      else if same_column col "fcid"
      then (memcpy 3 v >>= λ s. ok (record p { fcid = s }))
      else ok p

-- What `process_vfabric` hands on as `vfm_rsc`: the array of ids behind the structure, `none` for
-- one that was not written, and `count`, `none` as long as nothing set it.
pub record Attached : Type 0 where
  pub ids : List (Option ℕ)
  pub count : Option ℕ

-- `vfm_rsc` after its `data` was allocated: its `count` was not written
abbrev pub unset_pack : (num_vadapter : ℕ) → Attached
unset_pack n = record { ids = replicate n none; count = none }

-- One column, for the id at `offset` of the array: a write outside of it is a fault.
unfoldable pub vadapter_id_column :
    Libc → (offset : ℕ) → String × List ℕ → List (Option ℕ) → Outcome (List (Option ℕ))
unfolding same_column
vadapter_id_column libc offset (col, v) ids =
    if same_column col "id"
    then (if ltb offset (length ids) then ok (set ids offset (some (libc.atoi v))) else fault)
    else ok ids

-- The id goes where `count` says.
unfoldable pub process_vadapter_id : Libc → Columns → Attached → Outcome (ℕ × Attached)
unfolding fill vadapter_id_column
process_vadapter_id libc cols rsc = elim rsc.count [
  | none ↦ fault
  | some n ↦ fill (vadapter_id_column libc n) cols rsc.ids >>= λ ids.
      ok (0, record { ids = ids; count = some ((n + 1) % 4294967296) })
]

abbrev pub attached_query : Libc → ℕ → List ℕ
attached_query libc id =
    libc.sprintf (text "select id from vfm_vadapter_attr where vfabric_id =" ∷ number id ∷ [])

module _ {Store : Type 0} (sql : Sqlite Store) (libc : Libc) where
  -- A query that is prepared and run; the code, and what its rows leave.
  unfoldable pub select :
      {A : Type 0} → Store → List ℕ → (Columns → A → Outcome (ℕ × A)) → A → Outcome (ℕ × A)
  unfolding vfmdb_prepare_query vfmdb_execute_query
  select db query sql_cb a = vfmdb_prepare_query sql db query [] [] >>= λ prepared. elim prepared [
    | none ↦ ok (code db_error, a)
    | some stmt ↦ vfmdb_execute_query sql db stmt sql_cb a >>= λ (rc, after, _).
        ok ((if rc == 0 then 0 else code db_error), after)
  ]

  unfoldable pub populate_vadapter_id : Store → (vfabric_id : ℕ) → Attached → Outcome (ℕ × Attached)
  unfolding select process_vadapter_id
  populate_vadapter_id db id rsc = select db (attached_query libc id) (process_vadapter_id libc) rsc

  unfoldable pub populate_protocol :
      Store
      → (query : List Piece) → (String × List ℕ → ProtocolAttr → Outcome ProtocolAttr)
      → VfabricRow
      → Outcome (ℕ × ProtocolAttr)
  unfolding select fill
  populate_protocol db query column f =
      select db (libc.sprintf query) (λ cols p. fill column cols p >>= λ q. ok (0, q))
        f.protocol_attr

  unfoldable pub populate_vfabric_protocol_information :
      Store → VfabricRow → Outcome (ℕ × ProtocolAttr)
  unfolding populate_protocol process_vfabric_en_attr process_vfabric_fc_attr
  populate_vfabric_protocol_information db f =
      if f.protocol == protocol_en
      then populate_protocol db
          (text "select * from vfm_vfabric_en_attr where vfabric_id = "
            ∷ number f.id
            ∷ text " ;"
            ∷ [])
          (process_vfabric_en_attr libc) f
      else if f.protocol == protocol_fc
      then populate_protocol db
          (text "select * from vfm_vfabric_fc_attr where vfabric_id = "
            ∷ number f.id
            ∷ text " ;"
            ∷ [])
          (process_vfabric_fc_attr libc) f
      else ok (0, f.protocol_attr)

  -- The callback's code, and the fabrics. Its own queries only read, from the database as it is.
  unfoldable pub process_vfabric : Store → Columns → List VfabricRow → Outcome (ℕ × List VfabricRow)
  unfolding fill vfabric_column populate_vadapter_id populate_vfabric_protocol_information
  process_vfabric db cols rsc = fill (vfabric_column libc) cols cleared >>= λ f.
      populate_vadapter_id db f.id (unset_pack f.num_vadapter) >>= λ _.
      if (f.protocol == protocol_en) || (f.protocol == protocol_fc)
      then (populate_vfabric_protocol_information db f >>= λ (rc, p).
          if rc == 0 then ok (0, rsc ++ record f { protocol_attr = p } ∷ []) else ok (1, rsc))
      else ok (1, rsc)
