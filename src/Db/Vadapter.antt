-- ===== src/Db/Vadapter.antt =====
-- src/vps/vfm/db/vfmdb_vadapter.c and src/vps/vfm/db/db_access.c: a virtual adapter or a virtual
-- fabric is added under the number after the largest one. Results are numbers, 0 for success.
use vfm.Base.{ℕ, ◌+◌, ◌%◌, true, false, none, some, List, [], ◌∷◌, ◌++◌, ◌==◌, if◌then◌else◌}
use Prim.Native.String.{String}
use vfm.Outcome.{Outcome, ok, fault, ◌>>=◌, code, db_error}
use vfm.Db.{
  Libc, Sqlite, Row, Piece, text, number, chars, c_string, vfmdb_prepare_query, vfmdb_execute_query,
  run_statement,
}

-- What `vfm_vadapter_attr_t` and `vfm_vfabric_attr_t` hold that the code of an addition touches:
-- the id, the two character arrays of 64, and the protocol.
pub record Attr : Type 0 where
  pub id : ℕ
  pub name : List ℕ
  pub desc : List ℕ
  pub protocol : ℕ

-- the resources that `vpsdb_add_resource` is called with here
pub data ResourceType : Type 0 where
  db_vadapter db_vfabric : ResourceType

module _ {Store : Type 0} (sql : Sqlite Store) (libc : Libc) where
  -- The first column of the row, whatever its name: the largest id, or an empty string.
  unfoldable pub generate_vadapter_id : List (String × List ℕ) → Attr → Outcome (ℕ × Attr)
  generate_vadapter_id [] vadapter = fault
  generate_vadapter_id ((_, v) ∷ _) vadapter = ok (
    0,
    record {
      id = (libc.atoi v + 1) % 4294967296;
      name = vadapter.name;
      desc = vadapter.desc;
      protocol = vadapter.protocol;
    },
  )

  -- The texts of a name and a description, each with its end.
  unfoldable pub insert_text : (table : String) → (type : List Piece) → Attr → Outcome (List ℕ)
  unfolding c_string
  insert_text table type a = c_string a.name >>= λ name. c_string a.desc >>= λ desc. ok (
      libc.sprintf_over (
        (text table ∷ text " " ∷ number a.id ∷ text ", '" ∷ chars name ∷ text "', '" ∷ [])
        ++ ((chars desc ∷ text "', " ∷ number a.protocol ∷ []) ++ (type ++ text ");" ∷ []))))

  unfoldable pub insert_vadapter : Store → Attr → Outcome (ℕ × Attr × Store)
  unfolding insert_text vfmdb_prepare_query run_statement
  insert_vadapter db a =
      insert_text "insert into vfm_vadapter_attr (id, name, desc, protocol) values (" [] a >>= λ q.
      vfmdb_prepare_query sql db q [] [] >>= λ prepared. elim prepared [
        | none ↦ ok (code db_error, a, db)
        | some stmt ↦ run_statement sql db stmt >>= λ (rc, after). ok (rc, a, after)
      ]

  -- The result, the attributes with the id that was chosen, and the database.
  unfoldable pub add_vadapter : Store → Attr → Outcome (ℕ × Attr × Store)
  unfolding generate_vadapter_id insert_vadapter vfmdb_prepare_query vfmdb_execute_query
  add_vadapter db a =
      let query = libc.sprintf (text "select max(id) from vfm_vadapter_attr;" ∷ []) in
      vfmdb_prepare_query sql db query [] [] >>= λ prepared. elim prepared [
        | none ↦ ok (code db_error, a, db)
        | some stmt ↦
            vfmdb_execute_query sql db stmt generate_vadapter_id a >>= λ (rc, chosen, after).
            if rc == 0 then insert_vadapter after chosen else ok (code db_error, chosen, after)
      ]

  -- `sqlite3_exec` passes a null value on as a null pointer.
  unfoldable pub generate_vfabric_id : Row → Attr → Outcome Attr
  generate_vfabric_id [] vfabric = fault
  generate_vfabric_id ((_, largest) ∷ _) vfabric = ok (record {
    id = elim largest [ none ↦ 1 | some v ↦ (libc.atoi v + 1) % 4294967296 ];
    name = vfabric.name;
    desc = vfabric.desc;
    protocol = vfabric.protocol;
  })

  -- `vpsdb_read` with a callback that always returns 0
  unfoldable pub read_rows : {A : Type 0} → (Row → A → Outcome A) → List Row → A → Outcome A
  read_rows sql_cb [] rsc = ok rsc
  read_rows sql_cb (row ∷ rows) rsc = sql_cb row rsc >>= λ next. read_rows sql_cb rows next

  unfoldable pub vpsdb_read :
      {A : Type 0} → Store → List ℕ → (Row → A → Outcome A) → A → Outcome (ℕ × A × Store)
  unfolding read_rows
  vpsdb_read db query sql_cb rsc =
      let r = sql.exec db query in
      read_rows sql_cb r.rows rsc >>= λ after.
      ok ((if r.final == 0 then 0 else code db_error), after, r.after)

  unfoldable pub vpsdb_update : Store → List ℕ → ℕ × Store
  vpsdb_update db query =
      let r = sql.exec db query in ((if r.final == 0 then 0 else code db_error), r.after)

  unfoldable pub add_vfabric : Store → Attr → Outcome (ℕ × Attr × Store)
  unfolding generate_vfabric_id vpsdb_read vpsdb_update insert_text
  add_vfabric db a =
      let query = libc.sprintf (text "select max(id) from vfm_vfabric_attr;" ∷ []) in
      vpsdb_read db query generate_vfabric_id a >>= λ (rc, chosen, after). elim (rc == 0) [
        | false ↦ ok (code db_error, chosen, after)
        | true ↦
            insert_text "insert into vfm_vfabric_attr (id, name, desc, protocol, type) values ("
              (text ", " ∷ number 1 ∷ []) chosen
            >>= λ q. let (rc₂, last) = vpsdb_update after q in ok (rc₂, chosen, last)
      ]

  -- `vpsdb_add_resource` for the two types that the management interface adds
  unfoldable pub vpsdb_add_resource : ResourceType → Store → Attr → Outcome (ℕ × Attr × Store)
  unfolding add_vadapter add_vfabric
  vpsdb_add_resource db_vadapter db a = add_vadapter db a
  vpsdb_add_resource db_vfabric db a = add_vfabric db a
