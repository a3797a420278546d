-- ===== src/Db/Discovered.antt =====
-- src/vps/vfm/db/vfmdb_iomodule.c, with its caller in src/vps/vfm/vfm_iomodule.c: a discovered IO
-- module is added to the database unless one with its address is there.
use vfm.Base.{ℕ, ◌+◌, ◌%◌, none, some, List, [], ◌∷◌, ◌++◌, ◌==◌, replicate, if◌then◌else◌}
use vfm.Outcome.{Outcome, ok, fault, ◌>>=◌, code, db_error}
use vfm.Ether.{Mac, mac_bytes, Name, name_bytes}
use vfm.Db.{Libc, Sqlite, text, number, vfmdb_prepare_query, vfmdb_execute_query, run_statement}
use vfm.Db.Rows.{Columns, IoModule, process_io_module}

-- `vpsdb_io_module_t` with its id
pub record Discovered : Type 0 where
  pub id : ℕ
  pub io_module : IoModule

-- `EN_IO_MODULE`
abbrev pub en_io_module : ℕ
en_io_module = 1

-- The module of a solicitation. Its id is 0 until it is numbered.
abbrev pub solicited : (host_mac : Mac) → (node_name : Name) → Discovered
solicited host_mac node_name = record {
  id = 0;
  io_module = record {
    name = name_bytes node_name;
    type = en_io_module;
    mac = mac_bytes host_mac;
    guid = replicate 8 0;
    num_vhba = 0;
    num_vnic = 0;
    slot = 0;
    port = 0;
    supported_speed = 0;
  };
}

module _ {Store : Type 0} (sql : Sqlite Store) (libc : Libc) (fresh : IoModule) where
  unfoldable pub generate_io_module_id : Columns → Discovered → Outcome (ℕ × Discovered)
  generate_io_module_id [] d = fault
  generate_io_module_id ((_, v) ∷ _) d =
      ok (0, record { id = (libc.atoi v + 1) % 4294967296; io_module = d.io_module })

  -- The modules that are found, also where the query failed after them; none where it was not
  -- prepared.
  unfoldable pub get_iomodule_by_mac : Store → (mac : List ℕ) → Outcome (List IoModule × Store)
  unfolding vfmdb_prepare_query vfmdb_execute_query process_io_module
  get_iomodule_by_mac db mac =
      vfmdb_prepare_query sql db
        (libc.sprintf (text "select * from vfm_io_module_attr where mac = ?1;" ∷ [])) (b'm' ∷ [])
        (mac ∷ [])
      >>= λ prepared. elim prepared [
        | none ↦ ok ([], db)
        | some stmt ↦
            vfmdb_execute_query sql db stmt (process_io_module libc fresh) []
            >>= λ (_, found, after). ok (found, after)
      ]

  abbrev pub insert_query : Discovered → List ℕ
  insert_query d =
      let m = d.io_module in
      libc.sprintf (
        (text "insert into vfm_io_module_attr(id, name, type, mac, guid, num_vhba, num_vnic, "
          ∷ text "slot, port, supported_speed) values ( "
          ∷ number d.id
          ∷ text ", ?1, "
          ∷ number m.type
          ∷ text ", ?2, ?3,"
          ∷ number m.num_vhba
          ∷ [])
        ++ (text ", "
            ∷ number m.num_vnic
            ∷ text ", "
            ∷ number m.slot
            ∷ text ", "
            ∷ number m.port
            ∷ text ", "
            ∷ number m.supported_speed
            ∷ text " )"
            ∷ []))

  unfoldable pub insert_io_module : Store → Discovered → Outcome (ℕ × Discovered × Store)
  unfolding vfmdb_prepare_query run_statement
  insert_io_module db d =
      let m = d.io_module in
      vfmdb_prepare_query sql db (insert_query d) (b's' ∷ b'm' ∷ b'g' ∷ [])
        (m.name ∷ m.mac ∷ m.guid ∷ [])
      >>= λ prepared. elim prepared [
        | none ↦ ok (code db_error, d, db)
        | some stmt ↦ run_statement sql db stmt >>= λ (rc, after). ok (rc, d, after)
      ]

  -- The id is the number after the largest one.
  unfoldable pub number_io_module : Store → Discovered → Outcome (ℕ × Discovered × Store)
  unfolding vfmdb_prepare_query vfmdb_execute_query generate_io_module_id insert_io_module
  number_io_module db d =
      vfmdb_prepare_query sql db
        (libc.sprintf (text "select max(id) from vfm_io_module_attr;" ∷ [])) [] []
      >>= λ prepared. elim prepared [
        | none ↦ ok (code db_error, d, db)
        | some stmt ↦
            vfmdb_execute_query sql db stmt generate_io_module_id d >>= λ (rc, chosen, after).
            if rc == 0 then insert_io_module after chosen else ok (code db_error, chosen, after)
      ]

  unfoldable pub unless_found :
      Discovered → List IoModule × Store → Outcome (ℕ × Discovered × Store)
  unfolding number_io_module
  unless_found d ([], db) = number_io_module db d
  unless_found d (_ ∷ _, db) = ok (0, d, db)

  unfoldable pub add_io_module : Store → Discovered → Outcome (ℕ × Discovered × Store)
  unfolding get_iomodule_by_mac unless_found
  add_io_module db d = get_iomodule_by_mac db d.io_module.mac >>= unless_found d

  unfoldable pub add_en_io_module_to_db : Store → Mac → Name → Outcome (ℕ × Store)
  unfolding add_io_module
  add_en_io_module_to_db db host_mac node_name =
      add_io_module db (solicited host_mac node_name) >>= λ (rc, _, after). ok (rc, after)
