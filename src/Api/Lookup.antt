-- ===== src/Api/Lookup.antt =====
-- What the activation of a virtual adapter does, for what the database holds.
use vfm.Base.{
  ℕ, ◌≡◌, ap, ◌∙◌, arith, Option, none, true, some, List, [], ◌∷◌, ◌++◌, length, drop, le32,
  of_le32-le32, IsWord32, lt→ltb,
}
use vfm.Outcome.{Outcome, ok, fault, ◌>>=◌}
use vfm.Ether.{Mac, mac_bytes, name}
use vfm.World.{Config, Env, World}
use vfm.Fip.Read.{read_eth_hdr, read_ctrl_hdr}
use vfm.Sender.Fc.{after_send}
use vfm.Sender.Frame.{fip_header}
use vfm.Builder.Create.{create_packet}
use vfm.Builder.Advert.{advert_of, advert_ctrl, advertised}
use vfm.Db.{
  Libc, Sqlite, Stmt, Row, row_values, vfmdb_prepare_query, bind_args, vfmdb_execute_query,
  process_rows, process_row,
}
use vfm.Db.Column.{same_column}
use vfm.Db.Rows.{VadapterRow, IoModule, process_vadapter, process_io_module, fill}
use vfm.Db.Fabric.{
  VfabricRow, select, process_vfabric, vfabric_column, cleared, attached_query,
  populate_vadapter_id, process_vadapter_id, vadapter_id_column, unset_pack,
}
use vfm.Api.Layout.{tlvs}
use vfm.Api.Request.{int_arg, vadapter_online_request}
use vfm.Api.Sizes.{request_hdr, length-request_hdr}
use vfm.Api.ReadBack.{unpack_tlv-reads}
use vfm.Api.Server.{Handlers}
use vfm.Api.Handlers.{get_fresh, word_packet}
use vfm.Api.Inventory.{Abi}
use vfm.Api.Client.{vfm_vadapter_online}
use vfm.Api.Call.{served}
use vfm.Api.Activate.{message_of, adapter_online_succeeds}
use vfm.Api.Online.{
  Fresh, GatewayRow, process_gateway, found_vfabric, found_io_module, found_vadapter,
  activate_vadapter, process_vfm_vadapter_online, vfm_error_iomodule, select_where,
  send_advertisement, unreported,
}

module _ {Store : Type 0} (sql : Sqlite Store) (libc : Libc) (cfg : Config) (env : Env)
    (padding : ℕ × ℕ) (fresh : Fresh) where
  abbrev adapters : Store → ℕ → Outcome (ℕ × List VadapterRow)
  adapters db id =
      select sql libc db
        (select_where sql libc cfg env padding fresh "select * from vfm_vadapter_attr where id = "
          id)
        (process_vadapter libc fresh.vadapter) []

  abbrev fabric_query : VadapterRow → List ℕ
  fabric_query v =
      select_where sql libc cfg env padding fresh "select * from vfm_vfabric_attr where id = "
        v.vfabric_id

  abbrev io_modules : Store → VadapterRow → Outcome (ℕ × List IoModule)
  io_modules db v =
      select sql libc db
        (select_where sql libc cfg env padding fresh "select * from vfm_io_module_attr where id = "
          v.io_module_id)
        (process_io_module libc fresh.io_module) []

  abbrev vfabrics : Store → VadapterRow → Outcome (ℕ × List VfabricRow)
  vfabrics db v = select sql libc db (fabric_query v) (process_vfabric sql libc db) []

  abbrev gateways : Store → VfabricRow → Outcome (ℕ × List GatewayRow)
  gateways db f =
      select sql libc db
        (select_where sql libc cfg env padding fresh "select * from vfm_gateway_attr where gw_id = "
          f.primary_gateway)
        (process_gateway libc fresh.gateway) []

  -- the handler reads the id of an activation
  handler_reads :
      (id code : ℕ) (db : Store) (w after : World)
      → IsWord32 id
      → activate_vadapter sql libc cfg env padding fresh w db id ≡ ok (code, after)
      → process_vfm_vadapter_online sql libc cfg env padding fresh
          (message_of (vadapter_online_request id))
          8
          (db, w)
        ≡ ok (0, word_packet 0, (db, after))
  unfolding process_vfm_vadapter_online get_fresh tlvs vadapter_online_request
  handler_reads id code db w after small e =
      let r = vadapter_online_request id in
      rw
        (unpack_tlv-reads (int_arg id) 8 (request_hdr r) [] (length-request_hdr r) (omega arith)
          (omega arith))
        (ap
            (λ x. activate_vadapter sql libc cfg env padding fresh w db x >>= λ (_, next).
              ok (0, word_packet 0, (db, next)))
            (of_le32-le32 id small)
          ∙ rw e)

  -- An adapter with an IO module but without a record of its fabric: the test that should catch it
  -- looks at the number of IO modules, and the missing record is read.
  pub fabric_missing_read :
      (id : ℕ) (db : Store) (w : World) (v : VadapterRow) (vs : List VadapterRow) (m : IoModule)
      (ms : List IoModule)
      → adapters db id ≡ ok (0, v ∷ vs)
      → io_modules db v ≡ ok (0, m ∷ ms)
      → vfabrics db v ≡ ok (0, [])
      → activate_vadapter sql libc cfg env padding fresh w db id ≡ fault
  unfolding activate_vadapter found_vadapter found_io_module found_vfabric
  fabric_missing_read id db w v vs m ms e1 e2 e3 = rw (e1, e2, e3)

  abbrev plain : List ℕ → Stmt
  plain query = record { query = query; bound = [] }

  -- An adapter whose records are found, of a fabric with an adapter attached: while the fabric's
  -- first record is read, `populate_vadapter_id` reads the count for the first id, which was never
  -- set. Given a count of 0 and room, the same callback stores the id there and counts it.
  pub attached_adapter_overruns :
      (id : ℕ) (db : Store) (w : World) (v : VadapterRow) (vs : List VadapterRow) (m : IoModule)
      (ms : List IoModule) (row : Row) (v' : List ℕ) (rows more : List Row) (f : VfabricRow)
      (room : List (Option ℕ))
      → adapters db id ≡ ok (0, v ∷ vs)
      → io_modules db v ≡ ok (0, m ∷ ms)
      → sql.prepares db (fabric_query v) ≡ true
      → (sql.run db (plain (fabric_query v))).rows ≡ row ∷ rows
      → fill (vfabric_column libc) (row_values row) cleared ≡ ok f
      → sql.prepares db (attached_query libc f.id) ≡ true
      → (sql.run db (plain (attached_query libc f.id))).rows ≡ (("id", some v') ∷ []) ∷ more
      → (activate_vadapter sql libc cfg env padding fresh w db id ≡ fault)
        × (populate_vadapter_id sql libc db f.id (unset_pack f.num_vadapter) ≡ fault)
        × (process_vadapter_id libc (("id", v') ∷ []) (record { ids = none ∷ room; count = some 0 })
            ≡ ok (0, record { ids = some (libc.atoi v') ∷ room; count = some 1 }))
  unfolding activate_vadapter found_vadapter found_io_module select vfmdb_prepare_query bind_args
      vfmdb_execute_query process_rows process_row process_vfabric populate_vadapter_id
      process_vadapter_id vadapter_id_column fill same_column
  attached_adapter_overruns id db w v vs m ms row v' rows more f room e1 e2 e3 e4 e5 e6 e7 = (
    rw (e1, e2, e3, e4, e5, e6, e7),
    rw (e6, e7),
    rw (lt→ltb 0 (length (none ∷ room)) (omega arith)),
  )

  -- With a record of the adapter, of its IO module and of its fabric, an activation sends the IO
  -- module's address a frame that reads as an advertisement with the unicast flags from the bridge,
  -- whatever gateways the query for the fabric's gateway finds.
  pub activation_advertises :
      (id : ℕ) (db : Store) (w : World) (v : VadapterRow) (vs : List VadapterRow) (m : IoModule)
      (ms : List IoModule) (fab : VfabricRow) (fs : List VfabricRow) (gs : List GatewayRow)
      (a : Mac)
      → adapters db id ≡ ok (0, v ∷ vs)
      → io_modules db v ≡ ok (0, m ∷ ms)
      → vfabrics db v ≡ ok (0, fab ∷ fs)
      → gateways db fab ≡ ok (0, gs)
      → m.mac ≡ mac_bytes a
      → (f : List ℕ) × (activate_vadapter sql libc cfg env padding fresh w db id
          ≡ ok (0, after_send env w f))
        × (read_eth_hdr f (length f) 40 ≡ ok (fip_header a cfg.g_bridge_enc_mac, 56))
        × (read_ctrl_hdr f (length f) 56 ≡ ok (advert_ctrl a 6, 64))
        × (drop 64 f ≡ advert_of cfg ++ le32 0)
  unfolding activate_vadapter found_vadapter found_io_module found_vfabric send_advertisement
      unreported create_packet
  activation_advertises id db w v vs m ms fab fs gs a e1 e2 e3 e4 e5 =
      let (f, out, r1, r2, r3) =
        advertised cfg env w padding 6 a (name 0 0 0 0 0 0 0 0) 232 3 [] (omega arith) in
      (f, rw (e1, e2, e3, e4, e5, out), r1, r2, r3)

  -- Where there is no record of the adapter, nothing is sent and the activation's code is
  -- `VFM_ERROR_IOMODULE`, but the client's call returns 0.
  pub unknown_adapter_online :
      (abi : Abi) (h : Handlers (Store × World)) (malloc : ℕ → List ℕ) (id : ℕ) (db : Store)
      (w : World)
      → ((n : ℕ) → length (malloc n) ≡ n)
      → ((buff : List ℕ) (pos : ℕ) (s : Store × World)
          → h.vadapter_online buff pos s
            ≡ process_vfm_vadapter_online sql libc cfg env padding fresh buff pos s)
      → IsWord32 id
      → adapters db id ≡ ok (0, [])
      → (activate_vadapter sql libc cfg env padding fresh w db id ≡ ok (vfm_error_iomodule, w))
        × (vfm_vadapter_online abi (served h malloc (db, w)) none id ≡ ok (some 3, 0))
  unfolding activate_vadapter found_vadapter
  unknown_adapter_online abi h malloc id db w sized runs small e =
      let fails : activate_vadapter sql libc cfg env padding fresh w db id
          ≡ ok (vfm_error_iomodule, w) =
        rw e in
      (
        fails,
        adapter_online_succeeds h malloc sized abi id 0 0 (db, w) (db, w) (omega arith)
            (runs (message_of (vadapter_online_request id)) 8 (db, w)
              ∙ handler_reads id vfm_error_iomodule db w w small fails),
      )
