-- ===== src/Api/Online.antt =====
-- `__vadapter_online` and its handler in src/vps/vfm/vfmapi_vadapter.c, with `process_gateway` of
-- src/vps/vfm/db/db_access.c: the records of an adapter are looked up one after another, and the
-- adapter's host is sent an advertisement. The queries only read: the database stays as it is.
use vfm.Base.{ℕ, ◌%◌, List, [], ◌∷◌, ◌++◌, replicate, le16, ◌==◌, if◌then◌else◌}
use Prim.Native.String.{String}
use vfm.Outcome.{Outcome, ok, err, fault, ◌>>=◌, code, db_error}
use vfm.World.{Config, Env, World}
use vfm.Builder.Create.{create_packet}
use vfm.Db.{Libc, Sqlite, text, number}
use vfm.Db.Column.{same_column}
use vfm.Db.Rows.{Columns, VadapterRow, IoModule, fill, memcpy, process_vadapter, process_io_module}
use vfm.Db.Fabric.{VfabricRow, select, process_vfabric}
use vfm.Api.Tlv.{word_of}
use vfm.Api.Server.{Handler}
use vfm.Api.Handlers.{get_fresh, word_packet}

-- `VFM_ERROR_IOMODULE`
abbrev pub vfm_error_iomodule : ℕ
vfm_error_iomodule = 6

-- the fields of `vfm_gateway_attr_t` that a row fills
pub record GatewayRow : Type 0 where
  pub gw_id : ℕ
  pub physical_index : List ℕ
  pub desc : List ℕ
  pub vfm_guid : ℕ
  pub flood : ℕ
  pub egress_secure : ℕ
  pub ingress_secure : ℕ

unfoldable pub gateway_column : Libc → String × List ℕ → GatewayRow → Outcome GatewayRow
unfolding same_column memcpy
gateway_column libc (col, v) g =
    if same_column col "gw_id"
    then ok (record g { gw_id = libc.atoi v })
    else if same_column col "physical_index"
    then (memcpy 8 v >>= λ s. ok (record g { physical_index = s }))
    else if same_column col "desc"
    then (memcpy 8 v >>= λ s. ok (record g { desc = s }))
    else if same_column col "vfm_guid"
    then ok (record g { vfm_guid = libc.atoi v })
    else if same_column col "flag_f"
    then ok (record g { flood = libc.atoi v % 256 })
    else if same_column col "flag_es"
    then ok (record g { egress_secure = libc.atoi v % 256 })
    else if same_column col "flag_is"
    then ok (record g { ingress_secure = libc.atoi v % 256 })
    else ok g

unfoldable pub process_gateway :
    Libc → (fresh : GatewayRow) → Columns → List GatewayRow → Outcome (ℕ × List GatewayRow)
unfolding fill gateway_column
process_gateway libc fresh cols rsc =
    fill (gateway_column libc) cols fresh >>= λ g. ok (0, rsc ++ g ∷ [])

-- A packet that could not be made or sent is not reported.
unfoldable pub unreported : World → Outcome World → Outcome (ℕ × World)
unreported w (ok after) = ok (0, after)
unreported w (err _) = ok (0, w)
unreported w fault = fault

-- What `realloc` returns holds whatever it held.
pub record Fresh : Type 0 where
  pub vadapter : VadapterRow
  pub io_module : IoModule
  pub gateway : GatewayRow

module _ {Store : Type 0} (sql : Sqlite Store) (libc : Libc) (cfg : Config) (env : Env)
    (padding : ℕ × ℕ) (fresh : Fresh) where
  abbrev pub select_where : String → ℕ → List ℕ
  select_where query id = libc.sprintf (text query ∷ number id ∷ [])

  -- The advertisement: `adv` is cleared, and holds the host's address and the receive size.
  unfoldable pub send_advertisement : World → (mac : List ℕ) → Outcome (ℕ × World)
  unfolding unreported create_packet
  send_advertisement w mac =
      unreported w (create_packet cfg env w padding 1 2 (mac ++ (replicate 8 0 ++ le16 1000)))

  -- The gateway's record is read, but not used, and need not exist.
  unfoldable pub found_vfabric :
      World → Store → IoModule → ℕ × List VfabricRow → Outcome (ℕ × World)
  unfolding select process_gateway send_advertisement
  found_vfabric w db m (rc, []) = if rc == 0 then fault else ok (code db_error, w)
  found_vfabric w db m (rc, f ∷ _) =
      if rc == 0
      then (select sql libc db
            (select_where "select * from vfm_gateway_attr where gw_id = " f.primary_gateway)
            (process_gateway libc fresh.gateway) []
          >>= λ (rc₂, _). if rc₂ == 0 then send_advertisement w m.mac else ok (code db_error, w))
      else ok (code db_error, w)

  -- Where the fabric has no record, the test looks at the number of IO modules instead, and goes on.
  unfoldable pub found_io_module :
      World → Store → VadapterRow → ℕ × List IoModule → Outcome (ℕ × World)
  unfolding select process_vfabric found_vfabric
  found_io_module w db v (rc, []) = ok ((if rc == 0 then vfm_error_iomodule else code db_error), w)
  found_io_module w db v (rc, m ∷ _) =
      if rc == 0
      then (select sql libc db
            (select_where "select * from vfm_vfabric_attr where id = " v.vfabric_id)
            (process_vfabric sql libc db) []
          >>= found_vfabric w db m)
      else ok (code db_error, w)

  unfoldable pub found_vadapter : World → Store → ℕ × List VadapterRow → Outcome (ℕ × World)
  unfolding select process_io_module found_io_module
  found_vadapter w db (rc, []) = ok ((if rc == 0 then vfm_error_iomodule else code db_error), w)
  found_vadapter w db (rc, v ∷ _) =
      if rc == 0
      then (select sql libc db
            (select_where "select * from vfm_io_module_attr where id = " v.io_module_id)
            (process_io_module libc fresh.io_module) []
          >>= found_io_module w db v)
      else ok (code db_error, w)

  -- `__vadapter_online`: the code, and the VFM's state after it
  unfoldable pub activate_vadapter : World → Store → (vadapter_id : ℕ) → Outcome (ℕ × World)
  unfolding select process_vadapter found_vadapter
  activate_vadapter w db id =
      select sql libc db (select_where "select * from vfm_vadapter_attr where id = " id)
        (process_vadapter libc fresh.vadapter) []
      >>= found_vadapter w db

  -- The code of the activation is dropped: the handler returns and reports 0.
  unfoldable pub process_vfm_vadapter_online : Handler (Store × World)
  unfolding get_fresh word_of activate_vadapter word_packet
  process_vfm_vadapter_online buff pos (db, w) = get_fresh 4 buff pos >>= λ (bytes, _).
      word_of bytes >>= λ id.
      activate_vadapter w db id >>= λ (_, after). ok (0, word_packet 0, (db, after))
