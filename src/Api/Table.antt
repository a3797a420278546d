-- ===== src/Api/Table.antt =====
-- The functions that `unmarshall_request` of src/vps/vfm/vfmapi_impl.c calls, over one state: the
-- database, and the globals with the frames that were sent.
use vfm.Base.{ℕ, List}
use vfm.World.{Config, Env, World}
use vfm.Db.{Libc, Sqlite, Run}
use vfm.Db.Adapters.{Adapter}
use vfm.Api.Inventory.{Abi}
use vfm.Api.Structs.{Layout}
use vfm.Api.Server.{Handlers}
use vfm.Api.Handlers.{process_vfm_create_vadapter, process_vfm_create_vfabric}
use vfm.Api.Online.{Fresh, process_vfm_vadapter_online}
use vfm.Api.FabricOnline.{process_vfm_vfabric_online}
use vfm.Api.Edit.{process_vfm_edit_vadapter, process_vfm_edit_vfabric, process_vfm_edit_en_attr}
use vfm.Api.Select.{
  process_vfm_vadapter_select_inventory, process_vfm_vfabric_select_inventory,
  process_vfm_bd_select_inventory, process_vfm_bd_query_general_attr,
  process_vfm_vadapter_query_general_attrs,
}

-- What the server runs on: the libraries, the compiler's layout, the globals that stay, and what
-- memory that was never written holds.
pub record Machine (Store : Type 0) : Type 0 where
  pub sql : Sqlite Store
  pub libc : Libc
  pub abi : Abi
  pub layout : Layout
  pub cfg : Config
  pub env : Env
  pub padding : ℕ × ℕ
  pub fresh : Fresh
  pub fresh_adapter : Adapter
  pub fresh_module : List ℕ
  pub garbage_id : ℕ

-- The database beside the globals: a statement does not touch them.
abbrev beside : {Store : Type 0} → World → Run Store → Run (Store × World)
beside w r = record { rows = r.rows; final = r.final; after = (r.after, w) }

abbrev pub with_world : {Store : Type 0} → Sqlite Store → Sqlite (Store × World)
with_world sql = record {
  prepares = λ (db, _) query. sql.prepares db query;
  binds = λ (db, _) stmt str. sql.binds db stmt str;
  run = λ (db, w) stmt. beside w (sql.run db stmt);
  exec = λ (db, w) query. beside w (sql.exec db query);
}

unfoldable pub server : {Store : Type 0} → Machine Store → Handlers (Store × World)
unfolding process_vfm_create_vadapter process_vfm_edit_vadapter process_vfm_edit_en_attr
    process_vfm_vadapter_select_inventory process_vfm_vadapter_online
    process_vfm_vadapter_query_general_attrs process_vfm_create_vfabric process_vfm_edit_vfabric
    process_vfm_vfabric_online process_vfm_vfabric_select_inventory process_vfm_bd_select_inventory
    process_vfm_bd_query_general_attr
server s =
    let sql = with_world s.sql in
    record {
      create_vadapter = process_vfm_create_vadapter sql s.libc;
      edit_vadapter = process_vfm_edit_vadapter sql s.libc s.abi s.layout;
      edit_en_attr = process_vfm_edit_en_attr sql s.libc s.abi s.layout;
      vadapter_select_inventory =
          process_vfm_vadapter_select_inventory s.abi s.layout sql s.libc s.fresh_adapter
            s.fresh_module;
      vadapter_online = process_vfm_vadapter_online s.sql s.libc s.cfg s.env s.padding s.fresh;
      vadapter_query_general_attrs = process_vfm_vadapter_query_general_attrs;
      create_vfabric = process_vfm_create_vfabric sql s.libc s.garbage_id;
      edit_vfabric = process_vfm_edit_vfabric sql s.libc s.abi s.layout;
      vfabric_online = process_vfm_vfabric_online s.sql s.libc s.cfg s.env s.padding s.fresh;
      vfabric_select_inventory =
          process_vfm_vfabric_select_inventory s.abi s.layout sql s.libc s.fresh_adapter
            s.fresh_module;
      bd_select_inventory =
          process_vfm_bd_select_inventory s.abi s.layout sql s.libc s.fresh_adapter s.fresh_module;
      bd_query_general_attr =
          process_vfm_bd_query_general_attr s.abi s.layout sql s.libc s.fresh_adapter
            s.fresh_module;
    }
