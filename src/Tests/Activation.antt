-- ===== src/Tests/Activation.antt =====
-- The theorems on the activation of virtual adapters at concrete inputs.
use vfm.Base.{
  ℕ, ◌≡◌, refl, true, none, some, List, [], ◌∷◌, arith, replicate, ◌==◌, if◌then◌else◌, length,
  length-replicate,
}
use vfm.Outcome.{ok, fault}
use vfm.World.{World}
use vfm.Db.{Libc, Sqlite, Row, Piece, text, number, long_number, chars}
use vfm.Db.Column.{same_column}
use vfm.Db.Rows.{VadapterRow, IoModule, process_vadapter, process_io_module}
use vfm.Db.Fabric.{
  VfabricRow, cleared, select, vfabric_column, populate_vadapter_id, process_vadapter_id,
  unset_pack,
}
use vfm.Api.Inventory.{Abi}
use vfm.Api.Handlers.{word_packet}
use vfm.Api.Server.{Handlers}
use vfm.Api.Client.{vfm_vadapter_online, vfm_vfabric_online}
use vfm.Api.Call.{served}
use vfm.Api.Online.{Fresh, activate_vadapter, process_vfm_vadapter_online, vfm_error_iomodule}
use vfm.Api.Lookup.{unknown_adapter_online, attached_adapter_overruns}
use vfm.Api.FabricOnline.{process_vfm_vfabric_online, empty_fabric_refused, vfm_error_vfabric}
use vfm.Api.Request.{vfabric_online_request}
use vfm.Api.Activate.{message_of}
use vfm.Ether.{name, name_bytes}
use vfm.Db.Discovered.{add_en_io_module_to_db}
use vfm.Db.Unterminated.{AllNonzero, new_module_overread}
use vfm.Tests.Data.{host_mac, cfg, env, w}

-- which of the queries a text is
abbrev query_code : List Piece → List ℕ
query_code [] = 0 ∷ []
query_code (text t ∷ _) =
    if same_column t "select * from vfm_vadapter_attr where id = "
    then 1 ∷ []
    else if same_column t "select * from vfm_io_module_attr where id = "
    then 2 ∷ []
    else if same_column t "select * from vfm_vfabric_attr where id = "
    then 3 ∷ []
    else if same_column t "select max(id) from vfm_io_module_attr;"
    then 5 ∷ []
    else 4 ∷ []
query_code (number _ ∷ _) = 0 ∷ []
query_code (long_number _ ∷ _) = 0 ∷ []
query_code (chars _ ∷ _) = 0 ∷ []

abbrev padding : ℕ × ℕ
padding = (0, 0)

abbrev code_of : List ℕ → ℕ
code_of [] = 0
code_of (c ∷ s) = c

abbrev libc : Libc
libc = record {
  sprintf = query_code;
  sprintf_over = λ _. [];
  atoi = code_of;
  malloc = λ n. replicate n 170;
}

abbrev adapter_row : Row
adapter_row = ("id", some (7 ∷ [])) ∷ ("io_module_id", some (8 ∷ [])) ∷ []

abbrev module_row : Row
module_row = ("type", some (1 ∷ [])) ∷ []

abbrev fabric_row : Row
fabric_row = ("id", some (9 ∷ [])) ∷ ("protocol", some (3 ∷ [])) ∷ []

abbrev id_row : Row
id_row = ("id", some (7 ∷ [])) ∷ []

-- which queries find a row, by the database: none, or the adapter's and the IO module's, or all
abbrev rows_of : (db query : ℕ) → List Row
rows_of db query =
    if query == 1
    then (if db == 0 then [] else adapter_row ∷ [])
    else if query == 2
    then (if db == 0 then [] else module_row ∷ [])
    else if query == 3
    then (if db == 2 then fabric_row ∷ [] else [])
    else if query == 4
    then (if db == 2 then id_row ∷ [] else [])
    else if query == 5
    then (("max(id)", some (7 ∷ [])) ∷ []) ∷ []
    else []

abbrev sql : Sqlite ℕ
sql = record {
  prepares = λ _ _. true;
  binds = λ _ _ _. true;
  run = λ db s. record { rows = rows_of db (code_of s.query); final = 101; after = db };
  exec = λ db _. record { rows = []; final = 0; after = db };
}

abbrev blank : VadapterRow
blank = record {
  id = 0;
  io_module_id = 0;
  vfabric_id = 0;
  name = replicate 64 0;
  desc = replicate 64 0;
  init_type = 0;
  protocol = 0;
}

abbrev blank_module : IoModule
blank_module = record {
  name = replicate 8 0;
  type = 0;
  mac = replicate 6 0;
  guid = replicate 8 0;
  num_vhba = 0;
  num_vnic = 0;
  slot = 0;
  port = 0;
  supported_speed = 0;
}

abbrev pub fresh : Fresh
fresh = record {
  vadapter = blank;
  io_module = blank_module;
  gateway = record {
    gw_id = 0;
    physical_index = replicate 8 0;
    desc = replicate 8 0;
    vfm_guid = 0;
    flood = 0;
    egress_secure = 0;
    ingress_secure = 0;
  };
}

abbrev adapter : VadapterRow
adapter = record blank { id = 7; io_module_id = 8 }

abbrev io_module : IoModule
io_module = record blank_module { type = 1 }

abbrev fabric : VfabricRow
fabric = record cleared { id = 9; protocol = 3 }

attached_adapter_overruns_example :
    (activate_vadapter sql libc cfg env padding fresh w 2 7 ≡ fault)
    × (populate_vadapter_id sql libc 2 9 (unset_pack 0) ≡ fault)
    × (process_vadapter_id libc (("id", 7 ∷ []) ∷ []) (record { ids = none ∷ []; count = some 0 })
        ≡ ok (0, record { ids = some 7 ∷ []; count = some 1 }))
unfolding same_column select process_vadapter process_io_module vfabric_column
attached_adapter_overruns_example =
    attached_adapter_overruns sql libc cfg env padding fresh 7 2 w adapter [] io_module []
      fabric_row (7 ∷ []) [] [] fabric [] refl refl refl refl refl refl refl

abbrev malloc_sized : (n : ℕ) → length (libc.malloc n) ≡ n
malloc_sized n = length-replicate n 170

abbrev handlers : Handlers (ℕ × World)
handlers = record {
  create_vadapter = λ _ _ _. fault;
  edit_vadapter = λ _ _ _. fault;
  edit_en_attr = λ _ _ _. fault;
  vadapter_select_inventory = λ _ _ _. fault;
  vadapter_online = process_vfm_vadapter_online sql libc cfg env padding fresh;
  vadapter_query_general_attrs = λ _ _ _. fault;
  create_vfabric = λ _ _ _. fault;
  edit_vfabric = λ _ _ _. fault;
  vfabric_online = process_vfm_vfabric_online sql libc cfg env padding fresh;
  vfabric_select_inventory = λ _ _ _. fault;
  bd_select_inventory = λ _ _ _. fault;
  bd_query_general_attr = λ _ _ _. fault;
}

abbrev abi : Abi
abi = record {
  vfabric_attr_size = 8;
  num_vadapter_at = 4;
  vadapter_attr_size = 4;
  bd_attr_size = 9;
  num_gw_module_at = 8;
}

unknown_adapter_online_example :
    (activate_vadapter sql libc cfg env padding fresh w 0 7 ≡ ok (vfm_error_iomodule, w))
    × (vfm_vadapter_online abi (served handlers libc.malloc (0, w)) none 7 ≡ ok (some 3, 0))
unfolding same_column select
unknown_adapter_online_example =
    unknown_adapter_online sql libc cfg env padding fresh abi handlers libc.malloc 7 0 w
      malloc_sized (λ _ _ _. refl) (omega arith) refl

empty_fabric_refused_example :
    (process_vfm_vfabric_online sql libc cfg env padding fresh
        (message_of (vfabric_online_request 9))
        8
        (0, w)
      ≡ ok (vfm_error_vfabric, word_packet vfm_error_vfabric, (0, w)))
    × (vfm_vfabric_online abi (served handlers libc.malloc (0, w)) none 9
        ≡ ok (some 3, vfm_error_vfabric))
unfolding same_column select
empty_fabric_refused_example =
    empty_fabric_refused sql libc cfg env padding fresh abi handlers libc.malloc 9 0 w malloc_sized
      (λ _ _ _. refl) (omega arith) refl

abbrev all_set : AllNonzero (name_bytes (name 1 2 3 4 5 6 7 8))
all_set = (
  λ e. omega arith,
  (
    λ e. omega arith,
    (
      λ e. omega arith,
      (
        λ e. omega arith,
        (λ e. omega arith, (λ e. omega arith, (λ e. omega arith, (λ e. omega arith, tt)))),
      ),
    ),
  ),
)

new_module_overread_example :
    add_en_io_module_to_db sql libc blank_module 0 host_mac (name 1 2 3 4 5 6 7 8) ≡ fault
unfolding same_column
new_module_overread_example =
    new_module_overread sql libc blank_module host_mac (name 1 2 3 4 5 6 7 8) "max(id)"
      (some (7 ∷ [])) [] 0 0 0 101 all_set refl refl refl refl refl refl
