-- ===== src/Tests/Selection.antt =====
-- The theorems on edits and selections through the management interface at concrete inputs.
use vfm.Base.{
  ℕ, ◌≡◌, refl, inr, true, false, none, some, List, [], ◌∷◌, arith, replicate, ◌==◌, if◌then◌else◌,
  length, length-replicate,
}
use vfm.Outcome.{ok, fault}
use vfm.Db.{
  Libc, Sqlite, Row, Piece, text, number, long_number, chars, row_values, vfmdb_prepare_query,
}
use vfm.Db.Column.{same_column}
use vfm.Db.Rows.{VadapterRow, fill, vadapter_column}
use vfm.Db.Fabric.{VfabricRow, cleared}
use vfm.Db.Adapters.{Adapter, VadapterBits}
use vfm.Db.Fabrics.{VfabricBits}
use vfm.Db.Bridges.{BridgeBits, no_bridge, bridge_column, populate_bridge_information}
use vfm.Db.Unread.{protocol_adapter_faults, short_description_overread}
use vfm.Db.Where.{add_bits, add_query_parameters}
use vfm.Db.Adapters.{vadapter_conditions, populate_vadapter_information}
use vfm.Api.Inventory.{Abi}
use vfm.Api.Structs.{Layout}
use vfm.Api.Server.{Handlers}
use vfm.Api.Edit.{process_vfm_edit_vadapter}
use vfm.Api.Select.{process_vfm_vadapter_select_inventory, process_vfm_vfabric_select_inventory}
use vfm.Api.Selected.{vadapters_arrive}
use vfm.Api.Client.{vfm_vadapter_select_inventory, vadapters}
use vfm.Api.Call.{served}

abbrev first_of : List ℕ → ℕ
first_of [] = 0
first_of (c ∷ _) = c

-- which of the queries a text is
abbrev query_code : List Piece → List ℕ
query_code [] = 0 ∷ []
query_code (text t ∷ _) =
    if same_column t "select count(*) from vfm_vadapter_attr "
    then 1 ∷ []
    else if same_column t "select * from vfm_vadapter_attr "
    then 2 ∷ []
    else if same_column t "select * from vfm_bridge_device "
    then 3 ∷ []
    else if same_column t "Select * from v_vfm_vfabric_attr_with_vadapter_count"
    then 6 ∷ []
    else 4 ∷ []
query_code (number _ ∷ _) = 5 ∷ []
query_code (long_number _ ∷ _) = 5 ∷ []
query_code (chars _ ∷ _) = 5 ∷ []

abbrev pub malloc : ℕ → List ℕ
malloc n = replicate n 170

abbrev pub malloc_sized : (n : ℕ) → length (malloc n) ≡ n
malloc_sized n = length-replicate n 170

abbrev pub libc : Libc
libc = record { sprintf = query_code; sprintf_over = query_code; atoi = first_of; malloc = malloc }

abbrev count_row : Row
count_row = ("count(*)", some (1 ∷ [])) ∷ []

-- an adapter of a fabric whose protocol is the database's number
abbrev adapter_row : ℕ → Row
adapter_row protocol = ("id", some (7 ∷ [])) ∷ ("protocol", some (protocol ∷ [])) ∷ []

abbrev bridge_row : Row
bridge_row =
    ("guid", some (replicate 8 1)) ∷ ("desc", some (b'A' ∷ [])) ∷ ("firmware_version", none) ∷ []

abbrev fabric_row : (id num_vadapter protocol : ℕ) → Row
fabric_row id n p =
    ("id", some (id ∷ [])) ∷ ("vadapter_id", some (n ∷ [])) ∷ ("protocol", some (p ∷ [])) ∷ []

abbrev rows_of : (protocol query : ℕ) → List Row
rows_of protocol query =
    if query == 1
    then count_row ∷ []
    else if query == 2
    then adapter_row protocol ∷ []
    else if query == 3
    then bridge_row ∷ []
    else if query == 6
    then fabric_row 5 2 1 ∷ fabric_row 6 0 3 ∷ []
    else []

abbrev pub sql : Sqlite ℕ
sql = record {
  prepares = λ _ _. true;
  binds = λ _ _ _. true;
  run = λ db s. record { rows = rows_of db (first_of s.query); final = 101; after = db };
  exec = λ db _. record { rows = []; final = 0; after = db };
}

abbrev blank : VadapterRow
blank = record {
  id = 0;
  io_module_id = 0;
  vfabric_id = 0;
  name = b'A' ∷ replicate 63 0;
  desc = replicate 64 0;
  init_type = 0;
  protocol = 0;
}

abbrev pub fresh : Adapter
fresh = record {
  row = blank;
  en_attr = record {
    mac = replicate 6 0;
    vlan = 0;
    mtu = 0;
    promiscuous_mode = 0;
    silent_listener = 0;
  };
  fc_attr = record {
    wwnn = replicate 8 0;
    wwpn = replicate 8 0;
    fcid = replicate 3 0;
    mtu = 0;
    spma = 0;
    fpma = 0;
  };
}

abbrev found : Adapter
found = record fresh { row = record blank { id = 7; protocol = 2 } }

-- bit 0 is that of the name
abbrev bits_of : List ℕ → VadapterBits
bits_of bytes = record {
  id = false;
  state = false;
  init_type = false;
  desc = false;
  name = first_of bytes == 1;
  protocol = false;
  io_module_id = false;
  vfabric_id = false;
}

abbrev no_bits : VfabricBits
no_bits = record {
  backup_gateway = false;
  protocol_attr = false;
  vfm_vfabric_id = false;
  name = false;
  desc = false;
  primary_gateway = false;
  auto_failback = false;
  ctx_table_id = false;
}

abbrev bridge_bits : BridgeBits
bridge_bits = record { guid = true; desc = false; firmware_version = false; vfm_guid = false }

abbrev pub abi : Abi
abi = record {
  vfabric_attr_size = 8;
  num_vadapter_at = 4;
  vadapter_attr_size = 4;
  bd_attr_size = 9;
  num_gw_module_at = 8;
}

abbrev pub layout : Layout
layout = record {
  vadapter_bits_size = 1;
  vadapter_bits = bits_of;
  vadapter_attr = λ _. blank;
  vadapter_state = λ _. 0;
  vadapter_image = λ a. a.row.id ∷ a.row.protocol ∷ 0 ∷ 0 ∷ [];
  en_bits_size = 1;
  en_bits =
      λ _. record { mac = true; vlan = false; promiscuous_mode = false; silent_listener = false };
  en_attr_size = 4;
  en_attr = λ _. fresh.en_attr;
  promiscuous_mode_word = λ _. 0;
  silent_listener_word = λ _. 0;
  vfabric_bits_size = 1;
  vfabric_bits = λ _. no_bits;
  vfabric_attr = λ _. cleared;
  auto_failback_word = λ _. 0;
  vfabric_image = λ f. f.id ∷ 0 ∷ 0 ∷ 0 ∷ f.num_vadapter ∷ 0 ∷ 0 ∷ 0 ∷ [];
  bd_bits_size = 1;
  bd_bits = λ _. bridge_bits;
  bd_attr = λ _. no_bridge;
  bd_image = λ _. replicate 9 0;
}

abbrev handlers : Handlers ℕ
handlers = record {
  create_vadapter = λ _ _ _. fault;
  edit_vadapter = process_vfm_edit_vadapter sql libc abi layout;
  edit_en_attr = λ _ _ _. fault;
  vadapter_select_inventory =
      process_vfm_vadapter_select_inventory abi layout sql libc fresh (replicate 8 0);
  vadapter_online = λ _ _ _. fault;
  vadapter_query_general_attrs = λ _ _ _. fault;
  create_vfabric = λ _ _ _. fault;
  edit_vfabric = λ _ _ _. fault;
  vfabric_online = λ _ _ _. fault;
  vfabric_select_inventory =
      process_vfm_vfabric_select_inventory abi layout sql libc fresh (replicate 8 0);
  bd_select_inventory = λ _ _ _. fault;
  bd_query_general_attr = λ _ _ _. fault;
}

vadapters_arrive_example :
    vfm_vadapter_select_inventory abi (served handlers malloc 2) none (0 ∷ 0 ∷ 0 ∷ 0 ∷ []) (1 ∷ [])
    ≡ ok (some 3, 0, some (vadapters ((7 ∷ 2 ∷ 0 ∷ 0 ∷ []) ∷ [])))
unfolding same_column populate_vadapter_information
vadapters_arrive_example =
    vadapters_arrive sql libc abi layout fresh (replicate 8 0) handlers malloc (1 ∷ [])
      (0 ∷ 0 ∷ 0 ∷ 0 ∷ []) 2 (found ∷ []) refl malloc_sized (λ _. refl) refl refl (omega arith) refl
      (omega arith)

-- a fabric with room for two ids, and one without
abbrev fabrics : List VfabricRow
fabrics =
    record cleared { id = 5; num_vadapter = 2; protocol = 1 }
    ∷ record cleared { id = 6; protocol = 3 }
    ∷ []

protocol_adapter_faults_example :
    populate_vadapter_information sql libc 3 fresh (vadapter_conditions (bits_of []) blank) ≡ fault
unfolding same_column add_bits fill row_values vadapter_column
protocol_adapter_faults_example =
    protocol_adapter_faults sql libc 3 fresh (vadapter_conditions (bits_of []) blank) [] 0
      "count(*)" (1 ∷ []) [] (adapter_row 3) [] 0 (record blank { id = 7; protocol = 3 }) 3 3 101
      refl refl refl refl refl refl refl (inr refl)

short_description_overread_example :
    populate_bridge_information sql libc (replicate 8 0) 2 no_bridge bridge_bits ≡ fault
unfolding same_column add_bits add_query_parameters vfmdb_prepare_query row_values fill
    bridge_column
short_description_overread_example =
    short_description_overread sql libc (replicate 8 0) 2 2 no_bridge bridge_bits (3 ∷ 4 ∷ []) 1
      (record { query = 3 ∷ 4 ∷ b';' ∷ []; bound = replicate 8 0 ∷ [] })
      (("guid", replicate 8 1) ∷ []) (("firmware_version", []) ∷ []) (b'A' ∷ []) bridge_row []
      (record no_bridge { guid = replicate 8 1 }) 101 refl refl refl refl refl (omega arith)
