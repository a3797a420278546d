-- ===== src/Tests/Management.antt =====
-- The theorems on the management interface at concrete inputs.
use vfm.Base.{
  ℕ, ◌+◌, ◌-◌, ◌≡◌, refl, true, none, some, List, [], ◌∷◌, arith, length, replicate,
  length-replicate, if◌then◌else◌, ◌==◌,
}
use vfm.Outcome.{ok, fault, ◌>>=◌}
use vfm.Db.{Libc, Sqlite, Run, Stmt}
use vfm.Db.Vadapter.{Attr, vpsdb_add_resource}
use vfm.Api.{vfm_online, create_ctrl_hdr, mod_id, opcode, vadapter, ApiHdr}
use vfm.Api.Layout.{tlvs}
use vfm.Api.Request.{
  Request, int_arg, build_message, vadapter_create_request, vadapter_edit_request,
  vadapter_select_request, vadapter_destroy_request, vadapter_online_request,
  vfabric_create_request, vfabric_edit_request, vfabric_online_request, vfabric_select_request,
  bd_select_request,
}
use vfm.Api.Sizes.{IsExact, requests_fit}
use vfm.Api.ReadBack.{received, request_received}
use vfm.Api.Inventory.{Abi, Listed}
use vfm.Api.Server.{Handlers, process_client_request, recv_over}
use vfm.Api.Handlers.{word_packet, process_vfm_create_vadapter}
use vfm.Api.Client.{vfm_vadapter_create}
use vfm.Api.Call.{served}
use vfm.Api.Activate.{destroy_unanswered, message_of}
use vfm.Api.Create.{vadapter_created}

abbrev digit : List ℕ → ℕ
digit [] = 0
digit (c ∷ _) = c - 48

abbrev first_of : List ℕ → ℕ
first_of [] = 0
first_of (c ∷ _) = c

abbrev malloc : ℕ → List ℕ
malloc n = replicate n 170

malloc_sized : (n : ℕ) → length (malloc n) ≡ n
malloc_sized n = length-replicate n 170

abbrev libc : Libc
libc = record { sprintf = λ _. 1 ∷ []; sprintf_over = λ _. 2 ∷ []; atoi = digit; malloc = malloc }

-- a table of ids up to a number
abbrev one_run : ℕ → Stmt → Run ℕ
one_run db s =
    if first_of s.query == 1
    then record { rows = (("max(id)", some ((48 + db) ∷ [])) ∷ []) ∷ []; final = 101; after = db }
    else record { rows = []; final = 101; after = db + 1 }

abbrev sql : Sqlite ℕ
sql = record {
  prepares = λ _ _. true;
  binds = λ _ _ _. true;
  run = one_run;
  exec = λ db _. record { rows = []; final = 0; after = db };
}

abbrev handlers : Handlers ℕ
handlers = record {
  create_vadapter = process_vfm_create_vadapter sql libc;
  edit_vadapter = λ _ _ _. fault;
  edit_en_attr = λ _ _ _. fault;
  vadapter_select_inventory = λ _ _ _. fault;
  vadapter_online = λ _ _ db. ok (100, word_packet 100, db);
  vadapter_query_general_attrs = λ _ _ _. fault;
  create_vfabric = λ _ _ _. fault;
  edit_vfabric = λ _ _ _. fault;
  vfabric_online = λ _ _ db. ok (4, word_packet 4, db);
  vfabric_select_inventory = λ _ _ _. fault;
  bd_select_inventory = λ _ _ _. fault;
  bd_query_general_attr = λ _ _ _. fault;
}

abbrev abi : Abi
abi = record {
  vfabric_attr_size = 8;
  num_vadapter_at = 4;
  vadapter_attr_size = 4;
  bd_attr_size = 9;
  num_gw_module_at = 8;
}

abbrev text64 : List ℕ
text64 = 65 ∷ replicate 63 0

abbrev attr5 : Attr
attr5 = record { id = 5; name = text64; desc = text64; protocol = 2 }

vadapter_created_example :
    vfm_vadapter_create abi (served handlers malloc 4) none text64 text64 2 ≡ ok (some 3, 0, some 5)
unfolding vpsdb_add_resource
vadapter_created_example =
    vadapter_created sql libc abi handlers malloc text64 text64 2 0 attr5 4 5 refl malloc_sized
      (omega arith) (omega arith) (omega arith) (omega arith) (omega arith) refl

abbrev attr0 : Attr
attr0 = record { id = 0; name = text64; desc = text64; protocol = 2 }

requests_fit_example :
    IsExact (vadapter_create_request text64 text64 2)
    × IsExact (vadapter_edit_request 7 (1 ∷ 2 ∷ []) (3 ∷ []))
    × IsExact (vadapter_select_request (3 ∷ []) (1 ∷ 2 ∷ []))
    × IsExact (vadapter_destroy_request 7)
    × IsExact (vadapter_online_request 7)
    × IsExact (vfabric_create_request text64 text64 2)
    × IsExact (vfabric_edit_request 7 (1 ∷ 2 ∷ []) (3 ∷ []))
    × IsExact (vfabric_online_request 7)
    × IsExact (vfabric_select_request (3 ∷ []) (1 ∷ 2 ∷ []))
    × IsExact (bd_select_request (3 ∷ []) (1 ∷ 2 ∷ []))
requests_fit_example =
    requests_fit text64 text64 (1 ∷ 2 ∷ []) (3 ∷ []) 7 2 (omega arith) (omega arith)

abbrev edit_request : Request
edit_request = record {
  module_id = vadapter;
  operation = vfm_online;
  mesg_len = 30;
  args = int_arg 7 ∷ record { type = 16; len = 2; value = 1 ∷ 2 ∷ 3 ∷ [] } ∷ [];
}

request_received_example :
    (build_message edit_request >>= received ((9 ∷ 9 ∷ 9 ∷ 9 ∷ []) ∷ (9 ∷ 9 ∷ []) ∷ []))
    ≡ ok (
      create_ctrl_hdr (mod_id vadapter) (opcode vfm_online) 30,
      (7 ∷ 0 ∷ 0 ∷ 0 ∷ []) ∷ (1 ∷ 2 ∷ []) ∷ [],
    )
unfolding tlvs
request_received_example =
    request_received edit_request ((9 ∷ 9 ∷ 9 ∷ 9 ∷ []) ∷ (9 ∷ 9 ∷ []) ∷ [])
      ((omega arith, (omega arith, tt)), refl) (omega arith) (refl, (refl, tt))

abbrev bridges : List Listed
bridges =
    record { attr = 1 ∷ 2 ∷ 3 ∷ 4 ∷ 5 ∷ 6 ∷ 7 ∷ 8 ∷ 1 ∷ []; array = replicate 8 9 }
    ∷ record { attr = 8 ∷ 7 ∷ 6 ∷ 5 ∷ 4 ∷ 3 ∷ 2 ∷ 1 ∷ 0 ∷ []; array = [] }
    ∷ []

abbrev online_hdr : ApiHdr
online_hdr = record { mod_id = 3; opcode = 6; reserved = 0; length = 20 }

destroy_unanswered_example :
    (build_message (vadapter_destroy_request 7) ≡ ok (message_of (vadapter_destroy_request 7)))
    × (process_client_request handlers malloc none []
          (message_of (vadapter_destroy_request 7) ∷ [])
          4
        ≡ fault)
    × (process_client_request handlers malloc
          (some 0)
          []
          (message_of (vadapter_destroy_request 7) ∷ [])
          4
        ≡ process_client_request handlers malloc
            (some 0)
            (recv_over (message_of (vadapter_destroy_request 7)) [])
            []
            4)
destroy_unanswered_example = destroy_unanswered handlers malloc malloc_sized abi 7 4 [] []
