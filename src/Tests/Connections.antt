-- ===== src/Tests/Connections.antt =====
-- The theorems on connections to the server's own handlers at concrete inputs.
use vfm.Base.{ℕ, ◌≡◌, refl, none, List, [], ◌∷◌, length, replicate}
use vfm.Outcome.{Outcome, ok, err, fault}
use vfm.World.{World}
use vfm.Api.Request.{vadapter_edit_request, vadapter_destroy_request}
use vfm.Api.Activate.{message_of}
use vfm.Api.Server.{process_client_request}
use vfm.Api.Table.{Machine, server}
use vfm.Api.Passive.{is_activation, connection-passive}
use vfm.Tests.Data.{cfg, env, w}
use vfm.Tests.Activation
use vfm.Tests.Selection.{sql, libc, malloc, abi, layout, fresh}

abbrev machine : Machine ℕ
machine = record {
  sql = sql;
  libc = libc;
  abi = abi;
  layout = layout;
  cfg = cfg;
  env = env;
  padding = (0, 0);
  fresh = Activation.fresh;
  fresh_adapter = fresh;
  fresh_module = replicate 8 0;
  garbage_id = 7;
}

-- an edit that is answered, a request that is not, and two bytes before what the buffer holds
abbrev messages : List (List ℕ)
messages =
    message_of (vadapter_edit_request 7 (1 ∷ []) (0 ∷ 0 ∷ []))
    ∷ message_of (vadapter_destroy_request 7)
    ∷ (3 ∷ 5 ∷ [])
    ∷ []

abbrev before : ℕ × World
before = (2, w)

-- what a run leaves, and what was there before it where it leaves nothing
abbrev left : (s : ℕ × World) → Outcome (List (List ℕ) × (ℕ × World)) → List (List ℕ) × (ℕ × World)
left s fault = ([], s)
left s (err _) = ([], s)
left s (ok r) = r

abbrev result : List (List ℕ) × (ℕ × World)
result = left before (process_client_request (server machine) malloc none [] messages before)

result_sends : length result.0 ≡ 1
unfolding vfm.Api.Tlv.read_api_ctrl_hdr vfm.Api.ctrl_hdr_bytes vfm.Api.Server.case_of
    vfm.Api.module_of vfm.Api.create_ctrl_hdr vfm.Api.mod_id vadapter_edit_request
    vfm.Api.operation_of vfm.Api.opcode vfm.Api.Layout.tlvs vfm.Api.Response.vfm_marshall_response
    vfm.Api.Tlv.append_bytes vfm.Api.Server.reported vfm.Api.Response.result_tlv
    vadapter_destroy_request process_client_request server
result_sends = refl

connection-passive_example : result.1.1 ≡ before.1
unfolding is_activation vfm.Api.Tlv.read_api_ctrl_hdr vfm.Api.ctrl_hdr_bytes vfm.Api.Server.case_of
    vfm.Api.module_of vfm.Api.create_ctrl_hdr vfm.Api.mod_id vadapter_edit_request
    vfm.Api.operation_of vfm.Api.opcode vfm.Api.Layout.tlvs vfm.Api.Response.vfm_marshall_response
    vfm.Api.Tlv.append_bytes vfm.Api.Server.reported vfm.Api.Response.result_tlv
    vadapter_destroy_request process_client_request server
connection-passive_example =
    connection-passive machine malloc none [] messages result.0 before result.1
      (refl, (refl, (refl, tt))) refl
