-- ===== src/Api/Server.antt =====
-- src/vps/vfm/vfmapi_impl.c and src/vps/vfm/vfmapi_server.c: a request is dispatched to the
-- handler of its module and operation, and the handler's result is sent back.
use vfm.Base.{
  ℕ, Bool, true, false, Option, none, some, List, [], ◌∷◌, ◌++◌, length, drop, ◌==◌, if◌then◌else◌,
}
use vfm.Outcome.{Outcome, ok, fault, ◌>>=◌}
use vfm.Api.{
  ApiModule, vadapter, bridge_device, vfabric, Operation, vfm_create, vfm_edit, vfm_query,
  vfm_query_inventory, vfm_online, vfm_edit_protocol_attr, vfm_error, opcode, ApiHdr, module_of,
  operation_of, ResPacket,
}
use vfm.Api.Tlv.{read_api_ctrl_hdr}
use vfm.Api.Response.{vfm_marshall_response}

-- A handler: the message and the offset behind its header; the database before; the code that it
-- returns, what it leaves for the response, and the database after.
abbrev pub Handler : Type 0 → Type 0
Handler Store = (buff : List ℕ) → (ret_pos : ℕ) → Store → Outcome (ℕ × ResPacket × Store)

-- the functions that `unmarshall_request` calls
pub record Handlers (Store : Type 0) : Type 0 where
  pub create_vadapter : Handler Store
  pub edit_vadapter : Handler Store
  pub edit_en_attr : Handler Store
  pub vadapter_select_inventory : Handler Store
  pub vadapter_online : Handler Store
  pub vadapter_query_general_attrs : Handler Store
  pub create_vfabric : Handler Store
  pub edit_vfabric : Handler Store
  pub vfabric_online : Handler Store
  pub vfabric_select_inventory : Handler Store
  pub bd_select_inventory : Handler Store
  pub bd_query_general_attr : Handler Store

-- What a case of the two switches does: the handler, whether a code that it returns turns the
-- response into an error message, and the number of TLVs that the response is given room for.
pub record Case (Store : Type 0) : Type 0 where
  pub handler : Handler Store
  pub reports : Bool
  pub no_of_args : ℕ

-- What a buffer holds after `recv` wrote a message to its front.
abbrev pub recv_over : (message buff : List ℕ) → List ℕ
recv_over m buff = m ++ drop (length m) buff

module _ {Store : Type 0} (h : Handlers Store) where
  unfoldable pub vadapter_case : Operation → Option (Case Store)
  vadapter_case vfm_create =
      some (record { handler = h.create_vadapter; reports = false; no_of_args = 1 })
  vadapter_case vfm_edit =
      some (record { handler = h.edit_vadapter; reports = false; no_of_args = 1 })
  vadapter_case vfm_edit_protocol_attr =
      some (record { handler = h.edit_en_attr; reports = false; no_of_args = 1 })
  vadapter_case vfm_query_inventory =
      some (record { handler = h.vadapter_select_inventory; reports = false; no_of_args = 0 })
  vadapter_case vfm_online =
      some (record { handler = h.vadapter_online; reports = false; no_of_args = 1 })
  vadapter_case vfm_query =
      some (record { handler = h.vadapter_query_general_attrs; reports = false; no_of_args = 2 })
  vadapter_case _ = none

  unfoldable pub vfabric_case : Operation → Option (Case Store)
  vfabric_case vfm_create =
      some (record { handler = h.create_vfabric; reports = false; no_of_args = 1 })
  vfabric_case vfm_edit =
      some (record { handler = h.edit_vfabric; reports = false; no_of_args = 1 })
  vfabric_case vfm_online =
      some (record { handler = h.vfabric_online; reports = true; no_of_args = 1 })
  vfabric_case vfm_query_inventory =
      some (record { handler = h.vfabric_select_inventory; reports = false; no_of_args = 0 })
  vfabric_case _ = none

  unfoldable pub bridge_device_case : Operation → Option (Case Store)
  bridge_device_case vfm_query_inventory =
      some (record { handler = h.bd_select_inventory; reports = false; no_of_args = 2 })
  bridge_device_case vfm_query =
      some (record { handler = h.bd_query_general_attr; reports = false; no_of_args = 2 })
  bridge_device_case _ = none

  -- the case of a module and an operation, if both are known
  unfoldable pub case_of : Option ApiModule → Option Operation → Option (Case Store)
  unfolding vadapter_case vfabric_case bridge_device_case
  case_of (some vadapter) (some o) = vadapter_case o
  case_of (some vfabric) (some o) = vfabric_case o
  case_of (some bridge_device) (some o) = bridge_device_case o
  case_of _ _ = none

  -- the header, with the opcode of an error where one is reported
  unfoldable pub reported : Bool → (code : ℕ) → ApiHdr → ApiHdr
  unfolding opcode
  reported reports code hdr =
      if reports
      then if code == 0 then hdr else record {
        mod_id = hdr.mod_id;
        opcode = opcode vfm_error;
        reserved = hdr.reserved;
        length = hdr.length;
      }
      else hdr

  -- One case: the handler runs, and the response is made of what it leaves.
  unfoldable pub answer :
      (malloc : ℕ → List ℕ)
      → ApiHdr
      → (buff : List ℕ) → (ret_pos : ℕ) → Store
      → Option (Case Store)
      → Outcome (Option (List ℕ) × Store)
  answer malloc hdr buff pos db none = ok (none, db)
  answer malloc hdr buff pos db (some c) = c.handler buff pos db >>= λ (code, op_data, after).
      vfm_marshall_response malloc op_data (reported c.reports code hdr) c.no_of_args >>= λ pack.
      ok (some pack, after)

  -- The response, `none` if no case applies: then `pack` stays as it was. And the database.
  unfoldable pub unmarshall_request :
      (malloc : ℕ → List ℕ) → (buff : List ℕ) → Store → Outcome (Option (List ℕ) × Store)
  unfolding answer
  unmarshall_request malloc buff db = read_api_ctrl_hdr buff 0 >>= λ (hdr, pos).
      answer malloc hdr buff pos db (case_of (module_of hdr.mod_id) (operation_of hdr.opcode))

  -- `process_client_request`: the messages that `recv` returns, each at most a buffer long, and
  -- those that are sent back, the first first. The thread ends with the connection. `buff` is the
  -- part of the buffer that was written: behind a short message it still holds what longer ones
  -- left, and that is read on. At the first message that no case applies to, the size of the
  -- response was never written; later it is 0.
  unfoldable pub process_client_request :
      (malloc : ℕ → List ℕ)
      → (pack_size : Option ℕ) → (buff : List ℕ) → List (List ℕ)
      → Store
      → Outcome (List (List ℕ) × Store)
  unfolding unmarshall_request
  process_client_request malloc pack_size buff [] db = ok ([], db)
  process_client_request malloc pack_size buff (m ∷ more) db =
      unmarshall_request malloc (recv_over m buff) db >>= λ (response, after). elim response [
        | some pack ↦
            process_client_request malloc (some 0) (recv_over m buff) more after >>= λ (sent, last).
            ok (pack ∷ sent, last)
        | none ↦ elim pack_size [
          | none ↦ fault
          | some _ ↦ process_client_request malloc (some 0) (recv_over m buff) more after
        ]
      ]
