-- ===== src/Api/Client.antt =====
-- src/vps/vfm/vfmapi/: the client library. A call builds its message, connects, sends, waits for
-- the response and takes it apart. Results are numbers, 0 for success.
use vfm.Base.{ℕ, Bool, Option, none, some, List, [], ◌∷◌, take, replicate, if◌then◌else◌}
use vfm.Outcome.{Outcome, ok, fault, ◌>>=◌}
use vfm.Api.{
  ApiModule, Operation, vadapter, bridge_device, vfabric, vfm_create, vfm_edit, vfm_query,
  vfm_query_inventory, vfm_destroy, vfm_online, vfm_edit_protocol_attr, vfm_error, module_of,
  operation_of,
}
use vfm.Api.Tlv.{read_api_ctrl_hdr, get_api_tlv, unpack_tlv, word_of, word_at}
use vfm.Api.Inventory.{Abi, Listed, process_vfabric_data, unpack_vadapter_data, unpack_bridge_data}
use vfm.Api.Request.{
  Request, build_message, vadapter_create_request, vadapter_edit_request, vadapter_select_request,
  vadapter_destroy_request, vadapter_edit_protocol_request, vadapter_online_request,
  vfabric_create_request, vfabric_edit_request, vfabric_online_request, vfabric_select_request,
  bd_select_request,
}

-- The sockets: what `socket` returns, whether `connect` succeeds, whether `send` accepts a message
-- on a socket, and what `recv` then gets, `none` for an error.
pub record Network : Type 0 where
  pub socket : Option ℕ
  pub connects : Bool
  pub sends : ℕ → List ℕ → Bool
  pub receives : ℕ → List ℕ → Option (List ℕ)

-- The code, the socket for the caller, and the static `sockfd`, `none` for -1. A socket that could
-- not be connected stays in `sockfd`.
unfoldable pub create_connection : Network → (sockfd : Option ℕ) → ℕ × Option ℕ × Option ℕ
create_connection net (some fd) = (0, some fd, some fd)
create_connection net none = elim net.socket [
  | none ↦ (3, none, none)
  | some fd ↦ if net.connects then (0, some fd, some fd) else (3, none, some fd)
]

-- What a call gets: a code alone, or the bytes of the response.
pub data Reply : Type 0 where
  failed : (code : ℕ) → Reply
  replied : List ℕ → Reply

-- `recv` takes at most `BUFFER_SIZE` bytes.
unfoldable pub process_request : Network → (sock : ℕ) → List ℕ → Reply
process_request net fd message =
    if net.sends fd message
    then elim (net.receives fd message) [ none ↦ failed 2 | some bytes ↦ replied (take 8192 bytes) ]
    else failed 1

-- What `data` of the result points to.
pub data Payload : Type 0 where
  unset : Payload
  word : ℕ → Payload
  block : List ℕ → Payload
  vfabrics : List Listed → Payload
  vadapters : List (List ℕ) → Payload

-- an object of four bytes that nothing was written to, and the TLV that is copied to it
unfoldable pub get_word : (buff : List ℕ) → (ret_pos : ℕ) → Outcome (ℕ × ℕ)
unfolding unpack_tlv word_of
get_word buff pos = unpack_tlv buff pos >>= λ (v, next). word_of v >>= λ w. ok (w, next)

module _ (abi : Abi) where
  -- The inventory of each module. A bridge's is copied to a block of the size that the first TLV
  -- says, cleared first.
  unfoldable pub inventory : Option ApiModule → (buff : List ℕ) → (ret_pos : ℕ) → Outcome Payload
  unfolding process_vfabric_data unpack_vadapter_data get_word get_api_tlv
  inventory (some vfabric) buff pos = process_vfabric_data abi buff pos >>= λ v. ok (vfabrics v)
  inventory (some bridge_device) buff pos = get_word buff pos >>= λ (size, next).
      get_api_tlv (replicate size 0) buff next >>= λ (bytes, _). ok (block bytes)
  inventory (some vadapter) buff pos = unpack_vadapter_data abi buff pos >>= λ v. ok (vadapters v)
  inventory _ buff pos = ok unset

  -- The code and the result. A response to `VFM_DESTROY` is copied to a pointer that nothing set.
  unfoldable pub take_apart :
      Option Operation → Option ApiModule → (buff : List ℕ) → (ret_pos : ℕ) → Outcome (ℕ × Payload)
  take_apart (some vfm_create) m buff pos = get_word buff pos >>= λ (w, _). ok (0, word w)
  take_apart (some vfm_edit) m buff pos = get_word buff pos >>= λ (w, _). ok (0, word w)
  take_apart (some vfm_online) m buff pos = get_word buff pos >>= λ (w, _). ok (0, word w)
  take_apart (some vfm_edit_protocol_attr) m buff pos =
      get_word buff pos >>= λ (w, _). ok (0, word w)
  take_apart (some vfm_query_inventory) m buff pos = inventory m buff pos >>= λ p. ok (0, p)
  take_apart (some vfm_query) m buff pos = unpack_tlv buff pos >>= λ (v, _). ok (0, block v)
  take_apart (some vfm_destroy) m buff pos = fault
  take_apart (some vfm_error) m buff pos = get_word buff pos >>= λ (w, _). ok (w, word w)
  take_apart none m buff pos = ok (0, unset)

  unfoldable pub unmarshall_response : List ℕ → Outcome (ℕ × Payload)
  unfolding take_apart
  unmarshall_response buff = read_api_ctrl_hdr buff 0 >>= λ (hdr, pos).
      take_apart (operation_of hdr.opcode) (module_of hdr.mod_id) buff pos

  unfoldable pub finish : (kept : Option ℕ) → Reply → Outcome (Option ℕ × ℕ × Option Payload)
  finish kept (failed code) = ok (kept, code, none)
  finish kept (replied bytes) =
      unmarshall_response bytes >>= λ (code, payload). ok (kept, code, some payload)

  unfoldable pub over_socket :
      Network → List ℕ → ℕ × Option ℕ × Option ℕ → Outcome (Option ℕ × ℕ × Option Payload)
  over_socket net message (code, none, kept) = ok (kept, code, none)
  over_socket net message (code, some fd, kept) = finish kept (process_request net fd message)

  -- What the client functions share. It gives the new `sockfd`, and a code alone where the function
  -- returns before it has a response, or the code and the result that the response holds.
  unfoldable pub call_server :
      Network → (sockfd : Option ℕ) → Request → Outcome (Option ℕ × ℕ × Option Payload)
  unfolding finish over_socket
  call_server net sockfd r =
      build_message r >>= λ message. over_socket net message (create_connection net sockfd)

  -- `*(uint32_t *)op_pack.data`
  unfoldable pub first_word : Payload → Outcome ℕ
  unfolding word_at
  first_word unset = fault
  first_word (word w) = ok w
  first_word (block bytes) = word_at 0 bytes
  first_word (vfabrics []) = fault
  first_word (vfabrics (v ∷ _)) = word_at 0 v.attr
  first_word (vadapters []) = fault
  first_word (vadapters (v ∷ _)) = word_at 0 v

  -- The functions that create return the code, and give the caller an id unless they end early.
  unfoldable pub returns_id : Option ℕ × ℕ × Option Payload → Outcome (Option ℕ × ℕ × Option ℕ)
  unfolding first_word
  returns_id (kept, code, none) = ok (kept, code, none)
  returns_id (kept, code, some p) = first_word p >>= λ id. ok (kept, code, some id)

  unfoldable pub vfm_vadapter_create :
      Network → Option ℕ → (name desc : List ℕ) → (protocol : ℕ) → Outcome (Option ℕ × ℕ × Option ℕ)
  unfolding call_server vadapter_create_request returns_id
  vfm_vadapter_create net fd name desc protocol =
      call_server net fd (vadapter_create_request name desc protocol) >>= returns_id

  unfoldable pub vfm_vfabric_create :
      Network → Option ℕ → (name desc : List ℕ) → (protocol : ℕ) → Outcome (Option ℕ × ℕ × Option ℕ)
  unfolding call_server vfabric_create_request returns_id
  vfm_vfabric_create net fd name desc protocol =
      call_server net fd (vfabric_create_request name desc protocol) >>= returns_id

  -- The functions that edit return the code that the response holds.
  unfoldable pub returns_word : Option ℕ × ℕ × Option Payload → Outcome (Option ℕ × ℕ)
  unfolding first_word
  returns_word (kept, code, none) = ok (kept, code)
  returns_word (kept, code, some p) = first_word p >>= λ w. ok (kept, w)

  unfoldable pub vfm_vadapter_edit_general_attr :
      Network → Option ℕ → (id : ℕ) → (bitmask attr : List ℕ) → Outcome (Option ℕ × ℕ)
  unfolding call_server vadapter_edit_request returns_word
  vfm_vadapter_edit_general_attr net fd id bitmask attr =
      call_server net fd (vadapter_edit_request id bitmask attr) >>= returns_word

  unfoldable pub vfm_vfabric_edit_general_attr :
      Network → Option ℕ → (id : ℕ) → (bitmask attr : List ℕ) → Outcome (Option ℕ × ℕ)
  unfolding call_server vfabric_edit_request returns_word
  vfm_vfabric_edit_general_attr net fd id bitmask attr =
      call_server net fd (vfabric_edit_request id bitmask attr) >>= returns_word

  -- The others return the code of `unmarshall_response`.
  unfoldable pub returns_code : Option ℕ × ℕ × Option Payload → Outcome (Option ℕ × ℕ)
  returns_code (kept, code, _) = ok (kept, code)

  unfoldable pub vfm_vadapter_online : Network → Option ℕ → (id : ℕ) → Outcome (Option ℕ × ℕ)
  unfolding call_server vadapter_online_request returns_code
  vfm_vadapter_online net fd id = call_server net fd (vadapter_online_request id) >>= returns_code

  unfoldable pub vfm_vfabric_online : Network → Option ℕ → (id : ℕ) → Outcome (Option ℕ × ℕ)
  unfolding call_server vfabric_online_request returns_code
  vfm_vfabric_online net fd id = call_server net fd (vfabric_online_request id) >>= returns_code

  unfoldable pub vfm_vadapter_destroy : Network → Option ℕ → (id : ℕ) → Outcome (Option ℕ × ℕ)
  unfolding call_server vadapter_destroy_request returns_code
  vfm_vadapter_destroy net fd id = call_server net fd (vadapter_destroy_request id) >>= returns_code

  unfoldable pub vfm_vadapter_edit_protocol_attr :
      Network → Option ℕ → (id : ℕ) → (bitmask attr : List ℕ) → Outcome (Option ℕ × ℕ)
  unfolding call_server vadapter_edit_protocol_request returns_code
  vfm_vadapter_edit_protocol_attr net fd id bitmask attr =
      call_server net fd (vadapter_edit_protocol_request id bitmask attr) >>= returns_code

  -- The functions that select give the caller what the response holds.
  unfoldable pub returns_payload :
      Option ℕ × ℕ × Option Payload → Outcome (Option ℕ × ℕ × Option Payload)
  returns_payload (kept, code, p) = ok (kept, code, p)

  unfoldable pub vfm_vadapter_select_inventory :
      Network → Option ℕ → (attr bitmask : List ℕ) → Outcome (Option ℕ × ℕ × Option Payload)
  unfolding call_server vadapter_select_request returns_payload
  vfm_vadapter_select_inventory net fd attr bitmask =
      call_server net fd (vadapter_select_request attr bitmask) >>= returns_payload

  unfoldable pub vfm_vfabric_select_inventory :
      Network → Option ℕ → (attr bitmask : List ℕ) → Outcome (Option ℕ × ℕ × Option Payload)
  unfolding call_server vfabric_select_request returns_payload
  vfm_vfabric_select_inventory net fd attr bitmask =
      call_server net fd (vfabric_select_request attr bitmask) >>= returns_payload

  -- The code of `unmarshall_response` is overwritten by that of `unpack_bridge_data`, always 0.
  unfoldable pub returns_bridges :
      Option ℕ × ℕ × Option Payload → Outcome (Option ℕ × ℕ × Option (List Listed))
  unfolding unpack_bridge_data
  returns_bridges (kept, code, none) = ok (kept, code, none)
  returns_bridges (kept, code, some (block bytes)) =
      unpack_bridge_data abi bytes >>= λ bridges. ok (kept, 0, some bridges)
  returns_bridges (kept, code, some _) = fault

  unfoldable pub vfm_bd_select_inventory :
      Network → Option ℕ → (attr bitmask : List ℕ) → Outcome (Option ℕ × ℕ × Option (List Listed))
  unfolding call_server bd_select_request returns_bridges
  vfm_bd_select_inventory net fd attr bitmask =
      call_server net fd (bd_select_request attr bitmask) >>= returns_bridges
