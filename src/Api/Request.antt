-- ===== src/Api/Request.antt =====
-- src/vps/vfm/vfmapi/: the requests of the client library. Each function computes the size of its
-- message, allocates that much, and writes a control header and one TLV for each argument. An
-- object that a pointer of a structure type points to is its bytes, as many as its `sizeof`.
use vfm.Base.{ℕ, ◌+◌, ◌*◌, List, [], ◌∷◌, length, replicate, le32}
use vfm.Outcome.{Outcome, ok, ◌>>=◌}
use vfm.Api.{
  ApiModule, vadapter, bridge_device, vfabric, mod_id, Operation, vfm_create, vfm_edit,
  vfm_query_inventory, vfm_destroy, vfm_online, vfm_edit_protocol_attr, opcode, create_ctrl_hdr,
  ctrl_hdr_bytes, Arg, tlv_int, tlv_char, tlv_bit_mask, tlv_vadp_attr, tlv_bd_attr,
  tlv_vfabric_attr, tlv_vfabric_attr_bitmask,
}
use vfm.Api.Tlv.{append_bytes, put_all}

-- What a client function sends: `mesg_len` as the function computes it.
pub record Request : Type 0 where
  pub module_id : ApiModule
  pub operation : Operation
  pub mesg_len : ℕ
  pub args : List Arg

-- The message that a client function builds.
unfoldable pub build_message : Request → Outcome (List ℕ)
unfolding append_bytes put_all create_ctrl_hdr ctrl_hdr_bytes mod_id opcode
build_message r =
    append_bytes
      (ctrl_hdr_bytes (create_ctrl_hdr (mod_id r.module_id) (opcode r.operation) r.mesg_len))
      (record { message = replicate r.mesg_len 0; offset = 0 })
    >>= put_all r.args
    >>= λ c. ok c.message

-- an argument that is an object, copied whole
abbrev pub object_arg : ℕ → List ℕ → Arg
object_arg type object = record { type = type; len = length object; value = object }

abbrev pub int_arg : ℕ → Arg
int_arg v = object_arg tlv_int (le32 v)

-- 64 bytes from where the caller's string begins
abbrev pub name_arg : List ℕ → Arg
name_arg text = record { type = tlv_char; len = 64; value = text }

unfoldable pub vadapter_create_request : (name desc : List ℕ) → (protocol : ℕ) → Request
vadapter_create_request name desc protocol = record {
  module_id = vadapter;
  operation = vfm_create;
  mesg_len = 8 + 2 * 64 + 4 + 8 * 3;
  args = name_arg name ∷ name_arg desc ∷ int_arg protocol ∷ [];
}

unfoldable pub vadapter_edit_request : (vadapter_id : ℕ) → (bitmask attr : List ℕ) → Request
vadapter_edit_request id bitmask attr = record {
  module_id = vadapter;
  operation = vfm_edit;
  mesg_len = 8 + 4 + length bitmask + length attr + 8 * 3;
  args = int_arg id ∷ object_arg tlv_bit_mask bitmask ∷ object_arg tlv_vadp_attr attr ∷ [];
}

unfoldable pub vadapter_select_request : (attr bitmask : List ℕ) → Request
vadapter_select_request attr bitmask = record {
  module_id = vadapter;
  operation = vfm_query_inventory;
  mesg_len = 8 + length bitmask + length attr + 8 * 2;
  args = object_arg tlv_bit_mask bitmask ∷ object_arg tlv_vadp_attr attr ∷ [];
}

unfoldable pub vadapter_destroy_request : (vadapter_id : ℕ) → Request
vadapter_destroy_request id = record {
  module_id = vadapter;
  operation = vfm_destroy;
  mesg_len = 8 + 4 + 8 * 1;
  args = int_arg id ∷ [];
}

unfoldable pub vadapter_edit_protocol_request :
    (vadapter_id : ℕ) → (bitmask attr : List ℕ) → Request
vadapter_edit_protocol_request id bitmask attr = record {
  module_id = vadapter;
  operation = vfm_edit_protocol_attr;
  mesg_len = 8 + length bitmask + length attr + 8 * 3;
  args = int_arg id ∷ object_arg tlv_bit_mask bitmask ∷ object_arg tlv_vadp_attr attr ∷ [];
}

unfoldable pub vadapter_online_request : (vadapter_id : ℕ) → Request
vadapter_online_request id = record {
  module_id = vadapter;
  operation = vfm_online;
  mesg_len = 8 + 4 + 8 * 1;
  args = int_arg id ∷ [];
}

unfoldable pub vfabric_create_request : (name desc : List ℕ) → (protocol : ℕ) → Request
vfabric_create_request name desc protocol = record {
  module_id = vfabric;
  operation = vfm_create;
  mesg_len = 8 + 4 + 2 * 64 + 8 * 3;
  args = name_arg name ∷ name_arg desc ∷ int_arg protocol ∷ [];
}

unfoldable pub vfabric_edit_request : (vfabric_id : ℕ) → (bitmask attr : List ℕ) → Request
vfabric_edit_request id bitmask attr = record {
  module_id = vfabric;
  operation = vfm_edit;
  mesg_len = 8 + 4 + length bitmask + length attr + 8 * 3;
  args =
      int_arg id
      ∷ object_arg tlv_vfabric_attr_bitmask bitmask
      ∷ object_arg tlv_vfabric_attr attr
      ∷ [];
}

unfoldable pub vfabric_online_request : (vfabric_id : ℕ) → Request
vfabric_online_request id = record {
  module_id = vfabric;
  operation = vfm_online;
  mesg_len = 8 + 4 + 8 * 1;
  args = int_arg id ∷ [];
}

unfoldable pub vfabric_select_request : (attr bitmask : List ℕ) → Request
vfabric_select_request attr bitmask = record {
  module_id = vfabric;
  operation = vfm_query_inventory;
  mesg_len = 8 + length attr + length bitmask + 8 * 2;
  args = object_arg tlv_vfabric_attr attr ∷ object_arg tlv_vfabric_attr_bitmask bitmask ∷ [];
}

unfoldable pub bd_select_request : (attr bitmask : List ℕ) → Request
bd_select_request attr bitmask = record {
  module_id = bridge_device;
  operation = vfm_query_inventory;
  mesg_len = 8 + length bitmask + length attr + 8 * 2;
  args = object_arg tlv_bd_attr attr ∷ object_arg tlv_bit_mask bitmask ∷ [];
}
