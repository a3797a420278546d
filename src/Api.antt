-- ===== src/Api.antt =====
-- src/vps/vfm/vfmapi_common.c and src/vps/vfm/include/vfmapi_common.h: the messages of the
-- management interface, between the client library and the server. A message is a control header
-- of 8 bytes and TLVs, each of a type, a length and a value, all in the byte order of the host.
pub mod Tlv
pub mod Layout
pub mod Request
pub mod Sizes
pub mod ReadBack
pub mod Response
pub mod Inventory
pub mod Fabrics
pub mod Bridges
pub mod Inventories
pub mod Handlers
pub mod Server
pub mod Client
pub mod Word
pub mod Call
pub mod Activate
pub mod Online
pub mod Lookup
pub mod FabricOnline
pub mod Structs
pub mod Edit
pub mod Select
pub mod Edited
pub mod Listing
pub mod Selected
pub mod Table
pub mod Kept
pub mod Passive
pub mod Create
use vfm.Outcome.{Outcome, ok, fault}
use vfm.Base.{
  ℕ, ◌+◌, ◌*◌, ◌%◌, ◌≡◌, refl, Option, none, some, List, [], ◌∷◌, ◌++◌, ◌==◌, if◌then◌else◌, le16,
  le32,
}

-- the modules that a message is for, and their numbers
pub data ApiModule : Type 0 where
  gateway vadapter bridge_device vfabric : ApiModule

unfoldable pub mod_id : ApiModule → ℕ
mod_id gateway = 2
mod_id vadapter = 3
mod_id bridge_device = 4
mod_id vfabric = 5

-- which `case` of `switch (ctrl_hdr.mod_id)` a number takes
unfoldable pub module_of : ℕ → Option ApiModule
module_of n =
    if n == 2
    then some gateway
    else if n == 3
    then some vadapter
    else if n == 4
    then some bridge_device
    else if n == 5
    then some vfabric
    else none

pub module_of-mod_id : (m : ApiModule) → module_of (mod_id m) ≡ some m
unfolding module_of mod_id
module_of-mod_id gateway = refl
module_of-mod_id vadapter = refl
module_of-mod_id bridge_device = refl
module_of-mod_id vfabric = refl

-- the operations, and their numbers
pub data Operation : Type 0 where
  vfm_create vfm_edit vfm_query vfm_query_inventory : Operation
  vfm_destroy vfm_online vfm_edit_protocol_attr vfm_error : Operation

unfoldable pub opcode : Operation → ℕ
opcode vfm_create = 1
opcode vfm_edit = 2
opcode vfm_query = 3
opcode vfm_query_inventory = 4
opcode vfm_destroy = 5
opcode vfm_online = 6
opcode vfm_edit_protocol_attr = 7
opcode vfm_error = 8

unfoldable pub operation_of : ℕ → Option Operation
operation_of n =
    if n == 1
    then some vfm_create
    else if n == 2
    then some vfm_edit
    else if n == 3
    then some vfm_query
    else if n == 4
    then some vfm_query_inventory
    else if n == 5
    then some vfm_destroy
    else if n == 6
    then some vfm_online
    else if n == 7
    then some vfm_edit_protocol_attr
    else if n == 8
    then some vfm_error
    else none

pub operation_of-opcode : (o : Operation) → operation_of (opcode o) ≡ some o
unfolding operation_of opcode
operation_of-opcode vfm_create = refl
operation_of-opcode vfm_edit = refl
operation_of-opcode vfm_query = refl
operation_of-opcode vfm_query_inventory = refl
operation_of-opcode vfm_destroy = refl
operation_of-opcode vfm_online = refl
operation_of-opcode vfm_edit_protocol_attr = refl
operation_of-opcode vfm_error = refl

-- The types of TLVs.
abbrev pub tlv_int : ℕ
tlv_int = 1

abbrev pub tlv_char : ℕ
tlv_char = 2

abbrev pub tlv_bit_mask : ℕ
tlv_bit_mask = 16

abbrev pub tlv_vadp_attr : ℕ
tlv_vadp_attr = 17

abbrev pub tlv_bd_attr : ℕ
tlv_bd_attr = 18

abbrev pub tlv_gateway_attr : ℕ
tlv_gateway_attr = 19

abbrev pub tlv_vfabric_attr_bitmask : ℕ
tlv_vfabric_attr_bitmask = 20

abbrev pub tlv_vfabric_attr : ℕ
tlv_vfabric_attr = 21

-- `struct vfmapi_ctrl_hdr`
pub record ApiHdr : Type 0 where
  pub mod_id : ℕ
  pub opcode : ℕ
  pub reserved : ℕ
  pub length : ℕ

-- the header after `memset`, with what `create_ctrl_hdr` sets
unfoldable pub create_ctrl_hdr : (mod_id opcode len : ℕ) → ApiHdr
create_ctrl_hdr m o len = record {
  mod_id = m % 256;
  opcode = o % 256;
  reserved = 0;
  length = len % 4294967296;
}

-- its bytes
unfoldable pub ctrl_hdr_bytes : ApiHdr → List ℕ
ctrl_hdr_bytes h = h.mod_id ∷ h.opcode ∷ le16 h.reserved ++ le32 h.length

-- What `data` of a `res_packet` points to: an object, or an array of pointers to objects.
pub data HeapData : Type 0 where
  object : List ℕ → HeapData
  pointers : List (List ℕ) → HeapData

-- `struct res_packet`
pub record ResPacket : Type 0 where
  pub content : HeapData
  pub size : ℕ
  pub count : ℕ

-- the bytes of an object
unfoldable pub object_of : HeapData → Outcome (List ℕ)
object_of (object bytes) = ok bytes
object_of (pointers _) = fault

unfoldable pub pointers_of : HeapData → Outcome (List (List ℕ))
pointers_of (object _) = fault
pointers_of (pointers tlvs) = ok tlvs

-- One call of `create_api_tlv`: the type, the length, and the memory that the value is copied from.
pub record Arg : Type 0 where
  pub type : ℕ
  pub len : ℕ
  pub value : List ℕ
