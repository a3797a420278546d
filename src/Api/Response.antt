-- ===== src/Api/Response.antt =====
-- src/vps/vfm/vfmapi_impl.c and src/vps/vfm/vfmimpl_pack.c: the response to a request.
use vfm.Base.{ℕ, zero, suc, ◌+◌, ◌*◌, ◌%◌, Option, some, List, [], ◌∷◌, le32}
use vfm.Outcome.{Outcome, ok, fault, ◌>>=◌}
use vfm.Fip.Memory.{take_exact}
use vfm.Api.{
  ApiModule, vadapter, bridge_device, vfabric, Operation, vfm_create, vfm_edit, vfm_query,
  vfm_query_inventory, vfm_online, vfm_edit_protocol_attr, vfm_error, ApiHdr, module_of,
  operation_of, ctrl_hdr_bytes, ResPacket, object_of, pointers_of, tlv_int, tlv_bd_attr,
}
use vfm.Api.Tlv.{Cursor, append_bytes, create_api_tlv, word_at}

-- The loop of `vfm_pack_data`: each TLV says how long it is.
unfoldable pub pack_tlvs : (count : ℕ) → List (List ℕ) → Cursor → Outcome Cursor
unfolding word_at take_exact append_bytes
pack_tlvs zero ptrs cur = ok cur
pack_tlvs (suc n) [] cur = fault
pack_tlvs (suc n) (tlv ∷ ptrs) cur = word_at 4 tlv >>= λ len.
    take_exact (len + 8) tlv >>= λ bytes. append_bytes bytes cur >>= λ c. pack_tlvs n ptrs c

unfoldable pub vfm_pack_data : ResPacket → Cursor → Outcome Cursor
unfolding append_bytes pack_tlvs pointers_of
vfm_pack_data p cur = append_bytes (le32 p.count) cur >>= λ c.
    pointers_of p.content >>= λ ptrs. pack_tlvs p.count ptrs c

-- the result as a single TLV
unfoldable pub result_tlv : ResPacket → (len : ℕ) → Cursor → Outcome Cursor
unfolding object_of create_api_tlv
result_tlv p len cur = object_of p.content >>= λ bytes.
    create_api_tlv (record { type = tlv_int; len = len; value = bytes }) cur

-- the result of a query
unfoldable pub query_body : Option ApiModule → ResPacket → Cursor → Outcome Cursor
unfolding vfm_pack_data object_of append_bytes create_api_tlv take_exact
query_body (some vfabric) p cur = vfm_pack_data p cur
query_body (some bridge_device) p cur = object_of p.content >>= λ bytes.
    create_api_tlv (record { type = tlv_int; len = 4; value = le32 p.size }) cur >>= λ c.
    create_api_tlv (record { type = tlv_bd_attr; len = p.size; value = bytes }) c
query_body (some vadapter) p cur = append_bytes (le32 p.count) cur >>= λ c.
    object_of p.content >>= λ bytes. take_exact p.size bytes >>= λ rest. append_bytes rest c
query_body _ p cur = ok cur

-- `switch (ctrl_hdr->opcode)`
unfoldable pub response_switch : Option Operation → ApiHdr → ResPacket → Cursor → Outcome Cursor
response_switch (some vfm_create) h p cur = result_tlv p p.size cur
response_switch (some vfm_edit) h p cur = result_tlv p p.size cur
response_switch (some vfm_online) h p cur = result_tlv p p.size cur
response_switch (some vfm_edit_protocol_attr) h p cur = result_tlv p p.size cur
response_switch (some vfm_query_inventory) h p cur = query_body (module_of h.mod_id) p cur
response_switch (some vfm_query) h p cur = query_body (module_of h.mod_id) p cur
response_switch (some vfm_error) h p cur = result_tlv p 4 cur
response_switch _ h p cur = ok cur

unfoldable pub response_body : ApiHdr → ResPacket → Cursor → Outcome Cursor
unfolding response_switch
response_body h p cur = response_switch (operation_of h.opcode) h p cur

-- The response, in memory that `malloc` returns and that nothing clears.
unfoldable pub vfm_marshall_response :
    (malloc : ℕ → List ℕ) → ResPacket → ApiHdr → (no_of_args : ℕ) → Outcome (List ℕ)
unfolding response_body
vfm_marshall_response malloc p h n =
    let size : ℕ = (8 + p.size + 4 + 8 * n) % 4294967296 in
    let hdr : ApiHdr = record {
      mod_id = h.mod_id;
      opcode = h.opcode;
      reserved = h.reserved;
      length = size;
    } in
    append_bytes (ctrl_hdr_bytes hdr) (record { message = malloc size; offset = 0 })
    >>= response_body hdr p
    >>= λ c. ok c.message
