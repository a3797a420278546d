-- ===== src/Api/Selected.antt =====
-- `vfm_vadapter_select_inventory`, from the database's adapters to the client's list.
use vfm.Base.{
  ℕ, ◌+◌, ◌*◌, ◌≤◌, ◌≡◌, ap, ◌∙◌, sym, arith, none, some, List, [], ◌∷◌, ◌++◌, length,
  length-append, append_assoc, IsWord32, le→ltb, replicate,
}
use vfm.Outcome.{Outcome, ok}
use vfm.Db.{Libc, Sqlite}
use vfm.Db.Adapters.{Adapter, populate_vadapter_information, vadapter_conditions}
use vfm.Api.{ApiHdr, create_ctrl_hdr, mod_id}
use vfm.Api.Layout.{tlv_bytes, tlvs, length-tlv_bytes}
use vfm.Api.Request.{Request, object_arg, vadapter_select_request}
use vfm.Api.Sizes.{requests_fit, request_hdr, length-request_hdr, build_message-exact}
use vfm.Api.ReadBack.{read_api_ctrl_hdr-reads}
use vfm.Api.Server.{Handlers, answer, case_of, reported, unmarshall_request}
use vfm.Api.Inventory.{Abi}
use vfm.Api.Client.{vfm_vadapter_select_inventory, vadapters}
use vfm.Api.Call.{
  served, call_server-reply, module_of_request, operation_of_request, hdr_of, opcode_of,
  reserved_of,
}
use vfm.Api.Structs.{Layout}
use vfm.Api.Select.{
  unpack_struct, adapter_tlvs, adapter_packet, process_vfm_vadapter_select_inventory,
}
use vfm.Api.Edited.{object_read}
use vfm.Api.Listing.{
  images, HasSize, listing_hdr, response_bytes, length-adapter_tlvs, marshalled, taken_apart,
  length-response,
}

-- A structure of the request is read whole.
pub struct_read :
    (t pos : ℕ) (value pre more : List ℕ)
    → length pre ≡ pos
    → IsWord32 (pos + (8 + length value))
    → unpack_struct (length value) (pre ++ (tlv_bytes (object_arg t value) ++ more)) pos
      ≡ ok (value, pos + (8 + length value))
unfolding unpack_struct
struct_read t pos value pre more e w =
    rw (object_read t pos value pre more e w, le→ltb (length value) (length value) (omega arith))

module _ {Store : Type 0} (sql : Sqlite Store) (libc : Libc) (abi : Abi) (layout : Layout)
    (fresh : Adapter) (fresh_module : List ℕ) where
  -- what the database finds for the client's structures
  abbrev pub selection : Store → (bitmask attr : List ℕ) → Outcome (List Adapter)
  selection db bitmask attr =
      populate_vadapter_information sql libc db fresh
        (vadapter_conditions (layout.vadapter_bits bitmask) (layout.vadapter_attr attr))

  handler_runs :
      (bitmask attr hd : List ℕ) (db : Store) (found : List Adapter)
      → length hd ≡ 8
      → length bitmask ≡ layout.vadapter_bits_size
      → length attr ≡ abi.vadapter_attr_size
      → IsWord32 (24 + length bitmask + length attr)
      → selection db bitmask attr ≡ ok found
      → process_vfm_vadapter_select_inventory abi layout sql libc fresh fresh_module
          (hd ++ tlvs (object_arg 16 bitmask ∷ object_arg 17 attr ∷ []))
          8
          db
        ≡ ok (0, adapter_packet abi layout found, db)
  unfolding process_vfm_vadapter_select_inventory tlvs
  handler_runs bitmask attr hd db found e size size' short chosen =
      let a : List ℕ = tlv_bytes (object_arg 16 bitmask) in
      let b : List ℕ = tlv_bytes (object_arg 17 attr) in
      let la = length-tlv_bytes (object_arg 16 bitmask) (omega arith) in
      let at : ℕ = 8 + (8 + length bitmask) in
      let at_attr : length (hd ++ a) ≡ at = omega (arith, e, la, length-append hd a) in
      let second : hd ++ (a ++ (b ++ [])) ≡ (hd ++ a) ++ (b ++ []) =
        sym (append_assoc hd a (b ++ [])) in
      let read_bitmask : unpack_struct layout.vadapter_bits_size (hd ++ (a ++ (b ++ []))) 8
          ≡ ok (bitmask, at) =
        ap (λ n. unpack_struct n (hd ++ (a ++ (b ++ []))) 8) (sym size)
        ∙ struct_read 16 8 bitmask hd (b ++ []) e (omega arith) in
      let read_attr : unpack_struct abi.vadapter_attr_size (hd ++ (a ++ (b ++ []))) at
          ≡ ok (attr, at + (8 + length attr)) =
        ap (λ n. unpack_struct n (hd ++ (a ++ (b ++ []))) at) (sym size')
        ∙ ap (λ x. unpack_struct (length attr) x at) second
        ∙ struct_read 17 at attr (hd ++ a) [] at_attr (omega arith) in
      rw (read_bitmask, read_attr, chosen)

  -- the server's response
  request-listed :
      (h : Handlers Store) (malloc : ℕ → List ℕ) (sized : (n : ℕ) → length (malloc n) ≡ n)
      (bitmask attr : List ℕ) (db : Store) (found : List Adapter)
      → h.vadapter_select_inventory
        ≡ process_vfm_vadapter_select_inventory abi layout sql libc fresh fresh_module
      → HasSize abi layout
      → length bitmask ≡ layout.vadapter_bits_size
      → length attr ≡ abi.vadapter_attr_size
      → 24 + length bitmask + length attr ≤ 8192
      → selection db bitmask attr ≡ ok found
      → 12 + length (adapter_tlvs abi layout found) ≤ 8192
      → let r : Request = vadapter_select_request attr bitmask in
        unmarshall_request h malloc (request_hdr r ++ tlvs r.args) db
        ≡ ok (
          some (
              response_bytes abi layout
                (listing_hdr abi layout (hdr_of h malloc sized r) found)
                found),
          db,
        )
  unfolding unmarshall_request answer reported create_ctrl_hdr case_of vadapter_select_request
  request-listed h malloc sized bitmask attr db found runs images_fit size size' short chosen fits =
      let r : Request = vadapter_select_request attr bitmask in
      let ran =
        ap (λ f. f (request_hdr r ++ tlvs r.args) 8 db) runs
        ∙ handler_runs bitmask attr (request_hdr r) db found (length-request_hdr r) size size'
            (omega arith) chosen in
      rw (
        read_api_ctrl_hdr-reads r (tlvs r.args) (omega arith),
        module_of_request r.module_id,
        operation_of_request r.operation,
        ran,
        marshalled abi layout malloc (hdr_of h malloc sized r) found sized images_fit
            (operation_of_request r.operation) (module_of_request r.module_id) fits,
      )

  -- The client gets the adapters that the database finds for its bitmask and attributes, each as the
  -- bytes of its structure and in order, through a server that has this handler, as long as the
  -- response fits the client's buffer of 8192 bytes.
  pub vadapters_arrive :
      (h : Handlers Store) (malloc : ℕ → List ℕ) (bitmask attr : List ℕ) (db : Store)
      (found : List Adapter)
      → h.vadapter_select_inventory
        ≡ process_vfm_vadapter_select_inventory abi layout sql libc fresh fresh_module
      → ((n : ℕ) → length (malloc n) ≡ n)
      → HasSize abi layout
      → length bitmask ≡ layout.vadapter_bits_size
      → length attr ≡ abi.vadapter_attr_size
      → 24 + length bitmask + length attr ≤ 8192
      → selection db bitmask attr ≡ ok found
      → 12 + length found * (abi.vadapter_attr_size + 8) ≤ 8192
      → vfm_vadapter_select_inventory abi (served h malloc db) none attr bitmask
        ≡ ok (some 3, 0, some (vadapters (images abi layout found)))
  unfolding vfm_vadapter_select_inventory vadapter_select_request create_ctrl_hdr mod_id
  vadapters_arrive h malloc bitmask attr db found runs sized images_fit size size' short chosen
        fits =
      let r : Request = vadapter_select_request attr bitmask in
      let name : List ℕ = replicate 64 0 in
      let exact = (requests_fit name name bitmask attr 0 0 (omega arith) (omega arith)).2 in
      let message : List ℕ = request_hdr r ++ tlvs r.args in
      let total = length-adapter_tlvs abi layout images_fit found in
      let hdr : ApiHdr = listing_hdr abi layout (hdr_of h malloc sized r) found in
      let response : List ℕ = response_bytes abi layout hdr found in
      let long : length message ≤ 8192 =
        omega (arith, exact.1, length-append (request_hdr r) (tlvs r.args), length-request_hdr r) in
      let bytes : length response ≤ 8192 =
        omega (arith, length-response abi layout hdr found, total) in
      let size32 : IsWord32 hdr.length = omega (arith, total) in
      let fits' : 12 + length (adapter_tlvs abi layout found) ≤ 8192 = omega (arith, total) in
      let answered : unmarshall_request h malloc message db ≡ ok (some response, db) =
        request-listed h malloc sized bitmask attr db found runs images_fit size size' short chosen
          fits' in
      let taken =
        taken_apart abi layout hdr found images_fit (reserved_of h malloc sized r) size32
          (opcode_of h malloc sized r) (module_of_request r.module_id) fits' in
      rw (
        call_server-reply h malloc sized abi r message response db db 0
          (vadapters (images abi layout found)) (build_message-exact r exact) long bytes answered
          taken)
