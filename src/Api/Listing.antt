-- ===== src/Api/Listing.antt =====
-- An inventory of virtual adapters, through the response that carries it.
use vfm.Base.{
  ℕ, ◌+◌, ◌*◌, ◌%◌, ◌≤◌, ◌<◌, ◌≡◌, refl, sym, arith, some, List, [], ◌∷◌, ◌++◌, length, drop, le32,
  of_le32-le32, length-append, length-drop, append-nil, append_assoc, IsWord32, IsWord16, lt→ltb,
}
use vfm.Outcome.{ok}
use vfm.Db.Adapters.{Adapter}
use vfm.Api.{
  ApiHdr, ctrl_hdr_bytes, operation_of, module_of, object_of, vadapter, vfm_query_inventory,
}
use vfm.Api.Tlv.{word_at}
use vfm.Fip.Memory.{slice}
use vfm.Api.Layout.{append_bytes-fits}
use vfm.Api.Sizes.{drop_none}
use vfm.Api.Response.{vfm_marshall_response, response_body, query_body}
use vfm.Api.Inventory.{Abi, rounds, unpack_vadapters, unpack_vadapter_data}
use vfm.Api.Fabrics.{take_front, take_whole, drop_front}
use vfm.Api.Client.{unmarshall_response, take_apart, inventory, vadapters}
use vfm.Api.Word.{hdr-reads}
use vfm.Api.Structs.{Layout}
use vfm.Api.Select.{adapter_tlvs, adapter_packet}

module _ (abi : Abi) (layout : Layout) where
  abbrev pub images : List Adapter → List (List ℕ)
  images [] = []
  images (a ∷ rest) = layout.vadapter_image a ∷ images rest

  -- The bytes of an adapter's structure are as many as the compiler gives it.
  abbrev pub HasSize : Type 0
  HasSize = (a : Adapter) → length (layout.vadapter_image a) ≡ abi.vadapter_attr_size

  pub length-adapter_tlvs :
      HasSize
      → (found : List Adapter)
      → length (adapter_tlvs abi layout found) ≡ length found * (abi.vadapter_attr_size + 8)
  unfolding adapter_tlvs
  length-adapter_tlvs sized [] = omega arith
  length-adapter_tlvs sized (a ∷ rest) =
      let hd : List ℕ = le32 21 ++ le32 abi.vadapter_attr_size in
      ground (
        arith,
        length-append (hd ++ layout.vadapter_image a) (adapter_tlvs abi layout rest),
        length-append hd (layout.vadapter_image a),
        sized a,
        length-adapter_tlvs sized rest,
      )

  pub unpack_vadapters-reads :
      HasSize
      → (found : List Adapter)
      → unpack_vadapters abi (length found) (adapter_tlvs abi layout found) ≡ ok (images found)
  unfolding unpack_vadapters adapter_tlvs
  unpack_vadapters-reads sized [] = refl
  unpack_vadapters-reads sized (a ∷ rest) =
      let image : List ℕ = layout.vadapter_image a in
      let more : List ℕ = adapter_tlvs abi layout rest in
      rw (
        take_front abi.vadapter_attr_size image more (sized a),
        drop_front abi.vadapter_attr_size image more (sized a),
        unpack_vadapters-reads sized rest,
      )

  many : HasSize → (found : List Adapter) → length found ≤ length (adapter_tlvs abi layout found)
  unfolding adapter_tlvs
  many sized [] = omega arith
  many sized (a ∷ rest) =
      let hd : List ℕ = le32 21 ++ le32 abi.vadapter_attr_size in
      omega (
        arith,
        many sized rest,
        length-append (hd ++ layout.vadapter_image a) (adapter_tlvs abi layout rest),
        length-append hd (layout.vadapter_image a),
      )

  -- the header of the response
  abbrev pub listing_hdr : ApiHdr → List Adapter → ApiHdr
  listing_hdr h found = record h { length = 12 + length (adapter_tlvs abi layout found) }

  -- the response behind a header
  abbrev pub response_bytes : ApiHdr → List Adapter → List ℕ
  response_bytes h found =
      ctrl_hdr_bytes h ++ (le32 (length found) ++ adapter_tlvs abi layout found)

  -- The response is its header, the number of adapters, and their TLVs.
  pub marshalled :
      (malloc : ℕ → List ℕ) (h : ApiHdr) (found : List Adapter)
      → ((n : ℕ) → length (malloc n) ≡ n)
      → HasSize
      → operation_of h.opcode ≡ some vfm_query_inventory
      → module_of h.mod_id ≡ some vadapter
      → 12 + length (adapter_tlvs abi layout found) ≤ 8192
      → vfm_marshall_response malloc (adapter_packet abi layout found) h 0
        ≡ ok (response_bytes (listing_hdr h found) found)
  unfolding vfm_marshall_response response_body query_body adapter_packet object_of ctrl_hdr_bytes
  marshalled malloc h found sized images_fit o m fits =
      let total : ℕ = length (adapter_tlvs abi layout found) in
      let whole : (8 + length found * (abi.vadapter_attr_size + 8) + 4 + 8 * 0) % 4294967296
          ≡ 12 + total =
        omega (arith, length-adapter_tlvs images_fit found) in
      let hd : List ℕ = ctrl_hdr_bytes (listing_hdr h found) in
      let block : List ℕ = malloc (12 + total) in
      let room : length (drop 8 block) ≡ 4 + total =
        omega (arith, length-drop 8 block, sized (12 + total)) in
      let gap : length (drop 4 (drop 8 block)) ≡ total =
        omega (arith, room, length-drop 4 (drop 8 block)) in
      rw (
        whole,
        append_bytes-fits [] block hd 0 refl (omega (arith, sized (12 + total))),
        o,
        m,
        append_bytes-fits hd (drop 8 block) (le32 (length found)) 8 refl (omega (arith, room)),
        sym (length-adapter_tlvs images_fit found),
        take_whole abi total (adapter_tlvs abi layout found) refl,
        append_bytes-fits (hd ++ le32 (length found)) (drop 4 (drop 8 block))
            (adapter_tlvs abi layout found) 12 refl (omega (arith, gap)),
        drop_none total (drop 4 (drop 8 block)) (omega (arith, gap)),
        append-nil ((hd ++ le32 (length found)) ++ adapter_tlvs abi layout found),
        append_assoc hd (le32 (length found)) (adapter_tlvs abi layout found),
      )

  -- The client takes the adapters out.
  pub taken_apart :
      (h : ApiHdr) (found : List Adapter)
      → HasSize
      → IsWord16 h.reserved
      → IsWord32 h.length
      → operation_of h.opcode ≡ some vfm_query_inventory
      → module_of h.mod_id ≡ some vadapter
      → 12 + length (adapter_tlvs abi layout found) ≤ 8192
      → unmarshall_response abi (response_bytes h found) ≡ ok (0, vadapters (images found))
  unfolding unmarshall_response take_apart inventory unpack_vadapter_data rounds ctrl_hdr_bytes
      word_at slice
  taken_apart h found images_fit r l o m fits =
      let small : length found < 8192 = omega (arith, many images_fit found) in
      rw (
        hdr-reads h (le32 (length found) ++ adapter_tlvs abi layout found) r l,
        o,
        m,
        of_le32-le32 (length found) (omega (arith, small)),
        lt→ltb (length found) 2147483648 (omega (arith, small)),
        unpack_vadapters-reads images_fit found,
      )

  pub length-response :
      (h : ApiHdr) (found : List Adapter)
      → length (response_bytes h found) ≡ 12 + length (adapter_tlvs abi layout found)
  unfolding ctrl_hdr_bytes
  length-response h found = omega arith
