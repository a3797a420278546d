-- ===== src/Api/Word.antt =====
-- A response of one word, from the server's handler to the client.
use vfm.Base.{
  ℕ, ◌≤◌, ◌≡◌, refl, arith, Option, some, List, [], ◌++◌, length, of_le32-le32, drop, length-drop,
  append_assoc, IsWord32, IsWord16, of_le16-le16,
}
use vfm.Outcome.{ok}
use vfm.Fip.Memory.{write_into, slice}
use vfm.Api.{
  ApiModule, Operation, vfm_create, vfm_edit, vfm_online, vfm_edit_protocol_attr, vfm_error, ApiHdr,
  operation_of, module_of, object_of, vfm_query, vfm_query_inventory, vfm_destroy, ctrl_hdr_bytes,
}
use vfm.Api.Tlv.{append_bytes, word_of, read_hdr, read_api_ctrl_hdr}
use vfm.Api.Layout.{tlv_bytes, append_bytes-fits, create_api_tlv-fits, drop-drop}
use vfm.Api.Request.{int_arg}
use vfm.Api.ReadBack.{unpack_tlv-reads}
use vfm.Api.Response.{result_tlv, response_body, vfm_marshall_response}
use vfm.Api.Handlers.{word_packet}
use vfm.Api.Inventory.{Abi}
use vfm.Api.Client.{take_apart, word, get_word, unmarshall_response}

-- the operations whose response is a single word, and the one that reports an error
pub data IsWordReply : Operation → Type 0 where
  created : IsWordReply vfm_create
  edited : IsWordReply vfm_edit
  activated : IsWordReply vfm_online
  edited_protocol : IsWordReply vfm_edit_protocol_attr
  refused : IsWordReply vfm_error

-- the header of such a response
abbrev pub word_hdr : ApiHdr → ApiHdr
word_hdr h = record { mod_id = h.mod_id; opcode = h.opcode; reserved = h.reserved; length = 24 }

body-word :
    (h : ApiHdr) (o : Operation) (v : ℕ) (hd room : List ℕ)
    → IsWordReply o
    → operation_of h.opcode ≡ some o
    → length hd ≡ 8
    → 12 ≤ length room
    → response_body h (word_packet v) (record { message = hd ++ room; offset = 8 })
      ≡ ok (record { message = (hd ++ tlv_bytes (int_arg v)) ++ drop 12 room; offset = 20 })
unfolding response_body result_tlv word_packet object_of
body-word h vfm_create v hd room created e size fits =
    rw (e, create_api_tlv-fits (int_arg v) hd room 8 size (omega arith) fits)
body-word h vfm_edit v hd room edited e size fits =
    rw (e, create_api_tlv-fits (int_arg v) hd room 8 size (omega arith) fits)
body-word h vfm_online v hd room activated e size fits =
    rw (e, create_api_tlv-fits (int_arg v) hd room 8 size (omega arith) fits)
body-word h vfm_edit_protocol_attr v hd room edited_protocol e size fits =
    rw (e, create_api_tlv-fits (int_arg v) hd room 8 size (omega arith) fits)
body-word h vfm_error v hd room refused e size fits =
    rw (e, create_api_tlv-fits (int_arg v) hd room 8 size (omega arith) fits)
body-word h vfm_query v hd room w e size fits = elim w [ ]
body-word h vfm_query_inventory v hd room w e size fits = elim w [ ]
body-word h vfm_destroy v hd room w e size fits = elim w [ ]

-- The response to a request for one word is 24 bytes: a header, the TLV of the word, and the last
-- four bytes of the memory that `malloc` returned, as they were: nothing is written there.
pub word_response_leaks :
    (malloc : ℕ → List ℕ) (h : ApiHdr) (o : Operation) (v : ℕ)
    → ((n : ℕ) → length (malloc n) ≡ n)
    → IsWordReply o
    → operation_of h.opcode ≡ some o
    → vfm_marshall_response malloc (word_packet v) h 1
      ≡ ok (ctrl_hdr_bytes (word_hdr h) ++ (tlv_bytes (int_arg v) ++ drop 20 (malloc 24)))
unfolding vfm_marshall_response ctrl_hdr_bytes append_bytes tlv_bytes write_into word_packet
    operation_of
word_response_leaks malloc h o v sized w e =
    let hd : List ℕ = ctrl_hdr_bytes (word_hdr h) in
    let block : List ℕ = malloc 24 in
    rw (
      append_bytes-fits [] block hd 0 refl (omega (arith, sized 24)),
      body-word (word_hdr h) o v hd (drop 8 block) w e refl
          (omega (arith, sized 24, length-drop 8 block)),
      drop-drop 12 8 20 block refl,
      append_assoc hd (tlv_bytes (int_arg v)) (drop 20 block),
    )

pub hdr-reads :
    (h : ApiHdr) (more : List ℕ)
    → IsWord16 h.reserved
    → IsWord32 h.length
    → read_api_ctrl_hdr (ctrl_hdr_bytes h ++ more) 0 ≡ ok (h, 8)
unfolding read_api_ctrl_hdr ctrl_hdr_bytes read_hdr slice
hdr-reads h more r l = rw (of_le16-le16 h.reserved r, of_le32-le32 h.length l)

length-hdr : (h : ApiHdr) → length (ctrl_hdr_bytes h) ≡ 8
unfolding ctrl_hdr_bytes
length-hdr h = refl

get_word-reads :
    (v : ℕ) (hd more : List ℕ)
    → IsWord32 v
    → length hd ≡ 8
    → get_word (hd ++ (tlv_bytes (int_arg v) ++ more)) 8 ≡ ok (v, 20)
unfolding get_word word_of
get_word-reads v hd more w e =
    rw (unpack_tlv-reads (int_arg v) 8 hd more e (omega arith) (omega arith), of_le32-le32 v w)

-- the code that the client gets with such a response
abbrev pub word_code : Operation → ℕ → ℕ
word_code vfm_error v = v
word_code _ v = 0

take_apart-word :
    (abi : Abi) (m : Option ApiModule) (o : Operation) (v : ℕ) (hd more : List ℕ)
    → IsWordReply o
    → IsWord32 v
    → length hd ≡ 8
    → take_apart abi (some o) m (hd ++ (tlv_bytes (int_arg v) ++ more)) 8
      ≡ ok (word_code o v, word v)
unfolding take_apart
take_apart-word abi m vfm_create v hd more w fits e = rw (get_word-reads v hd more fits e)
take_apart-word abi m vfm_edit v hd more w fits e = rw (get_word-reads v hd more fits e)
take_apart-word abi m vfm_online v hd more w fits e = rw (get_word-reads v hd more fits e)
take_apart-word abi m vfm_edit_protocol_attr v hd more w fits e =
    rw (get_word-reads v hd more fits e)
take_apart-word abi m vfm_error v hd more w fits e = rw (get_word-reads v hd more fits e)
take_apart-word abi m vfm_query v hd more w fits e = elim w [ ]
take_apart-word abi m vfm_query_inventory v hd more w fits e = elim w [ ]
take_apart-word abi m vfm_destroy v hd more w fits e = elim w [ ]

-- The client takes the word out of such a response. Its code is 0, but for an error message.
pub word_response_read :
    (abi : Abi) (h : ApiHdr) (o : Operation) (v : ℕ) (more : List ℕ)
    → IsWordReply o
    → operation_of h.opcode ≡ some o
    → IsWord16 h.reserved
    → IsWord32 v
    → unmarshall_response abi (ctrl_hdr_bytes (word_hdr h) ++ (tlv_bytes (int_arg v) ++ more))
      ≡ ok (word_code o v, word v)
unfolding unmarshall_response
word_response_read abi h o v more w e r fits =
    let hd : List ℕ = ctrl_hdr_bytes (word_hdr h) in
    rw (
      hdr-reads (word_hdr h) (tlv_bytes (int_arg v) ++ more) r (omega arith),
      e,
      take_apart-word abi (module_of h.mod_id) o v hd more w fits (length-hdr (word_hdr h)),
    )
