-- ===== src/Api/Call.antt =====
-- A call of the client library, through the server's dispatch, and back.
use vfm.Base.{
  ℕ, ◌%◌, ◌≤◌, ◌≡◌, refl, ap, ◌∙◌, arith, true, false, Option, none, some, List, ◌++◌, length, take,
  drop, take_all, length-append, length-drop, IsWord32, IsWord16, ◌==◌,
}
use vfm.Outcome.{Outcome, ok}
use vfm.Api.{
  ApiModule, gateway, vadapter, bridge_device, vfabric, Operation, vfm_create, vfm_edit, vfm_query,
  vfm_query_inventory, vfm_destroy, vfm_online, vfm_edit_protocol_attr, vfm_error, mod_id, opcode,
  module_of, operation_of, ApiHdr, create_ctrl_hdr, ctrl_hdr_bytes,
}
use vfm.Api.Layout.{tlvs, tlv_bytes}
use vfm.Api.Request.{Request, int_arg, build_message}
use vfm.Api.Sizes.{IsExact, request_hdr, length-request_hdr, build_message-exact}
use vfm.Api.ReadBack.{read_api_ctrl_hdr-reads}
use vfm.Api.Server.{Handlers, Case, case_of, answer, reported, unmarshall_request}
use vfm.Api.Handlers.{word_packet}
use vfm.Api.Inventory.{Abi}
use vfm.Api.Client.{
  Network, create_connection, process_request, replied, word, Payload, unmarshall_response,
  call_server,
}
use vfm.Api.Word.{
  IsWordReply, refused, word_hdr, word_code, word_response_leaks, word_response_read,
}

-- The response that a run of the server gives, if it gives one.
unfoldable pub response_of : {Store : Type 0} → Outcome (Option (List ℕ) × Store) → Option (List ℕ)
response_of (ok (response, _)) = response
response_of _ = none

-- Sockets that connect a client to a server thread and lose nothing. The thread's `recv` takes at
-- most a buffer of 8192 bytes.
unfoldable pub served : {Store : Type 0} → Handlers Store → (malloc : ℕ → List ℕ) → Store → Network
unfolding response_of
served h malloc db = record {
  socket = some 3;
  connects = true;
  sends = λ _ _. true;
  receives = λ _ m. response_of (unmarshall_request h malloc (take 8192 m) db);
}

-- the request is dispatched on what the client put in
pub module_of_request : (m : ApiModule) → module_of (mod_id m % 256) ≡ some m
unfolding module_of mod_id
module_of_request gateway = refl
module_of_request vadapter = refl
module_of_request bridge_device = refl
module_of_request vfabric = refl

pub operation_of_request : (o : Operation) → operation_of (opcode o % 256) ≡ some o
unfolding operation_of opcode
operation_of_request vfm_create = refl
operation_of_request vfm_edit = refl
operation_of_request vfm_query = refl
operation_of_request vfm_query_inventory = refl
operation_of_request vfm_destroy = refl
operation_of_request vfm_online = refl
operation_of_request vfm_edit_protocol_attr = refl
operation_of_request vfm_error = refl

process_request-replied :
    (net : Network) (fd : ℕ) (m bytes : List ℕ)
    → net.sends fd m ≡ true
    → net.receives fd m ≡ some bytes
    → length bytes ≤ 8192
    → process_request net fd m ≡ replied bytes
unfolding process_request
process_request-replied net fd m bytes s r h = rw (s, r) (ap replied (take_all 8192 bytes h))

call_server-answered :
    (abi : Abi) (net : Network) (r : Request) (fd : ℕ) (m bytes : List ℕ) (code : ℕ) (p : Payload)
    → net.socket ≡ some fd
    → net.connects ≡ true
    → build_message r ≡ ok m
    → process_request net fd m ≡ replied bytes
    → unmarshall_response abi bytes ≡ ok (code, p)
    → call_server abi net none r ≡ ok (some fd, code, some p)
unfolding call_server create_connection process_request
call_server-answered abi net r fd m bytes code p s c b q u = rw (b, s, c, q, u)

module _ {Store : Type 0} (h : Handlers Store) (malloc : ℕ → List ℕ)
    (sized : (n : ℕ) → length (malloc n) ≡ n) where
  -- the header that the server gets
  abbrev pub hdr_of : Request → ApiHdr
  hdr_of r = create_ctrl_hdr (mod_id r.module_id) (opcode r.operation) r.mesg_len

  -- the response with a word in it
  abbrev pub word_response : Request → ℕ → List ℕ
  word_response r v =
      ctrl_hdr_bytes (word_hdr (hdr_of r)) ++ (tlv_bytes (int_arg v) ++ drop 20 (malloc 24))

  -- A case that does not report errors, and whose handler leaves a word.
  pub request-word :
      (r : Request) (c : Case Store) (code v : ℕ) (db after : Store)
      → IsWord32 r.mesg_len
      → IsWordReply r.operation
      → case_of h (some r.module_id) (some r.operation) ≡ some c
      → c.reports ≡ false
      → c.no_of_args ≡ 1
      → c.handler (request_hdr r ++ tlvs r.args) 8 db ≡ ok (code, word_packet v, after)
      → unmarshall_request h malloc (request_hdr r ++ tlvs r.args) db
        ≡ ok (some (word_response r v), after)
  unfolding unmarshall_request answer reported create_ctrl_hdr
  request-word r c code v db after w reply e quiet one ran = rw (
    read_api_ctrl_hdr-reads r (tlvs r.args) w,
    module_of_request r.module_id,
    operation_of_request r.operation,
    e,
    ran,
    quiet,
    one,
    word_response_leaks malloc (hdr_of r) r.operation v sized reply
        (operation_of_request r.operation),
  )

  length-word_response : (r : Request) (v : ℕ) → length (word_response r v) ≡ 24
  unfolding ctrl_hdr_bytes tlv_bytes
  length-word_response r v = omega (arith, length-drop 20 (malloc 24), sized 24)

  pub opcode_of : (r : Request) → operation_of (hdr_of r).opcode ≡ some r.operation
  unfolding create_ctrl_hdr
  opcode_of r = operation_of_request r.operation

  pub reserved_of : (r : Request) → IsWord16 (hdr_of r).reserved
  unfolding create_ctrl_hdr
  reserved_of r = omega arith

  -- A response that fits a buffer is what the client takes apart.
  pub call_server-reply :
      (abi : Abi) (r : Request) (m response : List ℕ) (db after : Store) (code : ℕ) (p : Payload)
      → build_message r ≡ ok m
      → length m ≤ 8192
      → length response ≤ 8192
      → unmarshall_request h malloc m db ≡ ok (some response, after)
      → unmarshall_response abi response ≡ ok (code, p)
      → call_server abi (served h malloc db) none r ≡ ok (some 3, code, some p)
  unfolding served
  call_server-reply abi r m response db after code p built fits short served_by taken =
      call_server-answered abi (served h malloc db) r 3 m response code p refl refl built
        (process_request-replied (served h malloc db) 3 m response refl got short) taken
    where
      got : (served h malloc db).receives 3 m ≡ some response
      got =
          ap (λ x. response_of (unmarshall_request h malloc x db)) (take_all 8192 m fits)
          ∙ ap response_of served_by

  -- The client gets the word.
  pub call_server-word :
      (abi : Abi) (r : Request) (c : Case Store) (code v : ℕ) (db after : Store)
      → IsExact r
      → r.mesg_len ≤ 8192
      → IsWord32 v
      → IsWordReply r.operation
      → case_of h (some r.module_id) (some r.operation) ≡ some c
      → c.reports ≡ false
      → c.no_of_args ≡ 1
      → c.handler (request_hdr r ++ tlvs r.args) 8 db ≡ ok (code, word_packet v, after)
      → call_server abi (served h malloc db) none r
        ≡ ok (some 3, word_code r.operation v, some (word v))
  call_server-word abi r c code v db after (b, e) fits w reply found quiet one ran =
      let message : List ℕ = request_hdr r ++ tlvs r.args in
      let short : length message ≤ 8192 =
        omega (arith, e, length-append (request_hdr r) (tlvs r.args), length-request_hdr r) in
      call_server-reply abi r message (word_response r v) db after (word_code r.operation v)
        (word v) (build_message-exact r (b, e)) short (omega (arith, length-word_response r v))
        (request-word r c code v db after (omega arith) reply found quiet one ran)
        (word_response_read abi (hdr_of r) r.operation v (drop 20 (malloc 24)) reply (opcode_of r)
          (reserved_of r) w)

  -- the header of an error message, and the message
  abbrev error_hdr : Request → ApiHdr
  error_hdr r = record {
    mod_id = (hdr_of r).mod_id;
    opcode = opcode vfm_error;
    reserved = (hdr_of r).reserved;
    length = (hdr_of r).length;
  }

  abbrev refusal : Request → ℕ → List ℕ
  refusal r v =
      ctrl_hdr_bytes (word_hdr (error_hdr r)) ++ (tlv_bytes (int_arg v) ++ drop 20 (malloc 24))

  request-refused :
      (r : Request) (c : Case Store) (code v : ℕ) (db after : Store)
      → IsWord32 r.mesg_len
      → case_of h (some r.module_id) (some r.operation) ≡ some c
      → c.reports ≡ true
      → (code == 0) ≡ false
      → c.no_of_args ≡ 1
      → c.handler (request_hdr r ++ tlvs r.args) 8 db ≡ ok (code, word_packet v, after)
      → unmarshall_request h malloc (request_hdr r ++ tlvs r.args) db
        ≡ ok (some (refusal r v), after)
  unfolding unmarshall_request answer reported create_ctrl_hdr operation_of
  request-refused r c code v db after w e loud fails one ran = rw (
    read_api_ctrl_hdr-reads r (tlvs r.args) w,
    module_of_request r.module_id,
    operation_of_request r.operation,
    e,
    ran,
    loud,
    fails,
    one,
    word_response_leaks malloc (error_hdr r) vfm_error v sized refused refl,
  )

  length-refusal : (r : Request) (v : ℕ) → length (refusal r v) ≡ 24
  unfolding ctrl_hdr_bytes tlv_bytes
  length-refusal r v = omega (arith, length-drop 20 (malloc 24), sized 24)

  -- The client gets the word as the code of the call.
  pub call_server-refused :
      (abi : Abi) (r : Request) (c : Case Store) (code v : ℕ) (db after : Store)
      → IsExact r
      → r.mesg_len ≤ 8192
      → IsWord32 v
      → case_of h (some r.module_id) (some r.operation) ≡ some c
      → c.reports ≡ true
      → (code == 0) ≡ false
      → c.no_of_args ≡ 1
      → c.handler (request_hdr r ++ tlvs r.args) 8 db ≡ ok (code, word_packet v, after)
      → call_server abi (served h malloc db) none r ≡ ok (some 3, v, some (word v))
  unfolding operation_of opcode
  call_server-refused abi r c code v db after (b, e) fits w found loud fails one ran =
      let message : List ℕ = request_hdr r ++ tlvs r.args in
      let short : length message ≤ 8192 =
        omega (arith, e, length-append (request_hdr r) (tlvs r.args), length-request_hdr r) in
      call_server-reply abi r message (refusal r v) db after v (word v)
        (build_message-exact r (b, e)) short (omega (arith, length-refusal r v))
        (request-refused r c code v db after (omega arith) found loud fails one ran)
        (word_response_read abi (error_hdr r) vfm_error v (drop 20 (malloc 24)) refused refl
          (reserved_of r) w)
