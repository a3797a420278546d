-- ===== src/Api/Activate.antt =====
-- What the client learns of an activation, and of a call that the server does not know.
use vfm.Base.{
  ℕ, ◌≡◌, ◌≢◌, refl, append_assoc, arith, true, false, none, some, List, ◌∷◌, ◌++◌, length, drop,
  IsWord32, ne→==,
}
use vfm.Outcome.{ok, fault}
use vfm.Api.{opcode, mod_id, create_ctrl_hdr, operation_of, module_of}
use vfm.Api.Layout.{tlvs}
use vfm.Api.Request.{
  Request, build_message, vadapter_online_request, vfabric_online_request, vadapter_destroy_request,
}
use vfm.Api.Sizes.{IsExact, request_hdr, build_message-exact}
use vfm.Api.ReadBack.{read_api_ctrl_hdr-reads}
use vfm.Api.Server.{
  Handlers, Case, case_of, answer, unmarshall_request, process_client_request, recv_over,
}
use vfm.Api.Handlers.{word_packet}
use vfm.Api.Inventory.{Abi}
use vfm.Api.Client.{vfm_vadapter_online, vfm_vfabric_online}
use vfm.Api.Word.{activated}
use vfm.Api.Call.{served, call_server-word, call_server-refused}

destroy_fits : (id : ℕ) → IsExact (vadapter_destroy_request id)
unfolding vadapter_destroy_request tlvs
destroy_fits id = ((omega arith, tt), refl)

-- the message of a request, as the server gets it
abbrev pub message_of : Request → List ℕ
message_of r = request_hdr r ++ tlvs r.args

module _ {Store : Type 0} (h : Handlers Store) (malloc : ℕ → List ℕ)
    (sized : (n : ℕ) → length (malloc n) ≡ n) (abi : Abi) where
  -- `vfm_vadapter_online` returns 0 whatever code the server's handler returns and reports: the
  -- client does not look into a response to `VFM_ONLINE`.
  pub adapter_online_succeeds :
      (id code v : ℕ) (db after : Store)
      → IsWord32 v
      → h.vadapter_online (message_of (vadapter_online_request id)) 8 db
        ≡ ok (code, word_packet v, after)
      → vfm_vadapter_online abi (served h malloc db) none id ≡ ok (some 3, 0)
  unfolding vfm_vadapter_online vadapter_online_request case_of tlvs
  adapter_online_succeeds id code v db after w ran =
      let c : Case Store = record {
        handler = h.vadapter_online;
        reports = false;
        no_of_args = 1;
      } in
      rw (
        call_server-word h malloc sized abi (vadapter_online_request id) c code v db after
          ((omega arith, tt), refl) (omega arith) w activated refl refl refl ran)

  -- `vfm_vfabric_online` returns what the handler reports, where the handler returns an error.
  pub fabric_online_refused :
      (id code v : ℕ) (db after : Store)
      → IsWord32 v
      → code ≢ 0
      → h.vfabric_online (message_of (vfabric_online_request id)) 8 db
        ≡ ok (code, word_packet v, after)
      → vfm_vfabric_online abi (served h malloc db) none id ≡ ok (some 3, v)
  unfolding vfm_vfabric_online vfabric_online_request case_of tlvs
  fabric_online_refused id code v db after w fails ran =
      let c : Case Store = record { handler = h.vfabric_online; reports = true; no_of_args = 1 } in
      rw (
        call_server-refused h malloc sized abi (vfabric_online_request id) c code v db after
          ((omega arith, tt), refl) (omega arith) w refl refl (ne→== code 0 fails) refl ran)

  destroy_unknown :
      (id : ℕ) (db : Store) (behind : List ℕ)
      → unmarshall_request h malloc (message_of (vadapter_destroy_request id) ++ behind) db
        ≡ ok (none, db)
  unfolding unmarshall_request answer case_of create_ctrl_hdr mod_id opcode operation_of module_of
      vadapter_destroy_request
  destroy_unknown id db behind =
      let r : Request = vadapter_destroy_request id in
      rw (
        append_assoc (request_hdr r) (tlvs r.args) behind,
        read_api_ctrl_hdr-reads r (tlvs r.args ++ behind) (omega arith),
      )

  -- The message of `vfm_vadapter_destroy` is built, but no case of the server applies to it. As a
  -- connection's first message it makes the server's thread read the size of a response that was
  -- never made. Behind another message it gets no answer, and the next one is waited for, whatever
  -- the buffer held.
  pub destroy_unanswered :
      (id : ℕ) (db : Store) (buff : List ℕ) (more : List (List ℕ))
      → let r : Request = vadapter_destroy_request id in
        (build_message r ≡ ok (message_of r))
        × (process_client_request h malloc none buff (message_of r ∷ more) db ≡ fault)
        × (process_client_request h malloc (some 0) buff (message_of r ∷ more) db
            ≡ process_client_request h malloc (some 0) (recv_over (message_of r) buff) more db)
  unfolding process_client_request
  destroy_unanswered id db buff more =
      let r : Request = vadapter_destroy_request id in
      let behind : List ℕ = drop (length (message_of r)) buff in
      (
        build_message-exact r (destroy_fits id),
        rw (destroy_unknown id db behind),
        rw (destroy_unknown id db behind),
      )
