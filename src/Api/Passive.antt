-- ===== src/Api/Passive.antt =====
-- Connections to the server of src/vps/vfm/vfmapi_impl.c on which nothing is activated.
use vfm.Base.{ℕ, ◌≡◌, ◌∙◌, refl, arith, Bool, true, false, Option, none, some, List, [], ◌∷◌}
use vfm.Outcome.{Outcome, ok, err, fault, ◌>>=◌}
use vfm.World.{World}
use vfm.Api.{
  ResPacket, ApiModule, gateway, vadapter, bridge_device, vfabric, Operation, vfm_create, vfm_edit,
  vfm_query, vfm_query_inventory, vfm_destroy, vfm_online, vfm_edit_protocol_attr, vfm_error,
  ApiHdr, module_of, operation_of,
}
use vfm.Api.Tlv.{read_api_ctrl_hdr}
use vfm.Api.Response.{vfm_marshall_response}
use vfm.Api.Server.{
  Case, vadapter_case, vfabric_case, bridge_device_case, case_of, reported, answer,
  unmarshall_request, process_client_request, recv_over,
}
use vfm.Api.Table.{Machine, server}
use vfm.Api.Select.{
  process_vfm_bd_select_inventory, process_vfm_bd_query_general_attr,
  process_vfm_vadapter_query_general_attrs,
}
use vfm.Api.Kept.{
  KeepsWorld, create_vadapter-keeps, create_vfabric-keeps, edit_vadapter-keeps,
  edit_vfabric-handler-keeps, edit_en-handler-keeps, select_vadapter-keeps, select_vfabric-keeps,
  bridges-keeps,
}

is_online : Option Operation → Bool
is_online (some vfm_online) = true
is_online _ = false

-- whether a message's header asks for an activation
unfoldable pub is_activation : (buff : List ℕ) → Bool
unfolding read_api_ctrl_hdr is_online
is_activation buff = elim (read_api_ctrl_hdr buff 0) [
  | ok (hdr, _) ↦ is_online (operation_of hdr.opcode)
  | err _ ↦ false
  | fault ↦ false
]

-- No message, with what the buffer holds behind it, asks for an activation.
abbrev pub AllPassive : (buff : List ℕ) → List (List ℕ) → Type 0
AllPassive buff [] = Unit
AllPassive buff (m ∷ more) =
    (is_activation (recv_over m buff) ≡ false) × AllPassive (recv_over m buff) more

module _ {Store : Type 0} (m : Machine Store) where
  abbrev KeepsCase : Option (Case (Store × World)) → Type 0
  KeepsCase none = Unit
  KeepsCase (some c) = KeepsWorld m.sql m.libc c.handler

  adapter_case-keeps :
      (o : Operation) → is_online (some o) ≡ false → KeepsCase (vadapter_case (server m) o)
  unfolding vadapter_case server is_online process_vfm_vadapter_query_general_attrs
  adapter_case-keeps vfm_create p = create_vadapter-keeps m.sql m.libc
  adapter_case-keeps vfm_edit p = edit_vadapter-keeps m.sql m.libc m.abi m.layout
  adapter_case-keeps vfm_edit_protocol_attr p = edit_en-handler-keeps m.sql m.libc m.abi m.layout
  adapter_case-keeps vfm_query_inventory p =
      select_vadapter-keeps m.sql m.libc m.abi m.layout m.fresh_adapter m.fresh_module
  adapter_case-keeps vfm_online p = absurd cc
  adapter_case-keeps vfm_query p = λ buff pos s r e. absurd cc
  adapter_case-keeps vfm_destroy p = tt
  adapter_case-keeps vfm_error p = tt

  fabric_case-keeps :
      (o : Operation) → is_online (some o) ≡ false → KeepsCase (vfabric_case (server m) o)
  unfolding vfabric_case server is_online
  fabric_case-keeps vfm_create p = create_vfabric-keeps m.sql m.libc m.garbage_id
  fabric_case-keeps vfm_edit p = edit_vfabric-handler-keeps m.sql m.libc m.abi m.layout
  fabric_case-keeps vfm_edit_protocol_attr p = tt
  fabric_case-keeps vfm_query_inventory p =
      select_vfabric-keeps m.sql m.libc m.abi m.layout m.fresh_adapter m.fresh_module
  fabric_case-keeps vfm_online p = absurd cc
  fabric_case-keeps vfm_query p = tt
  fabric_case-keeps vfm_destroy p = tt
  fabric_case-keeps vfm_error p = tt

  bridge_case-keeps : (o : Operation) → KeepsCase (bridge_device_case (server m) o)
  unfolding bridge_device_case server process_vfm_bd_select_inventory
      process_vfm_bd_query_general_attr
  bridge_case-keeps vfm_query_inventory =
      bridges-keeps m.sql m.libc m.abi m.layout m.fresh_adapter m.fresh_module
  bridge_case-keeps vfm_query =
      bridges-keeps m.sql m.libc m.abi m.layout m.fresh_adapter m.fresh_module
  bridge_case-keeps vfm_create = tt
  bridge_case-keeps vfm_edit = tt
  bridge_case-keeps vfm_edit_protocol_attr = tt
  bridge_case-keeps vfm_online = tt
  bridge_case-keeps vfm_destroy = tt
  bridge_case-keeps vfm_error = tt

  case-keeps :
      (k : Option ApiModule) (o : Option Operation)
      → is_online o ≡ false
      → KeepsCase (case_of (server m) k o)
  unfolding case_of
  case-keeps (some vadapter) (some o) p = adapter_case-keeps o p
  case-keeps (some vfabric) (some o) p = fabric_case-keeps o p
  case-keeps (some bridge_device) (some o) p = bridge_case-keeps o
  case-keeps (some gateway) (some o) p = tt
  case-keeps none o p = tt
  case-keeps (some vadapter) none p = tt
  case-keeps (some vfabric) none p = tt
  case-keeps (some bridge_device) none p = tt
  case-keeps (some gateway) none p = tt

  response-keeps :
      (malloc : ℕ → List ℕ) (hdr : ApiHdr) (c : Case (Store × World)) (s : Store × World)
      (o : Outcome (ℕ × ResPacket × (Store × World))) (r : Option (List ℕ) × (Store × World))
      → ((x : ℕ × ResPacket × (Store × World)) → o ≡ ok x → x.2.1 ≡ s.1)
      → (o >>= λ (code, op_data, after).
          vfm_marshall_response malloc op_data (reported (server m) c.reports code hdr) c.no_of_args
          >>= λ pack. ok (some pack, after))
        ≡ ok r
      → r.1.1 ≡ s.1
  response-keeps malloc hdr c s (ok x) r k e = let same = k x refl in ground arith
  response-keeps malloc hdr c s (err _) r k e = absurd cc
  response-keeps malloc hdr c s fault r k e = absurd cc

  answer-keeps :
      (malloc : ℕ → List ℕ) (hdr : ApiHdr) (buff : List ℕ) (pos : ℕ) (s : Store × World)
      (c : Option (Case (Store × World))) (r : Option (List ℕ) × (Store × World))
      → KeepsCase c
      → answer (server m) malloc hdr buff pos s c ≡ ok r
      → r.1.1 ≡ s.1
  unfolding answer
  answer-keeps malloc hdr buff pos s none r k e = ground arith
  answer-keeps malloc hdr buff pos s (some c) r k e =
      response-keeps malloc hdr c s (c.handler buff pos s) r (k buff pos s) e

  request-keeps :
      (malloc : ℕ → List ℕ) (buff : List ℕ) (s : Store × World)
      (r : Option (List ℕ) × (Store × World))
      → is_activation buff ≡ false
      → unmarshall_request (server m) malloc buff s ≡ ok r
      → r.1.1 ≡ s.1
  unfolding unmarshall_request is_activation
  request-keeps malloc buff s r p e =
      elim (read_api_ctrl_hdr buff 0)
          as (λ h.
            (elim h [
              | ok (hdr, _) ↦ is_online (operation_of hdr.opcode)
              | err _ ↦ false
              | fault ↦ false
            ])
              ≡ false
            → (h >>= λ (hdr, pos).
                answer (server m) malloc hdr buff pos s
                  (case_of (server m) (module_of hdr.mod_id) (operation_of hdr.opcode)))
              ≡ ok r
            → r.1.1 ≡ s.1) [
              | ok (hdr, pos) ↦ λ p₁ e₁.
                  answer-keeps malloc hdr buff pos s _ r
                    (case-keeps (module_of hdr.mod_id) (operation_of hdr.opcode) p₁) e₁
              | err _ ↦ λ p₁ e₁. absurd cc
              | fault ↦ λ p₁ e₁. absurd cc
            ]
        p e

  abbrev behind :
      List ℕ → List (List ℕ) × (Store × World) → Outcome (List (List ℕ) × (Store × World))
  behind pack (sent, last) = ok (pack ∷ sent, last)

  sent_behind :
      (o : Outcome (List (List ℕ) × (Store × World))) (pack : List ℕ) (sent : List (List ℕ))
      (s last : Store × World)
      → ((x : List (List ℕ) × (Store × World)) → o ≡ ok x → x.1.1 ≡ s.1)
      → (o >>= behind pack) ≡ ok (sent, last)
      → last.1 ≡ s.1
  sent_behind (ok x) pack sent s last later e = let same = later x refl in ground arith
  sent_behind (err _) pack sent s last later e = absurd cc
  sent_behind fault pack sent s last later e = absurd cc

  -- One message: what is done for it, and for the messages behind it, keeps the globals.
  connection-step :
      (o : Outcome (Option (List ℕ) × (Store × World))) (pack_size : Option ℕ)
      (run : Store × World → Outcome (List (List ℕ) × (Store × World))) (sent : List (List ℕ))
      (s last : Store × World)
      → ((r : Option (List ℕ) × (Store × World)) → o ≡ ok r → r.1.1 ≡ s.1)
      → ((s' : Store × World) (x : List (List ℕ) × (Store × World)) → run s' ≡ ok x → x.1.1 ≡ s'.1)
      → (o >>= λ (response, after). elim response [
        | some pack ↦ run after >>= behind pack
        | none ↦ elim pack_size [ none ↦ fault | some _ ↦ run after ]
      ])
        ≡ ok (sent, last)
      → last.1 ≡ s.1
  connection-step (ok (some pack, after)) pack_size run sent s last now later e =
      sent_behind (run after) pack sent after last (later after) e ∙ now (some pack, after) refl
  connection-step (ok (none, after)) (some _) run sent s last now later e =
      later after (sent, last) e ∙ now (none, after) refl
  connection-step (ok (none, after)) none run sent s last now later e = absurd cc
  connection-step (err _) pack_size run sent s last now later e = absurd cc
  connection-step fault pack_size run sent s last now later e = absurd cc

  -- A connection that ends sends no frame and changes no global, if the header that the server
  -- reads for each of its messages, from the message and what the buffer holds behind it, asks for
  -- no activation: whatever else is asked for and whatever the database does, what the packet path
  -- works on is the same after it.
  pub connection-passive :
      (malloc : ℕ → List ℕ) (pack_size : Option ℕ) (buff : List ℕ) (messages sent : List (List ℕ))
      (s last : Store × World)
      → AllPassive buff messages
      → process_client_request (server m) malloc pack_size buff messages s ≡ ok (sent, last)
      → last.1 ≡ s.1
  unfolding process_client_request
  connection-passive malloc pack_size buff [] sent s last p e = ground arith
  connection-passive malloc pack_size buff (message ∷ more) sent s last p e =
      let held : List ℕ = recv_over message buff in
      connection-step (unmarshall_request (server m) malloc held s) pack_size
        (process_client_request (server m) malloc (some 0) held more) sent s last
        (λ r. request-keeps malloc held s r p.0)
        (λ s' x. connection-passive malloc (some 0) held more x.0 s' x.1 p.1) e
