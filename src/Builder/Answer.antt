-- ===== src/Builder/Answer.antt =====
-- The answer to a host's FLOGI, made from the bridge's answer to the FDISC.
use vfm.Base.{
  ℕ, ◌+◌, ◌-◌, ◌*◌, ◌≤◌, ◌≡◌, refl, ap, ◌∙◌, Bool, true, false, List, ◌∷◌, ◌++◌, arith, length,
  take, drop, take_all, length-take, length-append, IsWord16, le16, le32, if◌then◌else◌, drop_past,
}
use vfm.Outcome.{ok}
use vfm.Fip.{FcHdr, dword, fc_image}
use vfm.Fip.Memory.{patch, write_into, write_into_past}
use vfm.ReqMap.{Entry}
use vfm.World.{Config, Env, World}
use vfm.Sender.{send_packet, sent}
use vfm.Sender.Fc.{after_send, send_packet-sent}
use vfm.Sender.Frame.{fip_header, FieldsFit}
use vfm.Sender.ReadBack.{packet_reads_back, inner_source}
use vfm.Fip.Read.{read_eth_hdr, read_ctrl_hdr}
use vfm.Builder.{prepare_fdisc_res, fdisc_ctrl, default_tunnel, name_vender, vpsystem}
use vfm.Builder.Granted.{emit_frame, granted, emit_granted, length-granted}

-- The bridge's answer with the requester's exchange id in place of the VFM's.
abbrev pub answer_frame : FcHdr → Entry → List ℕ → List ℕ
answer_frame raw e body = fc_image (record raw { ox_id = e.oxid }) ++ body

-- The descriptors of the answer: the frame, and the address that the host is granted.
unfoldable pub answer_desc :
    Config → Entry → FcHdr → (raw : FcHdr) → (accept : Bool) → List ℕ → List ℕ
answer_desc cfg e h raw accept body =
    let n = (fdisc_ctrl e accept).desc_list_length - 2 in
    7 ∷ n ∷ 0 ∷ 0 ∷ take (n * dword - 4) (answer_frame raw e body)
    ++ (2 ∷ 2 ∷ granted cfg e h (fdisc_ctrl e accept))

restore_oxid :
    (start : ℕ) (pre : List ℕ) (raw : FcHdr) (e : Entry) (body : List ℕ)
    → length pre ≡ start
    → write_into (start + 16) (le16 e.oxid) (pre ++ (fc_image raw ++ body))
      ≡ ok (pre ++ answer_frame raw e body)
unfolding patch
restore_oxid start pre raw e body same = rw (
  write_into_past (start + 16) 16 pre (fc_image raw ++ body) (le16 e.oxid) (omega arith)
      (omega arith),
  take_all (length body) body (omega arith),
)

-- dwords of a FLOGI descriptor
abbrev pub frame_dwords : Bool → ℕ
frame_dwords accept = if accept then 36 else 9

fdisc_bytes :
    (cfg : Config) (env : Env) (w : World) (start : ℕ) (pre : List ℕ) (raw : FcHdr) (body : List ℕ)
    (e : Entry) (h : FcHdr) (accept : Bool)
    → length pre ≡ start
    → frame_dwords accept * dword ≤ length body + 26
    → prepare_fdisc_res cfg env w (pre ++ (fc_image raw ++ body)) (start + 24) e h accept
      ≡ sent (
          send_packet cfg env w true cfg.g_local_mac e.mac cfg.g_bridge_enc_mac
            (default_tunnel vpsystem 0)
            (fdisc_ctrl e accept)
            (answer_desc cfg e h raw accept body))
unfolding prepare_fdisc_res answer_desc
fdisc_bytes cfg env w start pre raw body e h true same le =
    let at : start + 24 - 24 ≡ start = omega arith in
    rw (
      at,
      restore_oxid start pre raw e body same,
      drop_past start 0 pre (answer_frame raw e body) (omega arith),
      emit_frame 36 (answer_frame raw e body) (omega arith) (omega arith) (omega arith),
      emit_granted cfg e h (fdisc_ctrl e true),
    )
fdisc_bytes cfg env w start pre raw body e h false same le =
    let at : start + 24 - 24 ≡ start = omega arith in
    rw (
      at,
      restore_oxid start pre raw e body same,
      drop_past start 0 pre (answer_frame raw e body) (omega arith),
      emit_frame 9 (answer_frame raw e body) (omega arith) (omega arith) (omega arith),
      emit_granted cfg e h (fdisc_ctrl e false),
    )

-- The descriptors are as long as the control header says.
length-answer_desc :
    (cfg : Config) (e : Entry) (h raw : FcHdr) (accept : Bool) (body : List ℕ)
    → frame_dwords accept * dword ≤ length body + 26
    → length (answer_desc cfg e h raw accept body) ≡ (fdisc_ctrl e accept).desc_list_length * dword
unfolding answer_desc fdisc_ctrl
length-answer_desc cfg e h raw true body le = omega (
  arith,
  length-append (take 140 (answer_frame raw e body)) (2 ∷ 2 ∷ granted cfg e h (fdisc_ctrl e true)),
  length-take 140 (answer_frame raw e body),
  length-granted cfg e h (fdisc_ctrl e true),
)
length-answer_desc cfg e h raw false body le = omega (
  arith,
  length-append (take 32 (answer_frame raw e body)) (2 ∷ 2 ∷ granted cfg e h (fdisc_ctrl e false)),
  length-take 32 (answer_frame raw e body),
  length-granted cfg e h (fdisc_ctrl e false),
)

answer-FieldsFit :
    (e : Entry) (accept : Bool)
    → IsWord16 (fdisc_ctrl e accept).flags
    → FieldsFit (default_tunnel vpsystem 0) (fdisc_ctrl e accept)
unfolding fdisc_ctrl default_tunnel name_vender
answer-FieldsFit e true fit = record {
  reserved1 = omega arith;
  reserved2 = omega arith;
  gw_id = omega arith;
  vfm_id = omega arith;
  opcode = omega arith;
  desc_list_length = omega arith;
  flags = fit;
}
answer-FieldsFit e false fit = record {
  reserved1 = omega arith;
  reserved2 = omega arith;
  gw_id = omega arith;
  vfm_id = omega arith;
  opcode = omega arith;
  desc_list_length = omega arith;
  flags = fit;
}

desc_small : (e : Entry) (accept : Bool) → (fdisc_ctrl e accept).desc_list_length ≤ 38
unfolding fdisc_ctrl
desc_small e true = omega arith
desc_small e false = omega arith

answer_source :
    (cfg : Config) (e : Entry) (accept : Bool)
    → inner_source cfg cfg.g_bridge_enc_mac (fdisc_ctrl e accept) ≡ cfg.g_bridge_enc_mac
unfolding fdisc_ctrl
answer_source cfg e accept = refl

-- The bridge's answer, accept or reject, of which the frame is long enough for the descriptor,
-- is handed to `sendto` for the host that asked, as a FLOGI response whose descriptors are the
-- bridge's frame with the host's own exchange id put back, and the address that the host is
-- granted.
pub fdisc_answered :
    (cfg : Config) (env : Env) (w : World) (start : ℕ) (pre : List ℕ) (raw : FcHdr) (body : List ℕ)
    (e : Entry) (h : FcHdr) (accept : Bool)
    → length pre ≡ start
    → frame_dwords accept * dword ≤ length body + 26
    → IsWord16 (fdisc_ctrl e accept).flags
    → (f : List ℕ) × (prepare_fdisc_res cfg env w
          (pre ++ (fc_image raw ++ body))
          (start + 24)
          e
          h
          accept
        ≡ ok (after_send env w f))
      × (read_eth_hdr f (length f) 40 ≡ ok (fip_header e.mac cfg.g_bridge_enc_mac, 56))
      × (read_ctrl_hdr f (length f) 56 ≡ ok (fdisc_ctrl e accept, 64))
      × (drop 64 f ≡ answer_desc cfg e h raw accept body ++ le32 0)
fdisc_answered cfg env w start pre raw body e h accept same le fit =
    let c = fdisc_ctrl e accept in
    let t = default_tunnel vpsystem 0 in
    let desc : List ℕ = answer_desc cfg e h raw accept body in
    let size = length-answer_desc cfg e h raw accept body le in
    let (f, made, _, _, _, inner, ctrl, rest) =
      packet_reads_back cfg cfg.g_local_mac e.mac cfg.g_bridge_enc_mac t c desc
        (answer-FieldsFit e accept fit) (omega (arith, size))
        (omega (arith, desc_small e accept)) in
    (
      f,
      fdisc_bytes cfg env w start pre raw body e h accept same le
          ∙ send_packet-sent cfg env w cfg.g_local_mac e.mac cfg.g_bridge_enc_mac t c desc f made,
      inner ∙ ap (λ m. ok (fip_header e.mac m, 56)) (answer_source cfg e accept),
      ctrl,
      rest
          ∙ ap (λ d. d ++ le32 0)
              (take_all (c.desc_list_length * dword) desc (omega (arith, size))),
    )
