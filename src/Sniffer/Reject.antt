-- ===== src/Sniffer/Reject.antt =====
-- A request of the fabric to the VFM itself: `process_fc_response` of src/vps/vfm/sniffer.c and
-- `create_reject_els` of src/vps/vfm/vfm_create_pk.c.
use Prim.Native.Nat.{bit_or}
use vfm.Base.{
  ℕ, ◌%◌, ◌^◌, ◌≡◌, List, [], ◌∷◌, ◌++◌, arith, length, IsWord32, swap16, swap32, swap16-swap16,
  swap32-swap32, swap16-IsWord16, swap32-IsWord32, of_le16-le16, of_le32-le32, ==_iff,
}
use vfm.Outcome.{ok}
use vfm.Fip.{FcHdr, TunnelHdr, fc_image}
use vfm.Fip.Read.{read_fc_hdr, fc_to_host}
use vfm.World.{Config, Env, World}
use vfm.Sender.Fc.{fc_frame, after_send, send_fc_packet-sent}
use vfm.Builder.{create_reject_els, reject_hdr, default_tunnel, mellanox, set_e}
use vfm.Sniffer.{process_fc_response}
use vfm.Sniffer.Exchange.{FcFits, response, reads_fc, sent-req_map}

-- The reject's FC frame for a received header.
abbrev pub reject_frame : FcHdr → List ℕ
reject_frame raw =
    fc_image (reject_hdr (fc_to_host raw)) ++ (0x01 ∷ 0 ∷ 0 ∷ 0 ∷ 0 ∷ 0xFF ∷ 0x09 ∷ 0 ∷ [])

reject_made :
    (cfg : Config) (env : Env) (w : World) (raw : FcHdr)
    → create_reject_els cfg env w (fc_to_host raw)
      ≡ ok (
          after_send env w (
            fc_frame cfg.g_bridge_mac cfg.g_local_mac
              (default_tunnel mellanox set_e)
              (reject_frame raw)))
unfolding create_reject_els
reject_made cfg env w raw =
    send_fc_packet-sent cfg env w cfg.g_local_mac cfg.g_bridge_mac (default_tunnel mellanox set_e)
      (reject_frame raw) 32 (omega arith) (omega arith)

-- The header that the fabric reads in the reject.
abbrev pub reject_read : FcHdr → FcHdr
reject_read raw = record raw {
  rt_ctrl_dest_id = swap32 (swap32 (bit_or 0x23000000 (swap32 raw.src_id % 2 ^ 24)));
  src_id = swap32 raw.rt_ctrl_dest_id % 2 ^ 24;
  type_frame_ctrl = 0x01990000;
  ox_id = swap16 raw.ox_id;
  res_id = swap16 raw.res_id;
}

reject_reads :
    (raw : FcHdr) → FcFits raw → read_fc_hdr (reject_frame raw) 32 0 ≡ ok (reject_read raw, 24)
unfolding read_fc_hdr fc_to_host reject_hdr
reject_reads raw fit =
    let src = swap32 raw.rt_ctrl_dest_id % 2 ^ 24 in
    let dest = bit_or 0x23000000 (swap32 raw.src_id % 2 ^ 24) in
    let short : src % 2 ^ 24 ≡ src = omega arith in
    rw (
      of_le32-le32 (swap32 dest) (swap32-IsWord32 dest),
      of_le32-le32 (swap32 src) (swap32-IsWord32 src),
      of_le32-le32 (swap32 0x01990000) (swap32-IsWord32 0x01990000),
      of_le16-le16 (swap16 raw.seq_count) (swap16-IsWord16 raw.seq_count),
      of_le16-le16 (swap16 (swap16 raw.ox_id)) (swap16-IsWord16 (swap16 raw.ox_id)),
      of_le16-le16 (swap16 (swap16 raw.res_id)) (swap16-IsWord16 (swap16 raw.res_id)),
      of_le32-le32 (swap32 raw.parameter) (swap32-IsWord32 raw.parameter),
      swap32-swap32 src (omega arith),
      swap32-swap32 0x01990000 (omega arith),
      swap16-swap16 raw.seq_count fit.seq_count,
      swap16-swap16 (swap16 raw.ox_id) (swap16-IsWord16 raw.ox_id),
      swap16-swap16 (swap16 raw.res_id) (swap16-IsWord16 raw.res_id),
      swap32-swap32 raw.parameter fit.parameter,
      short,
    )

-- A request that the fabric addresses to the VFM is answered by one reject, and the table stays as
-- it is. The fabric reads the VFM's address as the source, and its own exchange ids; the sequence
-- count and the parameter come back byte-swapped, as the raw numbers of the request.
pub request_rejected :
    (cfg : Config) (env : Env) (w : World) (pre : List ℕ) (raw : FcHdr) (ls : ℕ) (body : List ℕ)
    (t : TunnelHdr)
    → FcFits raw
    → w.g_gw_src_id ≡ swap32 raw.rt_ctrl_dest_id % 2 ^ 24
    → IsWord32 (length (response pre raw ls body))
    → let buff : List ℕ = response pre raw ls body in
      let w' = after_send env w (
        fc_frame cfg.g_bridge_mac cfg.g_local_mac
          (default_tunnel mellanox set_e)
          (reject_frame raw)) in
      (process_fc_response cfg env w buff (length buff) (length pre) t ≡ ok w')
      × (w'.req_map ≡ w.req_map)
      × (read_fc_hdr (reject_frame raw) 32 0 ≡ ok (reject_read raw, 24))
unfolding process_fc_response fc_to_host
request_rejected cfg env w pre raw ls body t fit own small = (
  rw (
    reads_fc pre raw ls body fit small,
    (==_iff w.g_gw_src_id (swap32 raw.rt_ctrl_dest_id % 2 ^ 24)).1 own,
    reject_made cfg env w raw,
  ),
  sent-req_map env w (
      fc_frame cfg.g_bridge_mac cfg.g_local_mac (default_tunnel mellanox set_e) (reject_frame raw)),
  reject_reads raw fit,
)
