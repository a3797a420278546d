-- ===== src/Tests/Frames.antt =====
-- The theorems on frames and on what the sniffer does with them.
use vfm.Base.{
  ℕ, true, ◌+◌, ◌-◌, ◌*◌, ◌≡◌, some, List, ◌∷◌, ◌++◌, arith, length, take, drop, le32, swap32,
  replicate,
}
use vfm.Outcome.{ok}
use vfm.Ether.{mac_bytes}
use vfm.Fip.{dword}
use vfm.Fip.Read.{read_eth_hdr, read_tunnel_hdr, read_ctrl_hdr, read_fc_hdr}
use vfm.TaskQueue.{fip_task}
use vfm.Sender.{packet_bytes}
use vfm.Sender.Fc.{fc_frame, after_send}
use vfm.Sender.Frame.{fip_header, tunnel_read, FieldsFit}
use vfm.Sender.ReadBack.{packet_reads_back, with_length, inner_source}
use vfm.Sniffer.{process_fc_els_req, process_fc_els_res, decide_packet, fcoe_frame}
use vfm.Sniffer.Process.{process_packet}
use vfm.Sniffer.Exchange.{FcFits}
use vfm.Sniffer.Dispatch.{claimed, e_flagged, els_relayed, received, control_dispatched}
use vfm.Sniffer.Els.{trailer, front, tail, e_cleared, els_answered}
use vfm.Tests.Data.{cfg, env, w, t, c, h, st, host_mac, vhba}

abbrev desc : List ℕ
desc = 2 ∷ 2 ∷ mac_bytes host_mac

t-FieldsFit : FieldsFit t c
t-FieldsFit = record {
  reserved1 = omega arith;
  reserved2 = omega arith;
  gw_id = omega arith;
  vfm_id = omega arith;
  opcode = omega arith;
  desc_list_length = omega arith;
  flags = omega arith;
}

packet_reads_back_example :
    (f : List ℕ) × (packet_bytes cfg true host_mac host_mac vhba t c desc ≡ ok f)
    × (length f ≡ 68 + c.desc_list_length * dword)
    × (read_eth_hdr f (length f) 0 ≡ ok (fip_header cfg.g_bridge_mac host_mac, 16))
    × (read_tunnel_hdr f (length f) 16 ≡ ok (some (tunnel_read (with_length t c)), 40))
    × (read_eth_hdr f (length f) 40 ≡ ok (fip_header host_mac (inner_source cfg vhba c), 56))
    × (read_ctrl_hdr f (length f) 56 ≡ ok (c, 64))
    × (drop 64 f ≡ take (c.desc_list_length * dword) desc ++ le32 0)
packet_reads_back_example =
    packet_reads_back cfg host_mac host_mac vhba t c desc t-FieldsFit (omega arith) (omega arith)

control_dispatched_example :
    (f : List ℕ) × (packet_bytes cfg true host_mac host_mac vhba t c desc ≡ ok f)
    × (process_packet cfg env st w (received f fip_task)
        ≡ decide_packet cfg env st w
            (some (fip_header host_mac (inner_source cfg vhba c)))
            (some (tunnel_read (with_length t c)))
            c
            (some (take (c.desc_list_length * dword) desc ++ le32 0)))
control_dispatched_example =
    control_dispatched cfg env st w fip_task host_mac host_mac vhba t c desc t-FieldsFit
      (omega arith) (omega arith) (omega arith) (omega arith)

abbrev buff : List ℕ
buff = replicate 180 3

els_relayed_example :
    process_fc_els_req cfg env w buff 56 t
    ≡ ok (
        after_send env w (
          fc_frame cfg.g_bridge_mac cfg.g_local_mac
            (e_flagged t)
            (take (claimed t) (drop 56 buff))))
els_relayed_example = els_relayed cfg env w buff 56 t (omega arith) (omega arith) (omega arith)

h-FcFits : FcFits h
h-FcFits = record {
  rt_ctrl_dest_id = omega arith;
  src_id = omega arith;
  type_frame_ctrl = omega arith;
  seq_count = omega arith;
  ox_id = omega arith;
  res_id = omega arith;
  parameter = omega arith;
}

els_answered_example :
    (process_fc_els_res cfg env w buff (length buff) 64 t h
      ≡ ok (
          after_send env w (
            fc_frame cfg.g_bridge_mac cfg.g_local_mac
              (e_cleared t (length (fcoe_frame cfg env h (drop 64 buff))))
              (fcoe_frame cfg env h (drop 64 buff)))))
    × (length (fcoe_frame cfg env h (drop 64 buff))
        ≡ front cfg + tail cfg + 24 + (length buff - 64))
    × (read_fc_hdr
          (fcoe_frame cfg env h (drop 64 buff))
          (length (fcoe_frame cfg env h (drop 64 buff)))
          (front cfg)
        ≡ ok (record h { parameter = swap32 h.parameter }, front cfg + 24))
    × (drop (front cfg + 24) (fcoe_frame cfg env h (drop 64 buff))
        ≡ drop 64 buff ++ trailer cfg env h (drop 64 buff))
els_answered_example =
    els_answered cfg env w buff 64 t h h-FcFits (omega arith) (omega arith) (omega arith)
      (omega arith)
