-- ===== src/Sniffer/Process.antt =====
-- `process_packet` of src/vps/vfm/sniffer.c: from a task to the function for its frame.
use vfm.Base.{ℕ, ◌+◌, ◌*◌, ◌/◌, ◌%◌, not, none, some, List, ◌==◌, ltb, if◌then◌else◌, drop, sub32}
use vfm.Outcome.{ignore, incomplete_pk, Outcome, ok, err, fault, ◌>>=◌}
use vfm.Fip.{EthHdr, TunnelHdr, dword, fcoe_eth_type}
use vfm.Fip.Memory.{slice}
use vfm.Fip.Read.{read_eth_hdr, read_tunnel_hdr, read_ctrl_hdr}
use vfm.TaskQueue.{Job}
use vfm.World.{Config, Env, World}
use vfm.Sniffer.{Stack, decide_packet, process_fc_els_req, process_fc_response}

-- Any error in an ethernet header becomes `VPS_ERROR_IGNORE`.
unfoldable pub or_ignore {ℓ} : {A : Type ℓ} → Outcome A → Outcome A
or_ignore (ok a) = ok a
or_ignore (err e) = err ignore
or_ignore fault = fault

-- From the control header on: the descriptors, and the copies of the two footers.
unfoldable pub process_control :
    Config → Env → Stack → World → List ℕ → ℕ → ℕ → TunnelHdr → EthHdr → Outcome World
process_control cfg env st w buff size pos t fw = do
  (c, pos) ← read_ctrl_hdr buff size pos
  if ltb (sub32 size pos) (c.desc_list_length * dword) then err incomplete_pk else (do
    w ← decide_packet cfg env st w (some fw) (some t) c (some (drop pos buff))
    en_footer_fw ← slice pos dword buff
    en_footer ← slice (pos + dword) dword buff
    ok w)

-- A frame behind its tunnel header.
unfoldable pub process_tunneled :
    Config → Env → Stack → World → List ℕ → ℕ → ℕ → TunnelHdr → Outcome World
unfolding process_control or_ignore
process_tunneled cfg env st w buff size pos t =
    if not (t.port_num / 128 % 2 == 0) then process_fc_response cfg env w buff size pos t else do
      (fw, pos) ← or_ignore (read_eth_hdr buff size pos)
      if fw.ether_type == fcoe_eth_type
          then process_fc_els_req cfg env w buff pos t
          else process_control cfg env st w buff size pos t fw

-- `process_packet` on the task that it took; `LOCAL_VFM` is 0.
unfoldable pub process_packet : Config → Env → Stack → World → Job → Outcome World
unfolding process_tunneled or_ignore
process_packet cfg env st w job = if job.vfm_type == 0 then err ignore else do
  (fip_eth_hdr, pos) ← or_ignore (read_eth_hdr job.bytes job.size 0)
  (tunnel, pos) ← read_tunnel_hdr job.bytes job.size pos
  elim tunnel [
    | none ↦ err ignore
    | some t ↦ process_tunneled cfg env st w job.bytes job.size pos t
  ]
