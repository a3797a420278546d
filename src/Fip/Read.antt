-- ===== src/Fip/Read.antt =====
-- src/vps/vfm/sniffer.c: the functions that read one header of a received frame. `pos` is `*ret_pos`;
-- a function that succeeds returns the header in host order and the new position. Positions stay
-- far below 2^32, so only `size - *ret_pos` is written with its wrap-around.
use vfm.Base.{
  ℕ, ◌+◌, ◌-◌, ◌*◌, ◌/◌, ◌%◌, ◌^◌, ◌==◌, Option, none, some, List, ltb, if◌then◌else◌, drop,
  get_elem?, sub32, swap16, swap32,
}
use vfm.Outcome.{incomplete_pk, Outcome, ok, err, or_fault, ◌>>=◌}
use vfm.Fip.{
  EthHdr, FcHdr, CtrlHdr, TunnelHdr, dword, vlan_tag_value, tunnel_hdr_type, take16, load_eth_hdr,
  load_fc_hdr, load_ctrl_hdr, load_tunnel_hdr,
}

-- the structures' sizes; `ETH_HDR_LEN` is that of `eth_hdr`
abbrev pub eth_hdr_len : ℕ
eth_hdr_len = 20

abbrev pub fc_hdr_len : ℕ
fc_hdr_len = 24

abbrev pub ctrl_hdr_len : ℕ
ctrl_hdr_len = 8

abbrev pub tunnel_hdr_len : ℕ
tunnel_hdr_len = 24

-- `GET_VLAN_TAG(buff)`: bytes 12 and 13 of the buffer, whatever the position is
abbrev pub get_vlan_tag : List ℕ → Outcome ℕ
get_vlan_tag buff = do
  hi ← or_fault (get_elem? buff 12)
  lo ← or_fault (get_elem? buff 13)
  ok (hi * 256 + lo)

-- Without a VLAN tag its four bytes are the ether type and the version: step back and read these.
untagged : List ℕ → ℕ → EthHdr → Outcome (EthHdr × ℕ)
untagged buff pos hdr = do
  let at = pos + eth_hdr_len - 2 * dword
  (type, _) ← take16 (drop at buff)
  (version, _) ← take16 (drop (at + 2) buff)
  ok (record hdr { ether_type = type; version = version; vlan_tag = 0 }, at + dword)

-- `ntohs` of both fields; the version is the top nibble.
eth_to_host : EthHdr → EthHdr
eth_to_host h = record h {
  ether_type = swap16 h.ether_type;
  version = swap16 h.version / 4096 % 16;
}

unfoldable pub read_eth_hdr : List ℕ → ℕ → ℕ → Outcome (EthHdr × ℕ)
unfolding load_eth_hdr untagged eth_to_host
read_eth_hdr buff size pos = if ltb (sub32 size pos) eth_hdr_len then err incomplete_pk else do
  hdr ← load_eth_hdr (drop pos buff)
  tag ← get_vlan_tag buff
  (hdr, pos) ← if tag == vlan_tag_value then ok (hdr, pos + eth_hdr_len) else untagged buff pos hdr
  ok (eth_to_host hdr, pos)

unfoldable pub fc_to_host : FcHdr → FcHdr
fc_to_host h = record h {
  rt_ctrl_dest_id = swap32 h.rt_ctrl_dest_id;
  src_id = swap32 h.src_id % 2 ^ 24;
  type_frame_ctrl = swap32 h.type_frame_ctrl;
  seq_count = swap16 h.seq_count;
  ox_id = swap16 h.ox_id;
  res_id = swap16 h.res_id;
  parameter = swap32 h.parameter;
}

unfoldable pub read_fc_hdr : List ℕ → ℕ → ℕ → Outcome (FcHdr × ℕ)
unfolding load_fc_hdr fc_to_host
read_fc_hdr buff size pos =
    if ltb (sub32 size pos) fc_hdr_len
    then err incomplete_pk
    else do hdr ← load_fc_hdr (drop pos buff); ok (fc_to_host hdr, pos + fc_hdr_len)

-- Both identifiers are 24 bits wide.
tunnel_to_host : TunnelHdr → TunnelHdr
tunnel_to_host h = record h { gw_id = swap32 h.gw_id % 2 ^ 24; vfm_id = swap32 h.vfm_id % 2 ^ 24 }

-- `some` is `*tunnel_flag == TRUE`
unfoldable pub read_tunnel_hdr : List ℕ → ℕ → ℕ → Outcome (Option TunnelHdr × ℕ)
unfolding load_tunnel_hdr tunnel_to_host
read_tunnel_hdr buff size pos =
    if ltb (sub32 size pos) tunnel_hdr_len then err incomplete_pk else do
      type ← or_fault (get_elem? buff pos)
      if type == tunnel_hdr_type
          then (do
            hdr ← load_tunnel_hdr (drop pos buff)
            ok (some (tunnel_to_host hdr), pos + tunnel_hdr_len))
          else ok (none, pos)

ctrl_to_host : CtrlHdr → CtrlHdr
ctrl_to_host h = record h {
  opcode = swap16 h.opcode;
  desc_list_length = swap16 h.desc_list_length;
  flags = swap16 h.flags;
}

unfoldable pub read_ctrl_hdr : List ℕ → ℕ → ℕ → Outcome (CtrlHdr × ℕ)
unfolding load_ctrl_hdr ctrl_to_host
read_ctrl_hdr buff size pos =
    if ltb (sub32 size pos) ctrl_hdr_len
    then err incomplete_pk
    else do hdr ← load_ctrl_hdr (drop pos buff); ok (ctrl_to_host hdr, pos + ctrl_hdr_len)
