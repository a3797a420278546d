-- ===== src/Builder.antt =====
-- src/vps/vfm/vfm_create_pk.c: the packets that the VFM makes itself, under `OPEN_FCOE` as the Makefile
-- builds them. The status of the sending functions is dropped, as the code drops it; a block that
-- `create_tlv` overruns (Fip/Tlv) is used as if the bytes behind it were free.
pub mod Create
pub mod Advert
pub mod Exchange
pub mod Granted
pub mod Answer
use Prim.Native.Nat.{bit_or}
use vfm.Base.{
  ℕ, ◌+◌, ◌-◌, ◌*◌, ◌%◌, ◌^◌, Bool, true, false, not, ◌&&◌, Option, List, [], ◌∷◌, ◌++◌, ◌==◌,
  if◌then◌else◌, take, drop, replicate, of_le16, le16, le32, swap16, swap32,
}
use vfm.Outcome.{VpsError, Outcome, ok, fault, ◌>>=◌}
use vfm.Ether.{Mac, mac, mac_bytes, Name, name, name_bytes, is_multicast_ether_addr}
use vfm.Fip.{EthHdr, FcHdr, CtrlHdr, TunnelHdr, dword, fc_image, take16, take_mac}
use vfm.Fip.Memory.{Object, store, slice, patch, write_into}
use vfm.Fip.Tlv.{emit_tlv}
use vfm.ReqMap.{Entry, add_entry_to_map}
use vfm.World.{FcMap, fc_map, Config, Env, World}
use vfm.Sender.{send_packet, send_fc_packet, sent}

-- `FLOGI_SIZE`, in dwords
abbrev pub flogi_size : ℕ
flogi_size = 35

abbrev pub set_e : ℕ
set_e = 0x80

abbrev pub set_f : ℕ
set_f = 0x1

abbrev pub set_fp : ℕ
set_fp = 0x8000

abbrev pub vpsystem : Name
vpsystem = name b'v' b'p' b's' b'y' b's' b't' b'e' b'm'

abbrev pub mellanox : Name
mellanox = name b'm' b'e' b'l' b'l' b'a' b'n' b'o' b'x'

abbrev pub fc_map_bytes : FcMap → List ℕ
fc_map_bytes (fc_map a b c) = a ∷ b ∷ c ∷ []

-- `strcpy(t10_vender_id, ...)` of eight characters: its NUL falls on `group`.
unfoldable pub name_vender : Name → TunnelHdr → TunnelHdr
name_vender n t = record t { t10_vender_id = n; group = 0 }

-- the zeroed tunnel header with a vendor name
unfoldable pub default_tunnel : Name → (port : ℕ) → TunnelHdr
unfolding name_vender
default_tunnel n port = name_vender n (record {
  type = 0;
  length = 0;
  reserved1 = 0;
  t10_vender_id = n;
  group = 0;
  port_num = port;
  reserved2 = 0;
  gw_id = 0;
  vfm_id = 0;
})

-- `fcoe_vHBA_adv`
pub record VhbaAdv : Type 0 where
  pub priority : ℕ
  pub fcf_gw_mac : Mac
  pub switch_name : Name
  pub fc_map : FcMap
  pub fabric_name : Name
  pub fka_adv_period : ℕ

-- The five descriptors one after another. The copy for type 5 reads 14 bytes from `tlv_5` on: its
-- 11, two of padding and one of `fka_adv_period`.
unfoldable pub fcoe_vhba_advertisement : (padding : ℕ × ℕ) → VhbaAdv → Outcome (List ℕ)
unfolding emit_tlv
fcoe_vhba_advertisement padding adv = do
  a ← emit_tlv 1 1 (adv.priority ∷ [])
  b ← emit_tlv 2 2 (mac_bytes adv.fcf_gw_mac)
  c ← emit_tlv 4 3 (name_bytes adv.switch_name)
  d ← emit_tlv 5 4 (
      fc_map_bytes adv.fc_map
      ++ (name_bytes adv.fabric_name ++ (padding.0 ∷ padding.1 ∷ le32 adv.fka_adv_period)))
  e ← emit_tlv 12 2 (le32 adv.fka_adv_period)
  ok (a.bytes ++ (b.bytes ++ (c.bytes ++ (d.bytes ++ e.bytes))))

-- The zeroed descriptor list, with the advertisement written into it.
unfoldable pub prepare_fcoe_vhba_advertisement :
    Config → (padding : ℕ × ℕ) → CtrlHdr → Outcome (List ℕ)
unfolding fcoe_vhba_advertisement write_into
prepare_fcoe_vhba_advertisement cfg padding c = do
  bs ← fcoe_vhba_advertisement padding (record {
    priority = 45;
    fcf_gw_mac = cfg.g_bridge_enc_mac;
    switch_name = cfg.g_wwnn;
    fc_map = cfg.g_fc_map;
    fabric_name = cfg.g_wwpn;
    fka_adv_period = swap32 50000;
  })
  write_into 0 bs (replicate (c.desc_list_length * dword) 0)

unfoldable pub prepare_fc_hdr : FcHdr
prepare_fc_hdr = record {
  rt_ctrl_dest_id = swap32 0x22FFFFFE;
  src_id = 0;
  type_frame_ctrl = swap32 0x01290000;
  seq_id = 0;
  data_field_ctrl = 0;
  seq_count = 0;
  ox_id = 1;
  res_id = swap16 0xffff;
  parameter = 0x12345678;
}

-- The entry that a host's FLOGI leaves in the table.
unfoldable pub flogi_entry : EthHdr → CtrlHdr → (oxid : ℕ) → (vhba : Mac) → Entry
flogi_entry fw c oxid vhba = record {
  oxid = oxid;
  mac = fw.shost_mac;
  ctrl_flags = c.flags;
  vhba_mac = vhba;
  flag = 0;
}

-- A host's FLOGI goes on to the bridge as an FDISC under the VFM's own exchange id.
unfoldable pub create_packet_ex :
    Config → Env → World → EthHdr → TunnelHdr → CtrlHdr → List ℕ → Outcome World
unfolding flogi_entry name_vender
create_packet_ex cfg env w fw t c desc_buff = do
  let t = name_vender vpsystem (record t { port_num = bit_or t.port_num set_e })
  payload ← slice 4 (flogi_size * dword) desc_buff
  payload ← write_into 24 (0x51 ∷ []) payload
  (oxid, _) ← take16 (drop 16 payload)
  (vhba, _) ← take_mac (drop (4 + (flogi_size * dword + 2)) desc_buff)
  let (k, m) = add_entry_to_map w.req_map (flogi_entry fw c oxid vhba)
  payload ← write_into 16 (le16 (swap16 k)) payload
  sent (
      send_fc_packet cfg env (record w { req_map = m }) cfg.g_local_mac cfg.g_bridge_mac t payload
        (flogi_size * dword))

-- The VFM's own FLOGI payload: the zeroed 116 bytes behind the FC header, with what is set there.
unfoldable pub flogi_payload : Config → List ℕ
unfolding patch
flogi_payload cfg =
    let p = patch 0 (0x04 ∷ []) (replicate 116 0) in
    let p = patch 4 (0x20 ∷ 0x20 ∷ []) p in
    let p = patch 7 (0x0a ∷ []) p in
    let p = patch 10 (0x05 ∷ 0xac ∷ []) p in
    let p = patch 20 (name_bytes cfg.g_wwpn) p in
    let p = patch 28 (name_bytes cfg.g_wwnn) p in patch 68 (0x88 ∷ []) p

unfoldable pub vfm_flogi_entry : Config → Entry
unfolding prepare_fc_hdr
vfm_flogi_entry cfg = record {
  oxid = prepare_fc_hdr.ox_id;
  mac = cfg.g_local_mac;
  ctrl_flags = 0;
  vhba_mac = cfg.g_local_mac;
  flag = 1;
}

unfoldable pub create_vfm_flogi : Config → Env → World → Outcome World
unfolding vfm_flogi_entry flogi_payload prepare_fc_hdr
create_vfm_flogi cfg env w =
    let t = default_tunnel vpsystem set_e in
    let (k, m) = add_entry_to_map w.req_map (vfm_flogi_entry cfg) in
    let hdr = record prepare_fc_hdr { ox_id = swap16 k } in
    sent (
      send_fc_packet cfg env (record w { req_map = m }) cfg.g_local_mac cfg.g_bridge_mac t
        (fc_image hdr ++ flogi_payload cfg) (flogi_size * dword))

-- The header of a reject, from the request's in host order. The fields that the code does not
-- touch stay in host order.
unfoldable pub reject_hdr : FcHdr → FcHdr
reject_hdr h = record h {
  rt_ctrl_dest_id = swap32 (bit_or 0x23000000 h.src_id);
  src_id = swap32 (h.rt_ctrl_dest_id % 2 ^ 24);
  type_frame_ctrl = swap32 0x01990000;
  res_id = swap16 h.res_id;
  ox_id = swap16 h.ox_id;
}

unfoldable pub create_reject_els : Config → Env → World → FcHdr → Outcome World
unfolding reject_hdr
create_reject_els cfg env w h = sent (
    send_fc_packet cfg env w cfg.g_local_mac cfg.g_bridge_mac (default_tunnel mellanox set_e)
      (fc_image (reject_hdr h) ++ (0x01 ∷ 0 ∷ 0 ∷ 0 ∷ 0 ∷ 0xFF ∷ 0x09 ∷ 0 ∷ [])) (8 * dword))

-- `FC_MAP` and the destination identifier, as a MAC address: the first three bytes of
-- `htonl(rt_ctrl_dest_id << 8)`.
unfoldable pub fpma : Config → FcHdr → List ℕ
fpma cfg h = fc_map_bytes cfg.g_fc_map ++ take 3 (le32 (swap32 (h.rt_ctrl_dest_id * 256 % 2 ^ 32)))

unfoldable pub fdisc_ctrl : Entry → (accept : Bool) → CtrlHdr
fdisc_ctrl e accept = record {
  opcode = 2;
  reserved = 0;
  subcode = 2;
  desc_list_length = if accept then 38 else 11;
  flags = bit_or e.ctrl_flags set_f;
}

-- The answer to a host's FLOGI, from the bridge's answer to the FDISC. The requester's exchange id
-- is written back into the frame first. The test is `control_hdr.flags && SET_FP`.
unfoldable pub prepare_fdisc_res :
    Config → Env → World → List ℕ → ℕ → Entry → FcHdr → (accept : Bool) → Outcome World
unfolding fdisc_ctrl fpma emit_tlv
prepare_fdisc_res cfg env w msg_desc pos e h accept = do
  let start = pos - 24
  let c = fdisc_ctrl e accept
  msg_desc ← write_into (start + 16) (le16 e.oxid) msg_desc
  seven ← emit_tlv 7 (c.desc_list_length - 2) (drop start msg_desc)
  two ←
      emit_tlv 2 2
        (if not (c.flags == 0) && not (set_fp == 0) then fpma cfg h else mac_bytes e.vhba_mac)
  sent (
      send_packet cfg env w true cfg.g_local_mac e.mac cfg.g_bridge_enc_mac
        (default_tunnel vpsystem 0) c (seven.bytes ++ two.bytes))
