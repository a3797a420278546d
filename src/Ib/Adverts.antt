-- ===== src/Ib/Adverts.antt =====
-- src/vps/vfm/vfm_iboe.c: solicitations and advertisements of Ethernet over InfiniBand, with the two
-- functions of src/vps/vfm/vfm_ib.c that send an advertisement and the one of
-- src/vps/vfm/sniffer.c that answers a solicitation. The code is built with `VFM_EOIB` only.
use vfm.Base.{
  ℕ, ◌*◌, ◌%◌, Option, none, some, ◌==◌, ◌&&◌, List, [], ◌∷◌, ◌++◌, length, drop, replicate, ltb,
  if◌then◌else◌, le16, le32, swap16, swap32,
}
use vfm.Outcome.{Outcome, ok, err, fault, ◌>>=◌}
use vfm.Fip.{CtrlHdr, dword, take16, take32}
use vfm.Fip.Memory.{Object, store, slice}
use vfm.Fip.Tlv.{Memory, emit_tlv}
use vfm.Fip.Read.{read_ctrl_hdr}
use vfm.Fip.Descriptor.{read_field}
use vfm.Ib.{InitInfo, vfm_send_ib_packet}
use vfm.Ib.Mad.{IbLibrary, Unwritten, mcast_gid, create_mcast_mad_packet}

-- `eoib_conx_vfm_adv`, 32 bytes: `vendor_id` at 0, `mlnx_240` at 8, with `qpn` at 16,
-- `sl_gw_port_id` at 20, `lid` at 22 and `gw_guid` at 24
unfoldable pub eoib_conx_discovery : Memory → Object → List ℕ → Outcome Object
unfolding read_field store
eoib_conx_discovery mem solicit ptr = do
  (solicit, ptr) ← read_field mem 0 solicit ptr
  (solicit, ptr) ← read_field mem 8 solicit ptr
  (qpn, r) ← take32 (drop 16 solicit.bytes)
  (port, r) ← take16 r
  (lid, r) ← take16 r
  ok (store solicit 16 (le32 (swap32 qpn) ++ (le16 (swap16 port) ++ le16 (swap16 lid))))

-- `eoib_vNIC_adv`: the vendor's name, and the images of its two structures
pub record EoibAdv : Type 0 where
  pub vendor_id : List ℕ
  pub mlnx_240 : List ℕ
  pub mlnx_241 : List ℕ

-- The three descriptors, each laid out from its field and what lies behind it.
unfoldable pub eoib_vnic_advertisement : EoibAdv → Outcome (List ℕ)
unfolding emit_tlv
eoib_vnic_advertisement adv = do
  vendor ← emit_tlv 13 3 (adv.vendor_id ++ (adv.mlnx_240 ++ adv.mlnx_241))
  port ← emit_tlv 240 7 (adv.mlnx_240 ++ adv.mlnx_241)
  vlans ← emit_tlv 241 4 adv.mlnx_241
  ok (vendor.bytes ++ (port.bytes ++ vlans.bytes))

-- the characters of `mellanox_str`
abbrev mellanox_str : List ℕ
mellanox_str = b'v' ∷ b'p' ∷ b's' ∷ b'y' ∷ b's' ∷ b't' ∷ b'e' ∷ b'm' ∷ []

-- The block has the header's length in host order, swapped, in words of four bytes. The identifier
-- is 8 bytes of a text of one character.
unfoldable pub prepare_eoib_vnic_advertisement : CtrlHdr → (init_info : InitInfo) → Outcome (List ℕ)
unfolding eoib_vnic_advertisement slice
prepare_eoib_vnic_advertisement c init = do
  guid ← slice 0 8 (b'1' ∷ 0 ∷ [])
  desc ← eoib_vnic_advertisement (record {
    vendor_id = mellanox_str;
    mlnx_240 =
        mellanox_str
        ++ (le32 (swap32 init.qp) ++ (le16 (swap16 0) ++ (le16 (swap16 init.lid) ++ guid)));
    mlnx_241 = mellanox_str ++ 0 ∷ 0 ∷ le16 (swap16 0x80);
  })
  let block : List ℕ = replicate (swap16 c.desc_list_length * dword) 0
  if ltb (length block) (length desc) then fault else ok (desc ++ drop (length desc) block)

-- `flags` is what was on the stack, with the bits of an advertisement set.
abbrev advert_hdr : (flags : ℕ) → CtrlHdr
advert_hdr flags = record {
  opcode = swap16 0xFFF9;
  reserved = 0;
  subcode = 2;
  desc_list_length = 14;
  flags = swap16 flags;
}

-- The packet that is sent.
unfoldable pub vfm_send_gw_adv :
    IbLibrary → Unwritten → (init_info_pack : InitInfo) → (flags : ℕ) → Outcome (List ℕ)
unfolding create_mcast_mad_packet prepare_eoib_vnic_advertisement vfm_send_ib_packet
vfm_send_gw_adv lib u init flags =
    let mcast_lid = lib.bx_send_sa (create_mcast_mad_packet lib u 0xFFFF init.gid) % 65536 in
    prepare_eoib_vnic_advertisement (advert_hdr flags) init >>= λ buff.
    vfm_send_ib_packet init (record { lid = mcast_lid; gid = mcast_gid; qp = 0xFFFFFF })
      (advert_hdr flags) buff

unfoldable pub vfm_send_unicast_gw_adv :
    (init_info_pack : InitInfo) → (flags : ℕ) → (solicit : Object) → Outcome (List ℕ)
unfolding slice prepare_eoib_vnic_advertisement vfm_send_ib_packet
vfm_send_unicast_gw_adv init flags solicit = do
  (qpn, r) ← take32 (drop 16 solicit.bytes)
  (_, r) ← take16 r
  (lid, _) ← take16 r
  gid ← slice 24 16 solicit.bytes
  buff ← prepare_eoib_vnic_advertisement (advert_hdr flags) init
  vfm_send_ib_packet init (record { lid = swap16 lid; gid = gid; qp = swap32 qpn })
      (advert_hdr flags) buff

-- What a packet is answered with, by its control header. `solicit` is the structure on the stack.
-- Without a control header its fields were never written.
unfoldable pub lbc_answer :
    Memory
    → (init_info_pack : InitInfo) → (flags : ℕ) → (solicit : Object) → (packet : List ℕ)
    → Outcome (CtrlHdr × ℕ)
    → Outcome (Option (List ℕ))
unfolding eoib_conx_discovery vfm_send_unicast_gw_adv
lbc_answer mem init flags solicit packet (ok (c, offset)) =
    if c.opcode == 0xFFF9 && c.subcode == 1
    then (eoib_conx_discovery mem solicit (drop offset packet) >>= λ filled.
        vfm_send_unicast_gw_adv init flags filled >>= λ f. ok (some f))
    else ok none
lbc_answer mem init flags solicit packet (err _) = fault
lbc_answer mem init flags solicit packet fault = fault

-- `process_lbc_packet` of src/vps/vfm/sniffer.c: what is sent for a packet that `bx_recv` returns
unfoldable pub process_lbc_packet :
    Memory
    → (init_info_pack : InitInfo) → (flags : ℕ) → (solicit : Object) → (packet : List ℕ)
    → Outcome (Option (List ℕ))
unfolding read_ctrl_hdr lbc_answer
process_lbc_packet mem init flags solicit packet =
    lbc_answer mem init flags solicit packet (read_ctrl_hdr packet (length packet) 0)
