-- ===== src/Sender/Frame.antt =====
-- What the frames of `send_packet` read as: the sniffer's header functions give back what went in.
use vfm.Base.{
  ℕ, ◌+◌, ◌%◌, ◌^◌, ◌≤◌, ◌≡◌, refl, false, some, List, [], ◌++◌, arith, length, drop, ltb, le→ltb,
  sub32, IsWord16, IsWord32, of_le16-le16, of_le32-le32, swap16, swap16-swap16, swap16-IsWord16,
  swap32,
}
use vfm.Outcome.{ok}
use vfm.Ether.{Mac, mac, Name, name}
use vfm.Fip.{EthHdr, CtrlHdr, TunnelHdr, ctrl_image, tunnel_hdr_type}
use vfm.Fip.Read.{read_eth_hdr, read_tunnel_hdr, read_ctrl_hdr}
use vfm.Sender.{fill_ether_hdr, fill_tunnel_hdr, ctrl_to_network}

-- A frame of at most 2^32 bytes that goes on for `n` bytes behind `pos` passes the size test.
pub long_enough : (size pos n : ℕ) → pos + n ≤ size → IsWord32 size → ltb (sub32 size pos) n ≡ false
long_enough size pos n h w = le→ltb (sub32 size pos) n (omega arith)

-- an Ethernet header without VLAN tag, as `fill_ether_hdr` writes it
abbrev pub fip_header : (dhost shost : Mac) → EthHdr
fip_header d s = record {
  dhost_mac = d;
  shost_mac = s;
  vlan_tag = 0;
  ether_type = 0x8914;
  version = 1;
}

-- The 64 bytes of headers, with `rest` behind them.
abbrev pub layout : (gm vm cm sm : Mac) → TunnelHdr → CtrlHdr → List ℕ → List ℕ
layout gm vm cm sm t c rest =
    fill_ether_hdr (fill_tunnel_hdr (fill_ether_hdr [] gm vm 0) t) cm sm 0
    ++ (ctrl_image (ctrl_to_network c) ++ rest)

-- The tunnel header as it is read: typed, its identifiers byte-swapped and cut to 24 bits.
abbrev pub tunnel_read : TunnelHdr → TunnelHdr
tunnel_read t = record t {
  type = tunnel_hdr_type;
  gw_id = swap32 t.gw_id % 2 ^ 24;
  vfm_id = swap32 t.vfm_id % 2 ^ 24;
}

-- The fields fit their C types.
pub record FieldsFit (t : TunnelHdr) (c : CtrlHdr) : Type 0 where
  pub reserved1 : IsWord16 t.reserved1
  pub reserved2 : IsWord16 t.reserved2
  pub gw_id : IsWord32 t.gw_id
  pub vfm_id : IsWord32 t.vfm_id
  pub opcode : IsWord16 c.opcode
  pub desc_list_length : IsWord16 c.desc_list_length
  pub flags : IsWord16 c.flags

module _ (rest : List ℕ) (size : ℕ) (long : 64 ≤ size) (word : IsWord32 size) where
  pub layout-eth :
      (gm vm cm sm : Mac) (t : TunnelHdr) (c : CtrlHdr)
      → read_eth_hdr (layout gm vm cm sm t c rest) size 0 ≡ ok (fip_header gm vm, 16)
  unfolding fill_ether_hdr fill_tunnel_hdr read_eth_hdr swap16
  layout-eth (mac _ _ _ _ _ _) (mac _ _ _ _ _ _) cm sm t c =
      rw (long_enough size 0 20 (omega arith) word)

  pub layout-inner :
      (gm vm cm sm : Mac) (n : Name) (ty ln r1 g p r2 gw vf : ℕ) (c : CtrlHdr)
      → read_eth_hdr
          (layout gm vm cm sm
            (record {
              type = ty;
              length = ln;
              reserved1 = r1;
              t10_vender_id = n;
              group = g;
              port_num = p;
              reserved2 = r2;
              gw_id = gw;
              vfm_id = vf;
            })
            c
            rest)
          size
          40
        ≡ ok (fip_header cm sm, 56)
  unfolding fill_ether_hdr fill_tunnel_hdr read_eth_hdr swap16
  layout-inner (mac _ _ _ _ _ _) (mac _ _ _ _ _ _) (mac _ _ _ _ _ _) (mac _ _ _ _ _ _)
        (name _ _ _ _ _ _ _ _) ty ln r1 g p r2 gw vf c =
      rw (long_enough size 40 20 (omega arith) word)

  pub layout-tunnel :
      (gm vm cm sm : Mac) (n : Name) (ty ln r1 g p r2 gw vf : ℕ) (c : CtrlHdr)
      → IsWord16 r1
      → IsWord16 r2
      → IsWord32 gw
      → IsWord32 vf
      → let t : TunnelHdr = record {
        type = ty;
        length = ln;
        reserved1 = r1;
        t10_vender_id = n;
        group = g;
        port_num = p;
        reserved2 = r2;
        gw_id = gw;
        vfm_id = vf;
      } in
        read_tunnel_hdr (layout gm vm cm sm t c rest) size 16 ≡ ok (some (tunnel_read t), 40)
  unfolding fill_ether_hdr fill_tunnel_hdr read_tunnel_hdr
  layout-tunnel (mac _ _ _ _ _ _) (mac _ _ _ _ _ _) (mac _ _ _ _ _ _) (mac _ _ _ _ _ _)
        (name _ _ _ _ _ _ _ _) ty ln r1 g p r2 gw vf c h1 h2 h3 h4 =
      rw (
        long_enough size 16 24 (omega arith) word,
        of_le16-le16 r1 h1,
        of_le16-le16 r2 h2,
        of_le32-le32 gw h3,
        of_le32-le32 vf h4,
      )

  pub layout-ctrl :
      (gm vm cm sm : Mac) (n : Name) (ty ln r1 g p r2 gw vf : ℕ) (c : CtrlHdr)
      → IsWord16 c.opcode
      → IsWord16 c.desc_list_length
      → IsWord16 c.flags
      → let t : TunnelHdr = record {
        type = ty;
        length = ln;
        reserved1 = r1;
        t10_vender_id = n;
        group = g;
        port_num = p;
        reserved2 = r2;
        gw_id = gw;
        vfm_id = vf;
      } in
        (read_ctrl_hdr (layout gm vm cm sm t c rest) size 56 ≡ ok (c, 64))
        × (drop 64 (layout gm vm cm sm t c rest) ≡ rest)
        × (length (layout gm vm cm sm t c rest) ≡ 64 + length rest)
  unfolding fill_ether_hdr fill_tunnel_hdr read_ctrl_hdr ctrl_to_network
  layout-ctrl (mac _ _ _ _ _ _) (mac _ _ _ _ _ _) (mac _ _ _ _ _ _) (mac _ _ _ _ _ _)
        (name _ _ _ _ _ _ _ _) ty ln r1 g p r2 gw vf c h1 h2 h3 =
      (
        rw (
          long_enough size 56 8 (omega arith) word,
          of_le16-le16 (swap16 c.opcode) (swap16-IsWord16 c.opcode),
          of_le16-le16 (swap16 c.desc_list_length) (swap16-IsWord16 c.desc_list_length),
          of_le16-le16 (swap16 c.flags) (swap16-IsWord16 c.flags),
          swap16-swap16 c.opcode h1,
          swap16-swap16 c.desc_list_length h2,
          swap16-swap16 c.flags h3,
        ),
        refl,
        omega arith,
      )
