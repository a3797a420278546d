-- ===== src/Sender/ReadBack.antt =====
-- `send_packet` against the sniffer: a sent control packet is read back header by header.
use vfm.Base.{
  ℕ, ◌+◌, ◌*◌, ◌/◌, ◌%◌, ◌≤◌, ◌≡◌, true, some, List, ◌++◌, arith, length, take, drop, le→ltb,
  IsWord32, le32, length-append, length-take, if◌then◌else◌, Bool-cases, inl, inr, ◌==◌, ◌&&◌,
}
use vfm.Outcome.{ok}
use vfm.Ether.{Mac}
use vfm.Fip.{CtrlHdr, TunnelHdr, dword, ctrl_image}
use vfm.Fip.Memory.{slice-ok}
use vfm.Fip.Read.{read_eth_hdr, read_tunnel_hdr, read_ctrl_hdr}
use vfm.World.{Config}
use vfm.Sender.{max_pk_len, packet_headers, packet_bytes, desc_length, bounded, ctrl_to_network}
use vfm.Sender.Frame.{
  layout, layout-eth, layout-inner, layout-tunnel, layout-ctrl, fip_header, tunnel_read, FieldsFit,
}

-- The tunnel header that goes out with a control packet.
abbrev pub with_length : TunnelHdr → CtrlHdr → TunnelHdr
with_length t c = record t { length = (48 + desc_length c) / dword % 256 }

-- The source address of the inner header: the demonstration's exception for forwarded requests.
abbrev pub inner_source : Config → Mac → CtrlHdr → Mac
inner_source cfg bridge c = if c.opcode == 2 && c.subcode == 1 then bridge else cfg.g_bridge_enc_mac

headers-layout :
    (cfg : Config) (vm cm bm : Mac) (t : TunnelHdr) (c : CtrlHdr) (rest : List ℕ)
    → packet_headers cfg true vm cm bm t c ++ (ctrl_image (ctrl_to_network c) ++ rest)
      ≡ layout cfg.g_bridge_mac vm cm (inner_source cfg bm c) (with_length t c) c rest
unfolding packet_headers
headers-layout cfg vm cm bm t c rest = elim (Bool-cases (c.opcode == 2 && c.subcode == 1)) [
  | inl e ↦ rw e
  | inr e ↦ rw e
]

bounded-ok : (f : List ℕ) → length f ≤ max_pk_len → bounded f ≡ ok f
unfolding bounded
bounded-ok f h = rw (le→ltb max_pk_len (length f) h)

-- the frame
abbrev framed : Config → (vm cm bm : Mac) → TunnelHdr → CtrlHdr → List ℕ → List ℕ
framed cfg vm cm bm t c rest =
    layout cfg.g_bridge_mac vm cm (inner_source cfg bm c) (with_length t c) c rest

module _ (cfg : Config) (vm cm bm : Mac) (t : TunnelHdr) (c : CtrlHdr) (rest : List ℕ)
    (fit : FieldsFit t c) where
  length-framed : length (framed cfg vm cm bm t c rest) ≡ 64 + length rest
  length-framed =
      (layout-ctrl rest 64 (omega arith) (omega arith) cfg.g_bridge_mac vm cm
        (inner_source cfg bm c) t.t10_vender_id t.type ((48 + desc_length c) / dword % 256)
        t.reserved1 t.group t.port_num t.reserved2 t.gw_id t.vfm_id c fit.opcode
        fit.desc_list_length fit.flags).2

  reads :
      64 + length rest ≤ max_pk_len
      → let f = framed cfg vm cm bm t c rest in
        (read_eth_hdr f (length f) 0 ≡ ok (fip_header cfg.g_bridge_mac vm, 16))
        × (read_tunnel_hdr f (length f) 16 ≡ ok (some (tunnel_read (with_length t c)), 40))
        × (read_eth_hdr f (length f) 40 ≡ ok (fip_header cm (inner_source cfg bm c), 56))
        × (read_ctrl_hdr f (length f) 56 ≡ ok (c, 64))
        × (drop 64 f ≡ rest)
  reads small =
      let f = framed cfg vm cm bm t c rest in
      let long : 64 ≤ length f = omega (arith, length-framed) in
      let word : IsWord32 (length f) = omega (arith, length-framed) in
      let ln = (48 + desc_length c) / dword % 256 in
      let src = inner_source cfg bm c in
      let ctrl =
        layout-ctrl rest (length f) long word cfg.g_bridge_mac vm cm src t.t10_vender_id t.type ln
          t.reserved1 t.group t.port_num t.reserved2 t.gw_id t.vfm_id c fit.opcode
          fit.desc_list_length fit.flags in
      (
        layout-eth rest (length f) long word cfg.g_bridge_mac vm cm src (with_length t c) c,
        layout-tunnel rest (length f) long word cfg.g_bridge_mac vm cm src t.t10_vender_id t.type ln
            t.reserved1 t.group t.port_num t.reserved2 t.gw_id t.vfm_id c fit.reserved1
            fit.reserved2 fit.gw_id fit.vfm_id,
        layout-inner rest (length f) long word cfg.g_bridge_mac vm cm src t.t10_vender_id t.type ln
            t.reserved1 t.group t.port_num t.reserved2 t.gw_id t.vfm_id c,
        ctrl.0,
        ctrl.1,
      )

packet-framed :
    (cfg : Config) (vm cm bm : Mac) (t : TunnelHdr) (c : CtrlHdr) (desc : List ℕ)
    → FieldsFit t c
    → c.desc_list_length * dword ≤ length desc
    → 68 + c.desc_list_length * dword ≤ max_pk_len
    → packet_bytes cfg true vm cm bm t c desc
      ≡ ok (framed cfg vm cm bm t c (take (c.desc_list_length * dword) desc ++ le32 0))
unfolding packet_bytes
packet-framed cfg vm cm bm t c desc fit le small =
    let n : desc_length c ≡ c.desc_list_length * dword = omega arith in
    let rest : List ℕ = take (desc_length c) desc ++ le32 0 in
    let size : length rest ≡ c.desc_list_length * dword + 4 = omega (
      arith,
      length-append (take (desc_length c) desc) (le32 0),
      length-take (desc_length c) desc,
    ) in
    rw (
      slice-ok 0 (desc_length c) desc (omega arith),
      headers-layout cfg vm cm bm t c rest,
      bounded-ok (framed cfg vm cm bm t c rest)
          (omega (arith, length-framed cfg vm cm bm t c rest fit)),
      n,
    )

-- A control packet that `send_packet` lays out is read back by the sniffer's functions in turn:
-- the header to the bridge, the tunnel header with its length set, the inner header, the control
-- header, and then the descriptors and four zero bytes. Its length is 68 bytes and the descriptors.
-- The tunnel header's identifiers are read byte-swapped, since they are sent in host order.
pub packet_reads_back :
    (cfg : Config) (vm cm bm : Mac) (t : TunnelHdr) (c : CtrlHdr) (desc : List ℕ)
    → FieldsFit t c
    → c.desc_list_length * dword ≤ length desc
    → 68 + c.desc_list_length * dword ≤ max_pk_len
    → (f : List ℕ) × (packet_bytes cfg true vm cm bm t c desc ≡ ok f)
      × (length f ≡ 68 + c.desc_list_length * dword)
      × (read_eth_hdr f (length f) 0 ≡ ok (fip_header cfg.g_bridge_mac vm, 16))
      × (read_tunnel_hdr f (length f) 16 ≡ ok (some (tunnel_read (with_length t c)), 40))
      × (read_eth_hdr f (length f) 40 ≡ ok (fip_header cm (inner_source cfg bm c), 56))
      × (read_ctrl_hdr f (length f) 56 ≡ ok (c, 64))
      × (drop 64 f ≡ take (c.desc_list_length * dword) desc ++ le32 0)
packet_reads_back cfg vm cm bm t c desc fit le small =
    let rest : List ℕ = take (c.desc_list_length * dword) desc ++ le32 0 in
    let size : length rest ≡ c.desc_list_length * dword + 4 = omega (
      arith,
      length-append (take (c.desc_list_length * dword) desc) (le32 0),
      length-take (c.desc_list_length * dword) desc,
    ) in
    let r = reads cfg vm cm bm t c rest fit (omega (arith, size)) in
    (
      framed cfg vm cm bm t c rest,
      packet-framed cfg vm cm bm t c desc fit le small,
      omega (arith, length-framed cfg vm cm bm t c rest fit, size),
      r.0,
      r.1,
      r.2,
      r.3,
      r.4,
    )
