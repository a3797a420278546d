-- ===== src/Ib/ReadBack.antt =====
-- `vfm_send_ib_packet` against the readers of the headers: a packet is read back header by header.
use vfm.Base.{
  ℕ, ◌+◌, ◌*◌, ◌%◌, ◌≤◌, ◌<◌, ◌≡◌, sym, ap, ◌∙◌, arith, List, ◌++◌, length, take, drop,
  length-append, length-take, append_assoc, drop-append, drop_past, IsWord16, IsWord32, swap16,
  swap32, swap16-swap16, swap32-swap32, swap16-IsWord16, swap32-IsWord32, of_le16-le16,
  of_le32-le32, le→ltb, sub32,
}
use vfm.Outcome.{ok, ◌>>=◌}
use vfm.Fip.{CtrlHdr, dword, ctrl_image}
use vfm.Fip.Memory.{take_exact, take_exact-append, slice-ok}
use vfm.Fip.Read.{read_ctrl_hdr}
use vfm.Fip.{load_ctrl_hdr}
use vfm.Sender.{max_pk_len, bounded}
use vfm.Ib.{
  InitInfo, IbHdr, ib_image, bth_image, lrh_image, take_gid, load_ib_hdr, ib_to_host,
  parse_ib_header, create_ib_header, vfm_send_ib_packet,
}

take_gid-append : (g m : List ℕ) → length g ≡ 16 → take_gid (g ++ m) ≡ ok (g, m)
unfolding take_gid
take_gid-append g m e =
    ap (λ n. take_exact n (g ++ m) >>= λ gid. ok (gid, drop n (g ++ m))) (sym e)
    ∙ rw (take_exact-append g m, drop-append g m)

record WordsFit (h : IbHdr) : Type 0 where
  dlid : IsWord16 h.dlid
  length : IsWord16 h.length
  slid : IsWord16 h.slid
  ipver_tclass_flowlabel : IsWord32 h.ipver_tclass_flowlabel
  payload_length : IsWord16 h.payload_length
  pkey : IsWord16 h.pkey
  dqp : IsWord32 h.dqp
  a_psn : IsWord32 h.a_psn
  queue_key : IsWord32 h.queue_key
  sqp : IsWord32 h.sqp
  version : IsWord32 h.version

image-rest :
    (h : IbHdr) (rest : List ℕ)
    → ib_image h ++ rest ≡ lrh_image h ++ (h.sgid ++ (h.dgid ++ (bth_image h ++ rest)))
image-rest h rest =
    rw (append_assoc h.sgid (h.dgid ++ bth_image h) rest, append_assoc h.dgid (bth_image h) rest)

load-image :
    (h : IbHdr) (rest : List ℕ)
    → length h.sgid ≡ 16
    → length h.dgid ≡ 16
    → WordsFit h
    → load_ib_hdr (ib_image h ++ rest) ≡ ok h
unfolding load_ib_hdr
load-image h rest sg dg fit =
    ap load_ib_hdr (image-rest h rest)
    ∙ rw (
      take_gid-append h.sgid (h.dgid ++ (bth_image h ++ rest)) sg,
      take_gid-append h.dgid (bth_image h ++ rest) dg,
      of_le16-le16 h.dlid fit.dlid,
      of_le16-le16 h.length fit.length,
      of_le16-le16 h.slid fit.slid,
      of_le32-le32 h.ipver_tclass_flowlabel fit.ipver_tclass_flowlabel,
      of_le16-le16 h.payload_length fit.payload_length,
      of_le16-le16 h.pkey fit.pkey,
      of_le32-le32 h.dqp fit.dqp,
      of_le32-le32 h.a_psn fit.a_psn,
      of_le32-le32 h.queue_key fit.queue_key,
      of_le32-le32 h.sqp fit.sqp,
      of_le32-le32 h.version fit.version,
    )

-- the header as it is read: in host order, but for the version
abbrev pub header_read : (init info : InitInfo) → CtrlHdr → IbHdr
header_read init info c = record {
  vl_linkver = 0x00;
  sl_lnh = 0x03;
  dlid = info.lid;
  length = c.desc_list_length + 18;
  slid = init.lid;
  ipver_tclass_flowlabel = 0x60000000;
  payload_length = c.desc_list_length + 2;
  next_header = 0x10;
  hop_limit = 0x01;
  sgid = init.gid;
  dgid = info.gid;
  opcode = 0x04;
  se_m_pc_thv = 0x40;
  pkey = 0xFFFF;
  dqp = info.qp;
  a_psn = 0x00;
  queue_key = 0x80020002;
  sqp = init.qp;
  version = 0x80;
}

-- what the ids of a port are
pub record IsPort (p : InitInfo) : Type 0 where
  pub lid : IsWord16 p.lid
  pub gid : length p.gid ≡ 16
  pub qp : IsWord32 p.qp

abbrev sent_header : (init info : InitInfo) → CtrlHdr → IbHdr
unfolding create_ib_header
sent_header init info c =
    create_ib_header init info.lid ((c.desc_list_length + 18) % 65536)
      ((c.desc_list_length + 2) % 65536) info.qp info.gid

module _ (init info : InitInfo) (c : CtrlHdr) (p : IsPort init) (q : IsPort info)
    (small : c.desc_list_length < 65518) where
  sent-WordsFit : WordsFit (sent_header init info c)
  unfolding sent_header create_ib_header
  sent-WordsFit = record {
    dlid = swap16-IsWord16 info.lid;
    length = swap16-IsWord16 _;
    slid = swap16-IsWord16 init.lid;
    ipver_tclass_flowlabel = swap32-IsWord32 _;
    payload_length = swap16-IsWord16 _;
    pkey = swap16-IsWord16 _;
    dqp = swap32-IsWord32 info.qp;
    a_psn = omega arith;
    queue_key = swap32-IsWord32 _;
    sqp = swap32-IsWord32 init.qp;
    version = swap32-IsWord32 _;
  }

  header-host : ib_to_host (sent_header init info c) ≡ header_read init info c
  unfolding ib_to_host sent_header create_ib_header swap32
  header-host =
      let len : (c.desc_list_length + 18) % 65536 ≡ c.desc_list_length + 18 = omega arith in
      let payload : (c.desc_list_length + 2) % 65536 ≡ c.desc_list_length + 2 = omega arith in
      rw (
        swap16-swap16 info.lid q.lid,
        len,
        payload,
        swap16-swap16 (c.desc_list_length + 18) (omega arith),
        swap16-swap16 (c.desc_list_length + 2) (omega arith),
        swap16-swap16 init.lid p.lid,
        swap16-swap16 0xFFFF (omega arith),
        swap32-swap32 info.qp q.qp,
        swap32-swap32 init.qp p.qp,
      )

  parse-sent :
      (rest : List ℕ)
      → parse_ib_header (ib_image (sent_header init info c) ++ rest) 0
        ≡ ok (header_read init info c, 72)
  unfolding parse_ib_header sent_header create_ib_header
  parse-sent rest =
      rw (load-image (sent_header init info c) rest p.gid q.gid sent-WordsFit, header-host)

-- The control header as it is read. The caller puts its opcode and flags in network order.
abbrev pub ctrl_read : CtrlHdr → CtrlHdr
ctrl_read c = record c { opcode = swap16 c.opcode; flags = swap16 c.flags }

length-ib_image : (h : IbHdr) → length h.sgid ≡ 16 → length h.dgid ≡ 16 → length (ib_image h) ≡ 72
length-ib_image h s d =
    omega (arith, length-append h.sgid (h.dgid ++ bth_image h), length-append h.dgid (bth_image h))

ctrl_behind :
    (pre payload : List ℕ) (c : CtrlHdr) (size : ℕ)
    → length pre ≡ 72
    → 80 ≤ size
    → IsWord32 size
    → IsWord16 c.opcode
    → IsWord16 c.desc_list_length
    → IsWord16 c.flags
    → read_ctrl_hdr
        (pre ++ (ctrl_image (record c { desc_list_length = swap16 c.desc_list_length }) ++ payload))
        size
        72
      ≡ ok (ctrl_read c, 80)
unfolding read_ctrl_hdr load_ctrl_hdr
ctrl_behind pre payload c size e long word op len flags =
    let image : List ℕ = ctrl_image (record c { desc_list_length = swap16 c.desc_list_length }) in
    rw (
      le→ltb (sub32 size 72) 8 (omega arith),
      drop_past 72 0 pre (image ++ payload) (omega (arith, e)),
      of_le16-le16 c.opcode op,
      of_le16-le16 (swap16 c.desc_list_length) (swap16-IsWord16 c.desc_list_length),
      of_le16-le16 c.flags flags,
      swap16-swap16 c.desc_list_length len,
    )

-- A packet that `vfm_send_ib_packet` makes is read back: the InfiniBand header from its sender to
-- its receiver, with the version left in network order and the lengths in words of four bytes; the
-- control header, whose opcode and flags the caller gave in network order; and the descriptors.
-- The packet has 80 bytes and the descriptors, two words more than its header says.
pub ib_packet_reads_back :
    (init info : InitInfo) (c : CtrlHdr) (desc : List ℕ)
    → IsPort init
    → IsPort info
    → IsWord16 c.opcode
    → IsWord16 c.flags
    → c.desc_list_length * dword ≤ length desc
    → 80 + c.desc_list_length * dword ≤ max_pk_len
    → (f : List ℕ) × (vfm_send_ib_packet init info c desc ≡ ok f)
      × (length f ≡ (c.desc_list_length + 20) * dword)
      × (parse_ib_header f 0 ≡ ok (header_read init info c, 72))
      × (read_ctrl_hdr f (length f) 72 ≡ ok (ctrl_read c, 80))
      × (drop 80 f ≡ take (c.desc_list_length * dword) desc)
unfolding vfm_send_ib_packet bounded sent_header
ib_packet_reads_back init info c desc p q op flags enough small =
    let h : IbHdr = sent_header init info c in
    let c' : CtrlHdr = record c { desc_list_length = swap16 c.desc_list_length } in
    let payload : List ℕ = take (c.desc_list_length * dword) desc in
    let f : List ℕ = ib_image h ++ (ctrl_image c' ++ payload) in
    let front : length (ib_image h) ≡ 72 = length-ib_image h p.gid q.gid in
    let size : length f ≡ (c.desc_list_length + 20) * dword = omega (
      arith,
      front,
      length-append (ib_image h) (ctrl_image c' ++ payload),
      length-take (c.desc_list_length * dword) desc,
    ) in
    (
      f,
      rw (
        slice-ok 0 (c.desc_list_length * dword) desc (omega arith),
        le→ltb max_pk_len (length f) (omega (arith, size)),
      ),
      size,
      parse-sent init info c p q (omega arith) (ctrl_image c' ++ payload),
      ctrl_behind (ib_image h) payload c (length f) front (omega (arith, size))
          (omega (arith, size)) op (omega arith) flags,
      drop_past 80 8 (ib_image h) (ctrl_image c' ++ payload) (omega (arith, front)),
    )
