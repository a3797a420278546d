-- ===== src/Ib.antt =====
-- src/vps/vfm/vfm_ib.c: InfiniBand packets that carry a control header and its descriptors. A
-- structure holds network order until it is swapped, as those of FIP.
pub mod Mad
pub mod ReadBack
pub mod Adverts
pub mod Solicited
use vfm.Base.{ℕ, ◌+◌, ◌*◌, ◌%◌, List, [], ◌∷◌, ◌++◌, drop, le16, le32, swap16, swap32}
use vfm.Outcome.{Outcome, ok, ◌>>=◌}
use vfm.Fip.{CtrlHdr, dword, ctrl_image, take8, take16, take32}
use vfm.Fip.Memory.{take_exact, slice}
use vfm.Sender.{bounded}

-- `vfm_init_info_packet`, less the key
pub record InitInfo : Type 0 where
  pub lid : ℕ
  pub gid : List ℕ
  pub qp : ℕ

-- `vfm_ib_hdr`, 72 bytes without padding
pub record IbHdr : Type 0 where
  pub vl_linkver : ℕ
  pub sl_lnh : ℕ
  pub dlid : ℕ
  pub length : ℕ
  pub slid : ℕ
  pub ipver_tclass_flowlabel : ℕ
  pub payload_length : ℕ
  pub next_header : ℕ
  pub hop_limit : ℕ
  pub sgid : List ℕ
  pub dgid : List ℕ
  pub opcode : ℕ
  pub se_m_pc_thv : ℕ
  pub pkey : ℕ
  pub dqp : ℕ
  pub a_psn : ℕ
  pub queue_key : ℕ
  pub sqp : ℕ
  pub version : ℕ

abbrev pub ib_hdr_len : ℕ
ib_hdr_len = 72

-- the memory image, up to the global ids and behind them
abbrev pub lrh_image : IbHdr → List ℕ
lrh_image h =
    h.vl_linkver ∷ h.sl_lnh ∷ le16 h.dlid
    ++ (le16 h.length
        ++ (le16 h.slid
            ++ (le32 h.ipver_tclass_flowlabel
                ++ (le16 h.payload_length ++ h.next_header ∷ h.hop_limit ∷ []))))

abbrev pub bth_image : IbHdr → List ℕ
bth_image h =
    h.opcode ∷ h.se_m_pc_thv ∷ le16 h.pkey
    ++ (le32 h.dqp ++ (le32 h.a_psn ++ (le32 h.queue_key ++ (le32 h.sqp ++ le32 h.version))))

abbrev pub ib_image : IbHdr → List ℕ
ib_image h = lrh_image h ++ (h.sgid ++ (h.dgid ++ bth_image h))

unfoldable pub take_gid : List ℕ → Outcome (List ℕ × List ℕ)
unfolding take_exact
take_gid m = take_exact 16 m >>= λ gid. ok (gid, drop 16 m)

unfoldable pub load_ib_hdr : List ℕ → Outcome IbHdr
unfolding take_gid
load_ib_hdr m = do
  (vl, m) ← take8 m
  (sl, m) ← take8 m
  (dlid, m) ← take16 m
  (len, m) ← take16 m
  (slid, m) ← take16 m
  (ipver, m) ← take32 m
  (payload, m) ← take16 m
  (next, m) ← take8 m
  (hop, m) ← take8 m
  (sgid, m) ← take_gid m
  (dgid, m) ← take_gid m
  (opcode, m) ← take8 m
  (se, m) ← take8 m
  (pkey, m) ← take16 m
  (dqp, m) ← take32 m
  (psn, m) ← take32 m
  (key, m) ← take32 m
  (sqp, m) ← take32 m
  (version, m) ← take32 m
  ok (record {
    vl_linkver = vl;
    sl_lnh = sl;
    dlid = dlid;
    length = len;
    slid = slid;
    ipver_tclass_flowlabel = ipver;
    payload_length = payload;
    next_header = next;
    hop_limit = hop;
    sgid = sgid;
    dgid = dgid;
    opcode = opcode;
    se_m_pc_thv = se;
    pkey = pkey;
    dqp = dqp;
    a_psn = psn;
    queue_key = key;
    sqp = sqp;
    version = version;
  })

-- the conversion to host order, which leaves the version out
unfoldable pub ib_to_host : IbHdr → IbHdr
ib_to_host h = record h {
  dlid = swap16 h.dlid;
  length = swap16 h.length;
  slid = swap16 h.slid;
  ipver_tclass_flowlabel = swap32 h.ipver_tclass_flowlabel;
  payload_length = swap16 h.payload_length;
  pkey = swap16 h.pkey;
  dqp = swap32 h.dqp;
  a_psn = swap32 h.a_psn;
  queue_key = swap32 h.queue_key;
  sqp = swap32 h.sqp;
}

-- The header, and the offset behind it. The header is always read from the buffer's start.
unfoldable pub parse_ib_header : List ℕ → (offset : ℕ) → Outcome (IbHdr × ℕ)
unfolding load_ib_hdr ib_to_host
parse_ib_header buff offset = load_ib_hdr buff >>= λ h. ok (ib_to_host h, offset + ib_hdr_len)

-- What the header says of its sender and of the protocol, and the swaps of what its caller put in.
unfoldable pub create_ib_header :
    (init_info_pack : InitInfo) → (dlid length payload_length dqp : ℕ) → (dgid : List ℕ) → IbHdr
create_ib_header init dlid len payload dqp dgid = record {
  vl_linkver = 0x00;
  sl_lnh = 0x03;
  dlid = swap16 dlid;
  length = swap16 len;
  slid = swap16 init.lid;
  ipver_tclass_flowlabel = swap32 0x60000000;
  payload_length = swap16 payload;
  next_header = 0x10;
  hop_limit = 0x01;
  sgid = init.gid;
  dgid = dgid;
  opcode = 0x04;
  se_m_pc_thv = 0x40;
  pkey = swap16 0xFFFF;
  dqp = swap32 dqp;
  a_psn = 0x00;
  queue_key = swap32 0x80020002;
  sqp = swap32 init.qp;
  version = swap32 0x80000000;
}

-- What is written to the buffer that `bx_send` gets. Of the control header only the length is in host
-- order.
unfoldable pub vfm_send_ib_packet :
    (init_info_pack info_pack : InitInfo) → CtrlHdr → (buff : List ℕ) → Outcome (List ℕ)
unfolding create_ib_header slice bounded
vfm_send_ib_packet init info c buff =
    let hdr =
      create_ib_header init info.lid ((c.desc_list_length + 18) % 65536)
        ((c.desc_list_length + 2) % 65536) info.qp info.gid in
    slice 0 (c.desc_list_length * dword) buff >>= λ payload. bounded (
      ib_image hdr
      ++ (ctrl_image (record c { desc_list_length = swap16 c.desc_list_length }) ++ payload))
