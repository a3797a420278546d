-- ===== src/Fip.antt =====
-- src/vps/vfm/include/vfm_fip.h: the headers of FIP and FCoE frames as C structures. A `memcpy` into or
-- out of a structure moves the bytes of its memory image, which has no padding in any of the four;
-- a number in the image is little-endian, so each structure holds network order until it is swapped.
pub mod Read
pub mod Memory
pub mod Tlv
pub mod Descriptor
pub mod Discovery
use vfm.Base.{
  ℕ, ◌+◌, ◌*◌, ◌==◌, Option, none, some, List, [], ◌∷◌, ◌++◌, le16, le32, of_le16, of_le32,
}
use vfm.Outcome.{Outcome, ok, fault, ◌>>=◌}
use vfm.Ether.{Mac, mac, mac_bytes, Name, name, name_bytes}

abbrev pub fip_version : ℕ
fip_version = 1

abbrev pub fip_eth_type : ℕ
fip_eth_type = 0x8914

abbrev pub fcoe_eth_type : ℕ
fcoe_eth_type = 0x8906

abbrev pub vlan_tag_value : ℕ
vlan_tag_value = 0x8100

abbrev pub tunnel_hdr_type : ℕ
tunnel_hdr_type = 244

abbrev pub dword : ℕ
dword = 4

-- `eth_hdr`
pub record EthHdr : Type 0 where
  pub dhost_mac : Mac
  pub shost_mac : Mac
  pub vlan_tag : ℕ
  pub ether_type : ℕ
  pub version : ℕ

-- `fc_hdr`
pub record FcHdr : Type 0 where
  pub rt_ctrl_dest_id : ℕ
  pub src_id : ℕ
  pub type_frame_ctrl : ℕ
  pub seq_id : ℕ
  pub data_field_ctrl : ℕ
  pub seq_count : ℕ
  pub ox_id : ℕ
  pub res_id : ℕ
  pub parameter : ℕ

-- `ctrl_hdr`
pub record CtrlHdr : Type 0 where
  pub opcode : ℕ
  pub reserved : ℕ
  pub subcode : ℕ
  pub desc_list_length : ℕ
  pub flags : ℕ

-- `mlx_tunnel_hdr`
pub record TunnelHdr : Type 0 where
  pub type : ℕ
  pub length : ℕ
  pub reserved1 : ℕ
  pub t10_vender_id : Name
  pub group : ℕ
  pub port_num : ℕ
  pub reserved2 : ℕ
  pub gw_id : ℕ
  pub vfm_id : ℕ

-- The memory images.
abbrev pub ctrl_image : CtrlHdr → List ℕ
ctrl_image h = le16 h.opcode ++ h.reserved ∷ h.subcode ∷ le16 h.desc_list_length ++ le16 h.flags

abbrev pub tunnel_image : TunnelHdr → List ℕ
tunnel_image h =
    h.type ∷ h.length ∷ le16 h.reserved1
    ++ (name_bytes h.t10_vender_id
        ++ (h.group ∷ h.port_num ∷ le16 h.reserved2 ++ (le32 h.gw_id ++ le32 h.vfm_id)))

abbrev pub fc_image : FcHdr → List ℕ
fc_image h =
    le32 h.rt_ctrl_dest_id
    ++ (le32 h.src_id
        ++ (le32 h.type_frame_ctrl
            ++ (h.seq_id ∷ h.data_field_ctrl ∷ le16 h.seq_count
                ++ (le16 h.ox_id ++ (le16 h.res_id ++ le32 h.parameter)))))

-- Reading the fields of an image one after another. A buffer that ends early is a fault.
abbrev pub take8 : List ℕ → Outcome (ℕ × List ℕ)
take8 (a ∷ r) = ok (a, r)
take8 [] = fault

abbrev pub take16 : List ℕ → Outcome (ℕ × List ℕ)
take16 (a ∷ b ∷ r) = ok (of_le16 a b, r)
take16 _ = fault

abbrev pub take32 : List ℕ → Outcome (ℕ × List ℕ)
take32 (a ∷ b ∷ c ∷ d ∷ r) = ok (of_le32 a b c d, r)
take32 _ = fault

abbrev pub take_mac : List ℕ → Outcome (Mac × List ℕ)
take_mac (a ∷ b ∷ c ∷ d ∷ e ∷ f ∷ r) = ok (mac a b c d e f, r)
take_mac _ = fault

abbrev pub take_name : List ℕ → Outcome (Name × List ℕ)
take_name (a ∷ b ∷ c ∷ d ∷ e ∷ f ∷ g ∷ h ∷ r) = ok (name a b c d e f g h, r)
take_name _ = fault

unfoldable pub load_eth_hdr : List ℕ → Outcome EthHdr
load_eth_hdr m = do
  (dhost, m) ← take_mac m
  (shost, m) ← take_mac m
  (vlan, m) ← take32 m
  (type, m) ← take16 m
  (version, m) ← take16 m
  ok (record {
    dhost_mac = dhost;
    shost_mac = shost;
    vlan_tag = vlan;
    ether_type = type;
    version = version;
  })

unfoldable pub load_fc_hdr : List ℕ → Outcome FcHdr
load_fc_hdr m = do
  (dest, m) ← take32 m
  (src, m) ← take32 m
  (type, m) ← take32 m
  (seq, m) ← take8 m
  (field, m) ← take8 m
  (count, m) ← take16 m
  (ox, m) ← take16 m
  (res, m) ← take16 m
  (parameter, m) ← take32 m
  ok (record {
    rt_ctrl_dest_id = dest;
    src_id = src;
    type_frame_ctrl = type;
    seq_id = seq;
    data_field_ctrl = field;
    seq_count = count;
    ox_id = ox;
    res_id = res;
    parameter = parameter;
  })

unfoldable pub load_ctrl_hdr : List ℕ → Outcome CtrlHdr
load_ctrl_hdr m = do
  (opcode, m) ← take16 m
  (reserved, m) ← take8 m
  (subcode, m) ← take8 m
  (len, m) ← take16 m
  (flags, m) ← take16 m
  ok (record {
    opcode = opcode;
    reserved = reserved;
    subcode = subcode;
    desc_list_length = len;
    flags = flags;
  })

unfoldable pub load_tunnel_hdr : List ℕ → Outcome TunnelHdr
load_tunnel_hdr m = do
  (type, m) ← take8 m
  (len, m) ← take8 m
  (reserved1, m) ← take16 m
  (vender, m) ← take_name m
  (group, m) ← take8 m
  (port, m) ← take8 m
  (reserved2, m) ← take16 m
  (gw, m) ← take32 m
  (vfm, m) ← take32 m
  ok (record {
    type = type;
    length = len;
    reserved1 = reserved1;
    t10_vender_id = vender;
    group = group;
    port_num = port;
    reserved2 = reserved2;
    gw_id = gw;
    vfm_id = vfm;
  })
