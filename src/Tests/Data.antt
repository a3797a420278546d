-- ===== src/Tests/Data.antt =====
-- Concrete addresses, headers and states.
use vfm.Base.{ℕ, true, none, List, [], replicate}
use vfm.Ether.{Mac, mac, Name, name}
use vfm.Fip.{EthHdr, FcHdr, CtrlHdr, TunnelHdr}
use vfm.Fip.Memory.{Object}
use vfm.Fip.Tlv.{Memory}
use vfm.ReqMap.{Entry, init}
use vfm.World.{fc_map, Config, Env, World}
use vfm.Sniffer.{Stack}

abbrev pub host_mac : Mac
host_mac = mac 0 2 201 1 2 3

abbrev pub vhba : Mac
vhba = mac 14 252 0 1 2 3

abbrev pub wwn : Name
wwn = name 32 0 0 2 201 0 0 1

abbrev pub cfg : Config
cfg = record {
  g_local_mac = mac 0 2 201 9 9 9;
  g_bridge_mac = mac 0 2 201 7 7 7;
  g_bridge_enc_mac = mac 0 2 201 8 8 8;
  g_fc_map = fc_map 14 252 0;
  g_wwnn = wwn;
  g_wwpn = wwn;
  g_fcoe_t11 = 0;
}

abbrev pub env : Env
env = record { opens = true; accepts = λ _. true; ether_crc32_le = λ _. 0 }

abbrev pub w : World
w = record {
  socket_open = true;
  wire = [];
  req_map = init;
  g_gw_src_id = 0x010203;
  io_modules = [];
  exited = none;
}

abbrev pub t : TunnelHdr
t = record {
  type = 244;
  length = 40;
  reserved1 = 0;
  t10_vender_id = wwn;
  group = 0;
  port_num = 1;
  reserved2 = 0;
  gw_id = 5;
  vfm_id = 6;
}

abbrev pub fw : EthHdr
fw = record {
  dhost_mac = mac 0 2 201 9 9 9;
  shost_mac = host_mac;
  vlan_tag = 0;
  ether_type = 0x8914;
  version = 1;
}

-- a FLOGI
abbrev pub ctrl : CtrlHdr
ctrl = record { opcode = 2; reserved = 0; subcode = 1; desc_list_length = 38; flags = 0x8000 }

-- a keep alive
abbrev pub c : CtrlHdr
c = record { opcode = 3; reserved = 0; subcode = 1; desc_list_length = 2; flags = 0 }

-- the host's FC header
abbrev pub h : FcHdr
h = record {
  rt_ctrl_dest_id = 0xFEFFFF22;
  src_id = 0;
  type_frame_ctrl = 0x2901;
  seq_id = 0;
  data_field_ctrl = 0;
  seq_count = 0;
  ox_id = 0x3412;
  res_id = 0xffff;
  parameter = 0;
}

-- the bridge's answer: from the fabric, with key 1 in network order
abbrev pub answer : FcHdr
answer = record {
  rt_ctrl_dest_id = 0x05040023;
  src_id = 0xFEFFFF00;
  type_frame_ctrl = 0x9801;
  seq_id = 0;
  data_field_ctrl = 0;
  seq_count = 0;
  ox_id = 256;
  res_id = 0;
  parameter = 0;
}

abbrev pub pre : List ℕ
pre = replicate 40 0

abbrev pub body : List ℕ
body = replicate 115 7

abbrev pub reply : List ℕ
reply = replicate 121 9

abbrev pub e : Entry
e = record { oxid = 0x3412; mac = host_mac; ctrl_flags = 0; vhba_mac = vhba; flag = 0 }

abbrev pub mem : Memory
mem = record { behind_tmp_word = (1, 2); gw_pointer = replicate 8 0 }

abbrev pub object : List ℕ → Object
object bs = record { bytes = bs; spill = 0 }

abbrev pub st : Stack
st = record {
  memory = mem;
  solicit = object (replicate 16 0);
  alive = object (replicate 36 0);
  dereg = object (replicate 36 0);
  beyond_multicast = replicate 16 0;
  padding = (0, 0);
}
