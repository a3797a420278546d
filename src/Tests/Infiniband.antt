-- ===== src/Tests/Infiniband.antt =====
-- The theorems on InfiniBand packets at concrete inputs.
use vfm.Base.{ℕ, ◌+◌, ◌*◌, ◌≡◌, refl, arith, List, [], ◌++◌, length, take, drop, replicate}
use vfm.Outcome.{ok}
use vfm.Ether.{name_bytes}
use vfm.Fip.{CtrlHdr, dword}
use vfm.Fip.Read.{read_ctrl_hdr}
use vfm.Ib.{InitInfo, parse_ib_header, vfm_send_ib_packet}
use vfm.Ib.Adverts.{eoib_conx_discovery}
use vfm.Ib.ReadBack.{IsPort, header_read, ctrl_read, ib_packet_reads_back}
use vfm.Ib.Solicited.{port_bytes, solicitation, memory32, eoib_discovery}
use vfm.Tests.Data.{wwn, mem}

abbrev vfm_port : InitInfo
vfm_port = record { lid = 3; gid = replicate 16 7; qp = 0x40048 }

abbrev group : InitInfo
group = record { lid = 0xC001; gid = replicate 16 9; qp = 0xFFFFFF }

vfm_port-IsPort : IsPort vfm_port
vfm_port-IsPort = record { lid = omega arith; gid = refl; qp = omega arith }

group-IsPort : IsPort group
group-IsPort = record { lid = omega arith; gid = refl; qp = omega arith }

abbrev advert : CtrlHdr
advert = record { opcode = 0xF9FF; reserved = 0; subcode = 2; desc_list_length = 2; flags = 0x01C0 }

abbrev desc : List ℕ
desc = replicate 10 5

ib_packet_reads_back_example :
    (f : List ℕ) × (vfm_send_ib_packet vfm_port group advert desc ≡ ok f)
    × (length f ≡ (advert.desc_list_length + 20) * dword)
    × (parse_ib_header f 0 ≡ ok (header_read vfm_port group advert, 72))
    × (read_ctrl_hdr f (length f) 72 ≡ ok (ctrl_read advert, 80))
    × (drop 80 f ≡ take (advert.desc_list_length * dword) desc)
ib_packet_reads_back_example =
    ib_packet_reads_back vfm_port group advert desc vfm_port-IsPort group-IsPort (omega arith)
      (omega arith) (omega arith) (omega arith)

eoib_discovery_example :
    eoib_conx_discovery mem (memory32 wwn wwn wwn wwn) (solicitation wwn wwn 0x40048 1 3 wwn ++ [])
    ≡ ok (record { bytes = name_bytes wwn ++ port_bytes wwn 0x40048 1 3 wwn; spill = 0 })
eoib_discovery_example =
    eoib_discovery mem wwn wwn wwn wwn wwn wwn wwn 0x40048 1 3 [] (omega arith) (omega arith)
      (omega arith)
