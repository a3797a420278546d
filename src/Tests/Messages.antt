-- ===== src/Tests/Messages.antt =====
-- The theorems on descriptors.
use vfm.Base.{◌≡◌, [], ◌∷◌, ◌++◌, arith, le32, swap32}
use vfm.Outcome.{ok}
use vfm.Ether.{mac_bytes, name_bytes}
use vfm.Fip.Tlv.{raw}
use vfm.Fip.Tlv.RoundTrip.{relayed, relayed_back}
use vfm.Fip.Descriptor.{fcoe_conx_discovery}
use vfm.Fip.Discovery.{solicitation, memory16, conx_discovery}
use vfm.Tests.Data.{mem, host_mac, vhba, wwn}

relayed_back_example :
    (relayed mem 1 1 (45 ∷ []) (9 ∷ []) ≡ ok (raw (45 ∷ [])))
    × (relayed mem 2 2 (mac_bytes host_mac) (9 ∷ []) ≡ ok (raw (mac_bytes host_mac)))
    × (relayed mem 4 3 (name_bytes wwn) (9 ∷ []) ≡ ok (raw (name_bytes wwn)))
    × (relayed mem 12 2 (le32 (swap32 50000)) (9 ∷ []) ≡ ok (raw (le32 50000)))
relayed_back_example = relayed_back mem 45 host_mac wwn 50000 (9 ∷ []) (omega arith)

conx_discovery_example :
    fcoe_conx_discovery mem (memory16 vhba wwn 0 0) (solicitation host_mac wwn 8 4 ++ [])
    ≡ ok (record { bytes = mac_bytes host_mac ++ (name_bytes wwn ++ (4 ∷ 8 ∷ [])); spill = 2 })
conx_discovery_example =
    conx_discovery mem host_mac vhba wwn wwn 0 0 8 4 [] (omega arith) (omega arith)
