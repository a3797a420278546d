-- ===== src/Ib/Solicited.antt =====
-- `eoib_conx_discovery` of src/vps/vfm/vfm_iboe.c: a solicitation from the wire to the structure.
use vfm.Base.{
  ℕ, ◌≡◌, List, ◌∷◌, ◌++◌, IsWord32, IsWord16, le16, le32, swap16, swap32, swap16-swap16,
  swap32-swap32, of_le16-le16, of_le32-le32, swap16-IsWord16, swap32-IsWord32,
}
use vfm.Outcome.{ok}
use vfm.Ether.{Name, name, name_bytes}
use vfm.Fip.Memory.{Object, store, slice}
use vfm.Fip.Tlv.{Memory, get_tlv, get_tlv_value}
use vfm.Ib.Adverts.{eoib_conx_discovery}

-- A solicitation: the vendor's name, and the name, queue pair, gateway port, local id and identifier of
-- its port, each number as it lies in memory where it is sent.
abbrev pub port_bytes : (vendor : Name) → (qpn port lid : ℕ) → (guid : Name) → List ℕ
port_bytes vendor qpn port lid guid =
    name_bytes vendor ++ (le32 qpn ++ (le16 port ++ (le16 lid ++ name_bytes guid)))

abbrev pub solicitation : (sender vendor : Name) → (qpn port lid : ℕ) → (guid : Name) → List ℕ
solicitation sender vendor qpn port lid guid =
    13 ∷ 3 ∷ 0 ∷ 0 ∷ name_bytes sender ++ (240 ∷ 7 ∷ 0 ∷ 0 ∷ port_bytes vendor qpn port lid guid)

-- any 32 bytes of memory
abbrev pub memory32 : (a b c d : Name) → Object
memory32 a b c d = record {
  bytes = name_bytes a ++ (name_bytes b ++ (name_bytes c ++ name_bytes d));
  spill = 0;
}

-- A solicitation of a port is read into the structure byte for byte as it was sent, whatever the
-- structure held and whatever follows: the numbers are swapped where the descriptor is decoded, and
-- swapped back.
pub eoib_discovery :
    (mem : Memory) (a b c d sender vendor guid : Name) (qpn port lid : ℕ) (more : List ℕ)
    → IsWord32 qpn
    → IsWord16 port
    → IsWord16 lid
    → eoib_conx_discovery mem
        (memory32 a b c d)
        (solicitation sender vendor qpn port lid guid ++ more)
      ≡ ok (record { bytes = name_bytes sender ++ port_bytes vendor qpn port lid guid; spill = 0 })
unfolding eoib_conx_discovery get_tlv get_tlv_value slice store
eoib_discovery mem (name _ _ _ _ _ _ _ _) (name _ _ _ _ _ _ _ _) (name _ _ _ _ _ _ _ _)
      (name _ _ _ _ _ _ _ _) (name _ _ _ _ _ _ _ _) (name _ _ _ _ _ _ _ _) (name _ _ _ _ _ _ _ _)
      qpn port lid more q p l =
    rw (
      of_le32-le32 qpn q,
      of_le32-le32 (swap32 qpn) (swap32-IsWord32 qpn),
      swap32-swap32 qpn q,
      of_le16-le16 port p,
      of_le16-le16 (swap16 port) (swap16-IsWord16 port),
      swap16-swap16 port p,
      of_le16-le16 lid l,
      of_le16-le16 (swap16 lid) (swap16-IsWord16 lid),
      swap16-swap16 lid l,
    )
