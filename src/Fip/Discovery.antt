-- ===== src/Fip/Discovery.antt =====
-- What an IO module's solicitation and a host's deregistration leave in their structures.
use vfm.Base.{ℕ, ◌≡◌, refl, ap, ◌∙◌, List, [], ◌∷◌, ◌++◌, arith, IsByte, swap16, of_le16, le16}
use vfm.Outcome.{ok}
use vfm.Ether.{Mac, mac, mac_bytes, Name, name, name_bytes}
use vfm.Fip.Memory.{Object, store, slice}
use vfm.Fip.Tlv.{Memory, get_tlv, get_tlv_value}
use vfm.Fip.Descriptor.{fcoe_conx_discovery}

-- A solicitation on the wire: MAC address, node name and the receive size in network order.
abbrev pub solicitation : Mac → Name → (hi lo : ℕ) → List ℕ
solicitation m n hi lo =
    2 ∷ 2 ∷ mac_bytes m ++ (4 ∷ 3 ∷ 0 ∷ 0 ∷ name_bytes n ++ (6 ∷ 1 ∷ hi ∷ lo ∷ []))

-- any 16 bytes of memory
abbrev pub memory16 : Mac → Name → ℕ → ℕ → Object
memory16 m n a b = record { bytes = mac_bytes m ++ (name_bytes n ++ (a ∷ b ∷ [])); spill = 0 }

conx_fields :
    (mem : Memory) (m m' : Mac) (n n' : Name) (a b hi lo : ℕ) (more : List ℕ)
    → fcoe_conx_discovery mem (memory16 m' n' a b) (solicitation m n hi lo ++ more)
      ≡ ok (record {
        bytes = mac_bytes m ++ (name_bytes n ++ le16 (swap16 (of_le16 hi lo)));
        spill = 2;
      })
unfolding fcoe_conx_discovery get_tlv get_tlv_value slice store
conx_fields mem (mac a b c d e f) (mac p q r s t u) (name _ _ _ _ _ _ _ _) (name _ _ _ _ _ _ _ _) x
      y hi lo more =
    refl

le16-swap : (hi lo : ℕ) → IsByte hi → IsByte lo → le16 (swap16 (of_le16 hi lo)) ≡ lo ∷ hi ∷ []
unfolding swap16
le16-swap hi lo h l = ground arith

-- A well-formed solicitation is read into the structure as it was sent: the host's MAC address,
-- its node name, and the receive size in host order; the read also writes two bytes past the end
-- of the structure.
pub conx_discovery :
    (mem : Memory) (m m' : Mac) (n n' : Name) (a b hi lo : ℕ) (more : List ℕ)
    → IsByte hi
    → IsByte lo
    → fcoe_conx_discovery mem (memory16 m' n' a b) (solicitation m n hi lo ++ more)
      ≡ ok (record { bytes = mac_bytes m ++ (name_bytes n ++ (lo ∷ hi ∷ [])); spill = 2 })
conx_discovery mem m m' n n' a b hi lo more h l =
    conx_fields mem m m' n n' a b hi lo more
    ∙ ap (λ w. ok (record { bytes = mac_bytes m ++ (name_bytes n ++ w); spill = 2 }))
        (le16-swap hi lo h l)
