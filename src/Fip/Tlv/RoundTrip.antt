-- ===== src/Fip/Tlv/RoundTrip.antt =====
-- What `create_tlv` lays into a message, `get_tlv` and `get_tlv_value` read back.
use vfm.Base.{
  ℕ, ◌≡◌, refl, List, [], ◌∷◌, ◌++◌, le32, of_le32-le32, swap32, swap32-swap32, swap32-IsWord32,
  IsWord32, ap, ◌∙◌,
}
use vfm.Outcome.{Outcome, ok, ◌>>=◌}
use vfm.Ether.{Mac, mac, mac_bytes, Name, name, name_bytes}
use vfm.Fip.Memory.{slice}
use vfm.Fip.Tlv.{Memory, Decoded, raw, emit_tlv, get_tlv, get_tlv_value}

-- the descriptor at the front of a message, decoded
abbrev pub decode : Memory → List ℕ → Outcome Decoded
decode mem msg = get_tlv msg >>= get_tlv_value mem

-- a descriptor laid out from `src`, with `more` behind it, and decoded
abbrev pub relayed : Memory → (type len : ℕ) → (src more : List ℕ) → Outcome Decoded
relayed mem type len src more = emit_tlv type len src >>= λ o. decode mem (o.bytes ++ more)

relayed-mac :
    (mem : Memory) (m : Mac) (more : List ℕ)
    → relayed mem 2 2 (mac_bytes m) more ≡ ok (raw (mac_bytes m))
unfolding emit_tlv get_tlv get_tlv_value slice
relayed-mac mem (mac a b c d e f) more = refl

relayed-name :
    (mem : Memory) (n : Name) (more : List ℕ)
    → relayed mem 4 3 (name_bytes n) more ≡ ok (raw (name_bytes n))
unfolding emit_tlv get_tlv get_tlv_value slice
relayed-name mem (name a b c d e f g h) more = refl

relayed-period :
    (mem : Memory) (v : ℕ) (more : List ℕ)
    → IsWord32 v
    → relayed mem 12 2 (le32 (swap32 v)) more ≡ ok (raw (le32 v))
unfolding emit_tlv get_tlv get_tlv_value slice
relayed-period mem v more h =
    ap (λ w. ok (raw (le32 (swap32 w)))) (of_le32-le32 (swap32 v) (swap32-IsWord32 v))
    ∙ ap (λ w. ok (raw (le32 w))) (swap32-swap32 v h)

-- What is laid into a message as a descriptor is decoded to what it was laid out from, whatever
-- follows it: a priority (type 1), a MAC address (2), a name (4), and an advertisement period
-- (12), which is laid out in network order and decoded to host order.
pub relayed_back :
    (mem : Memory) (priority : ℕ) (m : Mac) (n : Name) (period : ℕ) (more : List ℕ)
    → IsWord32 period
    → (relayed mem 1 1 (priority ∷ []) more ≡ ok (raw (priority ∷ [])))
      × (relayed mem 2 2 (mac_bytes m) more ≡ ok (raw (mac_bytes m)))
      × (relayed mem 4 3 (name_bytes n) more ≡ ok (raw (name_bytes n)))
      × (relayed mem 12 2 (le32 (swap32 period)) more ≡ ok (raw (le32 period)))
unfolding emit_tlv get_tlv get_tlv_value slice
relayed_back mem priority m n period more h =
    (refl, relayed-mac mem m more, relayed-name mem n more, relayed-period mem period more h)
