-- ===== src/Fip/Tlv/Bounds.antt =====
-- Which descriptors stay inside their memory.
use vfm.Base.{
  ℕ, ◌+◌, ◌-◌, ◌*◌, ◌^◌, ◌≤◌, ◌<◌, ◌≡◌, ◌⊎◌, inl, inr, refl, List, ◌∷◌, arith, length, take,
  replicate, length-take, length-replicate, some,
}
use vfm.Outcome.{ok, fault}
use vfm.Fip.{dword}
use vfm.Fip.Memory.{Object, store, slice-ok, slice-fault, length-store, spill-store}
use vfm.Fip.Tlv.{value_length, get_tlv, create_tlv, placement}

-- `get_tlv` returns a descriptor of 1 to 255 dwords that all lie in the message, with its
-- value.
pub get_tlv_inside :
    (type len : ℕ) (rest : List ℕ)
    → 1 ≤ len
    → len < 256
    → len * dword ≤ length rest + 2
    → get_tlv (type ∷ len ∷ rest)
      ≡ ok (record { type = type; length = len; value = take (len * dword - 2) rest })
unfolding get_tlv
get_tlv_inside type len rest pos byte fits =
    let n : value_length len ≡ len * dword - 2 = omega arith in
    rw (slice-ok 2 (value_length len) (type ∷ len ∷ rest) (omega arith), n)

value_beyond :
    (type len : ℕ) (rest : List ℕ)
    → len < 256
    → length rest < 2 ^ 31
    → (len ≡ 0) ⊎ (length rest + 2 < len * dword)
    → length (type ∷ len ∷ rest) < 2 + value_length len
value_beyond type len rest byte small (inl e) = rw e (omega arith)
value_beyond type len rest byte small (inr lt) = omega arith

-- The length is never compared with what was received: a descriptor that claims more dwords than
-- the message has is read past the end, and a length of 0 asks for 2^32 - 2 bytes.
pub get_tlv_overread :
    (type len : ℕ) (rest : List ℕ)
    → len < 256
    → length rest < 2 ^ 31
    → (len ≡ 0) ⊎ (length rest + 2 < len * dword)
    → get_tlv (type ∷ len ∷ rest) ≡ fault
unfolding get_tlv
get_tlv_overread type len rest byte small long =
    let far = value_beyond type len rest byte small long in
    rw (slice-fault 2 (value_length len) (type ∷ len ∷ rest) (omega arith) far)

-- The types whose value is copied whole two bytes into a block of just its size.
abbrev pub Shifted : ℕ → Type 0
Shifted type = ((type ≡ 7) ⊎ (type ≡ 13)) ⊎ ((type ≡ 240) ⊎ (type ≡ 241))

placement-Shifted : (type n : ℕ) → Shifted type → placement type n ≡ some (2, n)
unfolding placement
placement-Shifted type n (inl (inl e)) = rw e
placement-Shifted type n (inl (inr e)) = rw e
placement-Shifted type n (inr (inl e)) = rw e
placement-Shifted type n (inr (inr e)) = rw e

-- For the types 7 (FLOGI), 13, 240 and 241 and any length of 1 to 255 dwords, `create_tlv` on
-- enough data writes two bytes past the end of the block that it allocates.
pub create_tlv_overruns :
    (type len : ℕ) (src : List ℕ)
    → Shifted type
    → 1 ≤ len
    → len < 256
    → len * dword ≤ length src + 2
    → (o : Object) × (create_tlv type len src ≡ ok o)
      × (o.spill ≡ 2)
      × (length o.bytes ≡ len * dword - 2)
unfolding create_tlv
create_tlv_overruns type len src shifted pos byte enough =
    let n : value_length len ≡ len * dword - 2 = omega arith in
    let size : length {A = ℕ} (replicate (value_length len) 0) ≡ value_length len =
      length-replicate (value_length len) 0 in
    let bs : List ℕ = take (value_length len) src in
    let count : length bs ≡ value_length len = omega (arith, length-take (value_length len) src) in
    let block : Object = record { bytes = replicate (value_length len) 0; spill = 0 } in
    (
      store block 2 bs,
      rw (
        placement-Shifted type (value_length len) shifted,
        create_tlv,
        slice-ok 0 (value_length len) src (omega arith),
      ),
      omega (arith, spill-store block 2 bs refl, size, count),
      omega (arith, length-store block 2 bs (omega (arith, size)), size),
    )
