-- ===== src/Builder/Granted.antt =====
-- The two descriptors of the answer to a FLOGI, of src/vps/vfm/vfm_create_pk.c: the frame, and the
-- granted address.
use vfm.Base.{
  ℕ, suc, ◌+◌, ◌-◌, ◌*◌, ◌≤◌, ◌<◌, ◌≡◌, refl, inl, inr, not, ◌&&◌, List, ◌∷◌, arith, length, take,
  drop, replicate, take_all, take_within, length-take, length-replicate, Bool-cases, if◌then◌else◌,
  ◌==◌,
}
use vfm.Outcome.{ok}
use vfm.Ether.{Mac, mac, mac_bytes}
use vfm.Fip.{FcHdr, CtrlHdr, dword}
use vfm.Fip.Memory.{store, slice-ok}
use vfm.Fip.Tlv.{value_length, placement, create_tlv, emit_tlv}
use vfm.ReqMap.{Entry}
use vfm.World.{FcMap, fc_map, Config}
use vfm.Builder.{fpma, set_fp}

-- The value of a FLOGI descriptor: two zero bytes and the frame.
create_frame :
    (len m : ℕ) (src : List ℕ)
    → value_length len ≡ suc (suc m)
    → suc (suc m) ≤ length src
    → create_tlv 7 len src ≡ ok (record { bytes = 0 ∷ 0 ∷ take m src; spill = 2 })
unfolding create_tlv placement store
create_frame len m src e le =
    let zeros : length {A = ℕ} (replicate m 0) ≡ m = length-replicate m 0 in
    let n : length (take (suc (suc m)) src) ≡ suc (suc m) =
      omega (arith, length-take (suc (suc m)) src) in
    let two : 2 + suc (suc m) - suc (suc m) ≡ 2 = omega arith in
    rw (
      e,
      slice-ok 0 (suc (suc m)) src (omega arith),
      zeros,
      n,
      two,
      take_within m (suc (suc m)) src (drop (2 + suc (suc m)) (0 ∷ 0 ∷ replicate m 0)) (omega arith)
          le,
    )

-- A FLOGI descriptor of `len` dwords, 1 to 255, carries as many bytes of the frame as fit
-- behind its four bytes, when the frame has the bytes that are copied; making it writes two
-- bytes past the end of a block.
pub emit_frame :
    (len : ℕ) (src : List ℕ)
    → 1 ≤ len
    → len < 256
    → len * dword ≤ length src + 2
    → emit_tlv 7 len src
      ≡ ok (record { bytes = 7 ∷ len ∷ 0 ∷ 0 ∷ take (len * dword - 4) src; spill = 2 })
unfolding emit_tlv
emit_frame len src pos byte le =
    let m : ℕ = len * dword - 4 in
    let value : List ℕ = 0 ∷ 0 ∷ take m src in
    let size : length value ≡ len * dword - 2 = omega (arith, length-take m src) in
    rw (
      create_frame len m src (omega arith) (omega arith),
      slice-ok 0 (len * dword - 2) value (omega arith),
      take_all (len * dword - 2) value (omega arith),
    )

-- The address that the host is granted.
abbrev pub granted : Config → Entry → FcHdr → CtrlHdr → List ℕ
granted cfg e h c =
    if not (c.flags == 0) && not (set_fp == 0) then fpma cfg h else mac_bytes e.vhba_mac

emit_mac :
    (m : Mac) → emit_tlv 2 2 (mac_bytes m) ≡ ok (record { bytes = 2 ∷ 2 ∷ mac_bytes m; spill = 0 })
unfolding emit_tlv
emit_mac (mac a b c d e f) = refl

emit_fpma :
    (cfg : Config) (f : FcMap) (h : FcHdr)
    → cfg.g_fc_map ≡ f
    → emit_tlv 2 2 (fpma cfg h) ≡ ok (record { bytes = 2 ∷ 2 ∷ fpma cfg h; spill = 0 })
unfolding emit_tlv fpma
emit_fpma cfg (fc_map a b c) h e = rw e

pub emit_granted :
    (cfg : Config) (e : Entry) (h : FcHdr) (c : CtrlHdr)
    → emit_tlv 2 2 (granted cfg e h c)
      ≡ ok (record { bytes = 2 ∷ 2 ∷ granted cfg e h c; spill = 0 })
emit_granted cfg e h c = elim (Bool-cases (not (c.flags == 0) && not (set_fp == 0))) [
  | inl y ↦ rw (y, emit_fpma cfg cfg.g_fc_map h refl)
  | inr n ↦ rw (n, emit_mac e.vhba_mac)
]

length-fpma : (cfg : Config) (f : FcMap) (h : FcHdr) → cfg.g_fc_map ≡ f → length (fpma cfg h) ≡ 6
unfolding fpma
length-fpma cfg (fc_map a b c) h e = rw e

length-mac_bytes : (m : Mac) → length (mac_bytes m) ≡ 6
length-mac_bytes (mac _ _ _ _ _ _) = refl

pub length-granted :
    (cfg : Config) (e : Entry) (h : FcHdr) (c : CtrlHdr) → length (granted cfg e h c) ≡ 6
length-granted cfg e h c = elim (Bool-cases (not (c.flags == 0) && not (set_fp == 0))) [
  | inl y ↦ rw y (length-fpma cfg cfg.g_fc_map h refl)
  | inr n ↦ rw n (length-mac_bytes e.vhba_mac)
]
