-- ===== src/Api/Layout.antt =====
-- src/vps/vfm/vfmapi_common.c: where `create_api_tlv` puts what it writes, for every list of calls.
use vfm.Base.{
  ℕ, zero, suc, ◌+◌, ◌%◌, ◌≤◌, ◌<◌, ◌≡◌, refl, ap, sym, ◌∙◌, arith, List, [], ◌∷◌, ◌++◌, length,
  le32, take, drop, lt→ltb, length-append, length-take, length-drop, take_all, inl, inr, lt_or_le,
}
use mathlib.Core.List.{append_assoc, append-nil}
use vfm.Outcome.{ok, fault}
use vfm.Fip.Memory.{take_exact-ok, write_into, write_into_past, patch, store}
use vfm.Api.{Arg}
use vfm.Api.Tlv.{append_bytes, create_api_tlv, put_all}

-- the memory of every value is as long as the length says
abbrev pub IsBacked : List Arg → Type 0
IsBacked [] = Unit
IsBacked (a ∷ args) = (a.len ≤ length a.value) × IsBacked args

-- the bytes of a TLV, and of TLVs one after another
unfoldable pub tlv_bytes : Arg → List ℕ
tlv_bytes a = le32 (a.type % 256) ++ le32 a.len ++ take a.len a.value

unfoldable pub tlvs : List Arg → List ℕ
unfolding tlv_bytes
tlvs [] = []
tlvs (a ∷ args) = tlv_bytes a ++ tlvs args

pub drop-drop : (m n k : ℕ) (xs : List ℕ) → n + m ≡ k → drop m (drop n xs) ≡ drop k xs
drop-drop m zero k xs e = ap (λ i. drop i xs) (omega arith)
drop-drop m (suc n) zero xs e = absurd (omega arith)
drop-drop zero (suc n) (suc k) [] e = refl
drop-drop (suc m) (suc n) (suc k) [] e = refl
drop-drop m (suc n) (suc k) (x ∷ xs) e = drop-drop m n k xs (omega arith)

-- A write at the front of an object.
pub patch_front :
    (bs xs : List ℕ) → length bs ≤ length xs → patch 0 bs xs ≡ bs ++ drop (length bs) xs
unfolding patch store
patch_front bs xs h =
    let none_before : 0 + length bs ≡ length bs = omega arith in
    rw none_before (
      take_all (length xs) (bs ++ drop (length bs) xs)
        (omega (arith, length-append bs (drop (length bs) xs), length-drop (length bs) xs)))

pub append_bytes-fits :
    (pre gap bs : List ℕ) (n : ℕ)
    → length pre ≡ n
    → length bs ≤ length gap
    → append_bytes bs (record { message = pre ++ gap; offset = n })
      ≡ ok (record { message = (pre ++ bs) ++ drop (length bs) gap; offset = n + length bs })
unfolding append_bytes
append_bytes-fits pre gap bs n e h = rw (
  write_into_past n 0 pre gap bs (omega arith) (omega arith),
  patch_front bs gap h,
  append_assoc pre bs (drop (length bs) gap),
)

append_bytes-overruns :
    (m bs : List ℕ) (n : ℕ)
    → length m < n + length bs
    → append_bytes bs (record { message = m; offset = n }) ≡ fault
unfolding append_bytes write_into
append_bytes-overruns m bs n h = rw (lt→ltb (length m) (n + length bs) h)

length-take_exact : (n : ℕ) (xs : List ℕ) → n ≤ length xs → length (take n xs) ≡ n
length-take_exact n xs h = omega (arith, length-take n xs)

pub length-tlv_bytes : (a : Arg) → a.len ≤ length a.value → length (tlv_bytes a) ≡ 8 + a.len
unfolding tlv_bytes
length-tlv_bytes a h = omega (
  arith,
  length-append (le32 (a.type % 256) ++ le32 a.len) (take a.len a.value),
  length-take_exact a.len a.value h,
)

-- One TLV that fits.
pub create_api_tlv-fits :
    (a : Arg) (pre gap : List ℕ) (n : ℕ)
    → length pre ≡ n
    → a.len ≤ length a.value
    → 8 + a.len ≤ length gap
    → create_api_tlv a (record { message = pre ++ gap; offset = n })
      ≡ ok (record {
        message = (pre ++ tlv_bytes a) ++ drop (8 + a.len) gap;
        offset = n + 8 + a.len;
      })
unfolding create_api_tlv tlv_bytes
create_api_tlv-fits a pre gap n e b h =
    let hd : List ℕ = le32 (a.type % 256) ++ le32 a.len in
    let v : List ℕ = take a.len a.value in
    let front : List ℕ = pre ++ hd in
    let size = length-take_exact a.len a.value b in
    rw (
      append_bytes-fits pre gap hd n e (omega arith),
      take_exact-ok a.len a.value b,
      append_bytes-fits front (drop 8 gap) v (n + 8) (omega (arith, length-append pre hd))
          (omega (arith, size, length-drop 8 gap)),
      size,
      drop-drop a.len 8 (8 + a.len) gap refl,
      append_assoc pre hd v,
    )

-- One that does not.
create_api_tlv-overruns :
    (a : Arg) (pre gap : List ℕ) (n : ℕ)
    → length pre ≡ n
    → a.len ≤ length a.value
    → length gap < 8 + a.len
    → create_api_tlv a (record { message = pre ++ gap; offset = n }) ≡ fault
unfolding create_api_tlv
create_api_tlv-overruns a pre gap n e b h =
    let hd : List ℕ = le32 (a.type % 256) ++ le32 a.len in
    let v : List ℕ = take a.len a.value in
    let front : List ℕ = pre ++ hd in
    let size = length-take_exact a.len a.value b in
    elim (lt_or_le (length gap) 8) [
      | inl short ↦
          rw (append_bytes-overruns (pre ++ gap) hd n (omega (arith, length-append pre gap)))
      | inr room ↦ rw (
        append_bytes-fits pre gap hd n e room,
        take_exact-ok a.len a.value b,
        append_bytes-overruns (front ++ drop 8 gap) v (n + 8) (
            omega (
              arith,
              size,
              length-append front (drop 8 gap),
              length-append pre hd,
              length-drop 8 gap,
            )),
      )
    ]

-- All that fit, one behind another.
pub put_all-fits :
    (args : List Arg) (pre gap : List ℕ) (n : ℕ)
    → length pre ≡ n
    → IsBacked args
    → length (tlvs args) ≤ length gap
    → put_all args (record { message = pre ++ gap; offset = n })
      ≡ ok (record {
        message = (pre ++ tlvs args) ++ drop (length (tlvs args)) gap;
        offset = n + length (tlvs args);
      })
unfolding put_all tlvs
put_all-fits [] pre gap n e b h =
    let none_more : n + 0 ≡ n = omega arith in rw (none_more, append-nil pre)
put_all-fits (a ∷ args) pre gap n e (b, bs) h =
    let one = length-tlv_bytes a b in
    let both = length-append (tlv_bytes a) (tlvs args) in
    let size : length (tlvs (a ∷ args)) ≡ 8 + a.len + length (tlvs args) =
      omega (arith, one, both) in
    let end : n + 8 + a.len + length (tlvs args) ≡ n + (8 + a.len + length (tlvs args)) =
      omega arith in
    (rw (
      create_api_tlv-fits a pre gap n e b (omega (arith, size)),
      put_all-fits args (pre ++ tlv_bytes a) (drop (8 + a.len) gap) (n + 8 + a.len)
          (omega (arith, one, length-append pre (tlv_bytes a))) bs
          (omega (arith, size, length-drop (8 + a.len) gap)),
      append_assoc pre (tlv_bytes a) (tlvs args),
      drop-drop (length (tlvs args)) (8 + a.len) (8 + a.len + length (tlvs args)) gap refl,
      end,
    ))
    ∙ ap (λ k. ok (record { message = (pre ++ tlvs (a ∷ args)) ++ drop k gap; offset = n + k }))
        (sym size)

-- Some that do not: the write that leaves the message is a fault.
pub put_all-overruns :
    (args : List Arg) (pre gap : List ℕ) (n : ℕ)
    → length pre ≡ n
    → IsBacked args
    → length gap < length (tlvs args)
    → put_all args (record { message = pre ++ gap; offset = n }) ≡ fault
unfolding put_all tlvs
put_all-overruns [] pre gap n e b h = absurd (omega arith)
put_all-overruns (a ∷ args) pre gap n e (b, bs) h =
    let one = length-tlv_bytes a b in
    let both = length-append (tlv_bytes a) (tlvs args) in
    elim (lt_or_le (length gap) (8 + a.len)) [
      | inl short ↦ rw (create_api_tlv-overruns a pre gap n e b short)
      | inr room ↦ rw (
        create_api_tlv-fits a pre gap n e b room,
        put_all-overruns args (pre ++ tlv_bytes a) (drop (8 + a.len) gap) (n + 8 + a.len)
            (omega (arith, one, length-append pre (tlv_bytes a))) bs
            (omega (arith, one, both, length-drop (8 + a.len) gap)),
      )
    ]
