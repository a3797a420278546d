-- ===== src/Api/Fabrics.antt =====
-- An inventory of virtual fabrics, from the server's list to the client's.
use vfm.Base.{
  ℕ, suc, ◌+◌, ◌*◌, ◌%◌, ◌≤◌, ◌≡◌, refl, ap, arith, List, [], ◌∷◌, ◌++◌, length, le32, drop,
  length-append, length-drop, append-nil, append_assoc, IsWord32, drop_past, ◌∙◌, sym,
}
use vfm.Outcome.{ok, ◌>>=◌}
use vfm.Fip.Memory.{take_exact, take_exact-append}
use vfm.Api.Tlv.{Cursor, append_bytes, word_at}
use vfm.Api.Layout.{append_bytes-fits, drop-drop}
use vfm.Api.ReadBack.{word_at_past, small}
use vfm.Api.Response.{pack_tlvs}
use vfm.Api.Inventory.{Abi, Listed, vfabric_tlv, unpack_vfabrics}

pub take_front : (n : ℕ) (xs more : List ℕ) → length xs ≡ n → take_exact n (xs ++ more) ≡ ok xs
take_front n xs more e = ap (λ k. take_exact k (xs ++ more)) (sym e) ∙ take_exact-append xs more

pub drop_front : (n : ℕ) (xs more : List ℕ) → length xs ≡ n → drop n (xs ++ more) ≡ more
drop_front n xs more e = drop_past n 0 xs more (omega arith)

-- the TLVs of fabrics, one after another
unfoldable pub fabric_tlvs : List Listed → List ℕ
fabric_tlvs [] = []
fabric_tlvs (v ∷ vs) = vfabric_tlv v ++ fabric_tlvs vs

unfoldable pub tlv_pointers : List Listed → List (List ℕ)
tlv_pointers [] = []
tlv_pointers (v ∷ vs) = vfabric_tlv v ∷ tlv_pointers vs

module _ (abi : Abi) where
  -- A structure of the right size, with as many ids behind it as it says.
  abbrev pub IsListed : Listed → Type 0
  IsListed v =
      (length v.attr ≡ abi.vfabric_attr_size)
      × (num : ℕ) × (word_at abi.num_vadapter_at v.attr ≡ ok num)
      × (length v.array ≡ num * 4)
      × IsWord32 (length v.attr + length v.array)

  abbrev pub AreListed : List Listed → Type 0
  AreListed [] = Unit
  AreListed (v ∷ vs) = IsListed v × AreListed vs

  pub unpack_vfabrics-reads :
      (vs : List Listed) → AreListed vs → unpack_vfabrics abi (length vs) (fabric_tlvs vs) ≡ ok vs
  unfolding unpack_vfabrics fabric_tlvs vfabric_tlv
  unpack_vfabrics-reads [] l = refl
  unpack_vfabrics-reads (v ∷ vs) ((size, num, says, ids, fits), ls) =
      let rest : List ℕ = fabric_tlvs vs in
      let hd : List ℕ = le32 21 ++ le32 ((length v.attr + length v.array) % 4294967296) in
      let whole : (hd ++ (v.attr ++ v.array)) ++ rest ≡ hd ++ (v.attr ++ (v.array ++ rest)) =
        append_assoc hd (v.attr ++ v.array) rest
        ∙ ap (λ t. hd ++ t) (append_assoc v.attr v.array rest) in
      let bytes : num * 4 % 4294967296 ≡ num * 4 = omega (arith, ids, fits) in
      rw (
        whole,
        take_front abi.vfabric_attr_size v.attr (v.array ++ rest) size,
        drop_front abi.vfabric_attr_size v.attr (v.array ++ rest) size,
        says,
        bytes,
        take_front (num * 4) v.array rest ids,
        drop_front (num * 4) v.array rest ids,
        unpack_vfabrics-reads vs ls,
      )

  length-vfabric_tlv : (v : Listed) → length (vfabric_tlv v) ≡ 8 + length v.attr + length v.array
  unfolding vfabric_tlv
  length-vfabric_tlv v = omega (
    arith,
    length-append (le32 21 ++ le32 ((length v.attr + length v.array) % 4294967296))
        (v.attr ++ v.array),
    length-append v.attr v.array,
  )

  tlv_length :
      (v : Listed) → IsListed v → word_at 4 (vfabric_tlv v) ≡ ok (length v.attr + length v.array)
  unfolding vfabric_tlv
  tlv_length v (size, num, says, ids, fits) =
      let n : ℕ = length v.attr + length v.array in
      word_at_past 4 (n % 4294967296) (le32 21) (v.attr ++ v.array) refl (omega arith)
      ∙ ap ok (small n fits)

  pub take_whole : (n : ℕ) (xs : List ℕ) → length xs ≡ n → take_exact n xs ≡ ok xs
  take_whole n xs e = ap (take_exact n) (sym (append-nil xs)) ∙ take_front n xs [] e

  pack_tlvs-cons :
      (n len : ℕ) (tlv : List ℕ) (ptrs : List (List ℕ)) (cur : Cursor)
      → word_at 4 tlv ≡ ok len
      → take_exact (len + 8) tlv ≡ ok tlv
      → pack_tlvs (suc n) (tlv ∷ ptrs) cur ≡ (append_bytes tlv cur >>= λ c. pack_tlvs n ptrs c)
  unfolding pack_tlvs
  pack_tlvs-cons n len tlv ptrs cur e h = rw (e, h)

  pub pack_tlvs-fits :
      (vs : List Listed) (pre gap : List ℕ) (n : ℕ)
      → AreListed vs
      → length pre ≡ n
      → length (fabric_tlvs vs) ≤ length gap
      → pack_tlvs (length vs) (tlv_pointers vs) (record { message = pre ++ gap; offset = n })
        ≡ ok (record {
          message = (pre ++ fabric_tlvs vs) ++ drop (length (fabric_tlvs vs)) gap;
          offset = n + length (fabric_tlvs vs);
        })
  unfolding fabric_tlvs tlv_pointers pack_tlvs
  pack_tlvs-fits [] pre gap n l e h =
      let none_more : n + 0 ≡ n = omega arith in rw (none_more, append-nil pre)
  pack_tlvs-fits (v ∷ vs) pre gap n (l, ls) e h =
      let t : List ℕ = vfabric_tlv v in
      let one = length-vfabric_tlv v in
      let both : length (t ++ fabric_tlvs vs) ≡ length t + length (fabric_tlvs vs) =
        length-append t (fabric_tlvs vs) in
      let end : n + length t + length (fabric_tlvs vs) ≡ n + (length t + length (fabric_tlvs vs)) =
        omega arith in
      rw (
        pack_tlvs-cons (length vs) (length v.attr + length v.array) t (tlv_pointers vs)
            (record { message = pre ++ gap; offset = n }) (tlv_length v l)
            (take_whole (length v.attr + length v.array + 8) t (omega (arith, one))),
        append_bytes-fits pre gap t n e (omega (arith, both)),
        pack_tlvs-fits vs (pre ++ t) (drop (length t) gap) (n + length t) ls
            (omega (arith, length-append pre t)) (omega (arith, both, length-drop (length t) gap)),
        append_assoc pre t (fabric_tlvs vs),
        drop-drop (length (fabric_tlvs vs)) (length t) (length t + length (fabric_tlvs vs)) gap
            refl,
        both,
        end,
      )

  pub many : (vs : List Listed) → length vs ≤ length (fabric_tlvs vs)
  unfolding fabric_tlvs
  many [] = omega arith
  many (v ∷ vs) =
      omega (arith, many vs, length-vfabric_tlv v, length-append (vfabric_tlv v) (fabric_tlvs vs))
