-- ===== src/Fip/Memory.antt =====
-- `memcpy` on C objects of a known size, with what falls outside of them.
use vfm.Base.{
  ℕ, zero, suc, ◌+◌, ◌-◌, ◌≤◌, ◌≡◌, refl, List, [], ◌∷◌, ◌++◌, arith, ltb, le→ltb, ap,
  if◌then◌else◌, length, take, drop, length-drop, length-take, length-append, ◌<◌,
}
use vfm.Outcome.{Outcome, ok, fault, ◌>>=◌}

-- An object after writes: its bytes, and how many bytes the writes put past its end.
pub record Object : Type 0 where
  pub bytes : List ℕ
  pub spill : ℕ

abbrev pub later : ℕ → ℕ → ℕ
later a b = if ltb a b then b else a

-- Writes `bs` at an offset. What lies in the object is kept there, the rest is counted.
unfoldable pub store : Object → ℕ → List ℕ → Object
store o off bs = record {
  bytes = take (length o.bytes) (take off o.bytes ++ (bs ++ drop (off + length bs) o.bytes));
  spill = later o.spill (off + length bs - length o.bytes);
}

-- The first `n` bytes, a fault if there are fewer.
unfoldable pub take_exact : ℕ → List ℕ → Outcome (List ℕ)
take_exact zero m = ok []
take_exact (suc n) [] = fault
take_exact (suc n) (b ∷ m) = take_exact n m >>= λ r. ok (b ∷ r)

-- Reads `n` bytes at an offset.
unfoldable pub slice : ℕ → ℕ → List ℕ → Outcome (List ℕ)
unfolding take_exact
slice off n m = take_exact n (drop off m)

pub take_exact-ok : (n : ℕ) (m : List ℕ) → n ≤ length m → take_exact n m ≡ ok (take n m)
unfolding take_exact
take_exact-ok zero m h = refl
take_exact-ok (suc n) [] h = absurd (omega arith)
take_exact-ok (suc n) (b ∷ m) h = rw (take_exact-ok n m (omega arith))

pub take_exact-fault : (n : ℕ) (m : List ℕ) → length m < n → take_exact n m ≡ fault
unfolding take_exact
take_exact-fault zero m h = absurd (omega arith)
take_exact-fault (suc n) [] h = refl
take_exact-fault (suc n) (b ∷ m) h = rw (take_exact-fault n m (omega arith))

pub take_exact-append : (xs ys : List ℕ) → take_exact (length xs) (xs ++ ys) ≡ ok xs
unfolding take_exact
take_exact-append [] ys = refl
take_exact-append (x ∷ xs) ys = rw (take_exact-append xs ys)

pub slice-ok :
    (off n : ℕ) (m : List ℕ) → off + n ≤ length m → slice off n m ≡ ok (take n (drop off m))
unfolding slice
slice-ok off n m h = take_exact-ok n (drop off m) (omega (arith, length-drop off m))

pub slice-fault :
    (off n : ℕ) (m : List ℕ) → off ≤ length m → length m < off + n → slice off n m ≡ fault
unfolding slice
slice-fault off n m h lt = take_exact-fault n (drop off m) (omega (arith, length-drop off m))

-- A write that begins inside the object keeps its size.
pub length-store :
    (o : Object) (off : ℕ) (bs : List ℕ)
    → off ≤ length o.bytes
    → length (store o off bs).bytes ≡ length o.bytes
unfolding store
length-store o off bs h =
    let rest : List ℕ = drop (off + length bs) o.bytes in
    omega (
      arith,
      length-take (length o.bytes) (take off o.bytes ++ (bs ++ rest)),
      length-append (take off o.bytes) (bs ++ rest),
      length-append bs rest,
      length-take off o.bytes,
      length-drop (off + length bs) o.bytes,
    )

pub spill-store :
    (o : Object) (off : ℕ) (bs : List ℕ)
    → o.spill ≡ 0
    → (store o off bs).spill ≡ off + length bs - length o.bytes
unfolding store
spill-store o off bs z = ground arith

-- A write that is known to lie inside: `xs` with `bs` at an offset.
unfoldable pub patch : ℕ → List ℕ → List ℕ → List ℕ
unfolding store
patch off bs xs = (store (record { bytes = xs; spill = 0 }) off bs).bytes

-- A write into a buffer, a fault where it would leave it.
unfoldable pub write_into : ℕ → List ℕ → List ℕ → Outcome (List ℕ)
unfolding patch
write_into off bs xs = if ltb (length xs) (off + length bs) then fault else ok (patch off bs xs)

-- A write behind a prefix leaves the prefix.
patch_past :
    (m off : ℕ) (pre xs bs : List ℕ)
    → length pre + off ≡ m
    → patch m bs (pre ++ xs) ≡ pre ++ patch off bs xs
unfolding patch
patch_past m off [] xs bs e = ap (λ i. patch i bs xs) (omega arith)
patch_past zero off (p ∷ pre) xs bs e = absurd (omega arith)
patch_past (suc m) off (p ∷ pre) xs bs e =
    let next : suc m + length bs ≡ suc (m + length bs) = omega arith in
    rw next (ap (λ r. p ∷ r) (patch_past m off pre xs bs (omega arith)))

pub write_into_past :
    (m off : ℕ) (pre xs bs : List ℕ)
    → length pre + off ≡ m
    → off + length bs ≤ length xs
    → write_into m bs (pre ++ xs) ≡ ok (pre ++ patch off bs xs)
unfolding write_into
write_into_past m off pre xs bs e le = rw (
  le→ltb (length (pre ++ xs)) (m + length bs) (omega (arith, length-append pre xs)),
  patch_past m off pre xs bs e,
)
