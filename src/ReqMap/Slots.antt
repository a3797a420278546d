-- ===== src/ReqMap/Slots.antt =====
-- The table's well-formedness, and the search for an empty slot.
use vfm.Base.{
  ℕ, zero, suc, ◌+◌, ◌≤◌, ◌<◌, ◌≡◌, refl, ◌≢◌, ◌⊎◌, inl, inr, true, false, some, List, [], ◌∷◌,
  arith, length, get_elem?, drop, Bool-cases, length-replicate, sym, ap, ◌∙◌, lt→leb, or-true,
}
use vfm.ReqMap.{
  Slot, null, live, dangling, ReqMap, init, is_null, is_free, req_entry_map_len, first_empty,
  choose_index,
}

-- Slot 0 is never given out: it stands for "no entry".
pub record IsValid (m : ReqMap) : Type 0 where
  pub size : length m.slots ≡ req_entry_map_len
  pub index_pos : 1 ≤ m.vfm_oxid_index
  pub index_le : m.vfm_oxid_index ≤ req_entry_map_len
  pub zeroth : get_elem? m.slots 0 ≡ some null

pub init-IsValid : IsValid init
unfolding init
init-IsValid = record {
  size = length-replicate req_entry_map_len null;
  index_pos = omega arith;
  index_le = omega arith;
  zeroth = refl;
}

-- Every slot that the search looks at is taken.
abbrev pub AllTaken : List Slot → Type 0
AllTaken [] = Unit {0}
AllTaken (s ∷ rest) = (is_null s ≡ false) × AllTaken rest

-- The search ends at an empty slot, or all slots are taken and it leaves 1.
pub first_empty_cases :
    (xs : List Slot) (i : ℕ)
    → ((d : ℕ) × (first_empty xs i ≡ i + d) × (get_elem? xs d ≡ some null))
      ⊎ (AllTaken xs × (first_empty xs i ≡ 1))
unfolding first_empty
first_empty_cases [] i = inr (tt, refl)
first_empty_cases (null ∷ xs) i = inl (0, omega arith, refl)
first_empty_cases (live e ∷ xs) i = elim (first_empty_cases xs (suc i)) [
  | inl (d, e, g) ↦ inl (suc d, omega arith, g)
  | inr (t, e) ↦ inr ((refl, t), e)
]
first_empty_cases (dangling ∷ xs) i = elim (first_empty_cases xs (suc i)) [
  | inl (d, e, g) ↦ inl (suc d, omega arith, g)
  | inr (t, e) ↦ inr ((refl, t), e)
]

pub get_elem?-drop_one : (xs : List Slot) (d : ℕ) → get_elem? (drop 1 xs) d ≡ get_elem? xs (suc d)
get_elem?-drop_one [] d = refl
get_elem?-drop_one (x ∷ xs) d = refl

pub lt_of_get_elem? : (xs : List Slot) (i : ℕ) {s : Slot} → get_elem? xs i ≡ some s → i < length xs
lt_of_get_elem? [] i h = cc
lt_of_get_elem? (x ∷ xs) zero h = omega arith
lt_of_get_elem? (x ∷ xs) (suc i) h = omega (arith, lt_of_get_elem? xs i h)

pub AllTaken-at : (xs : List Slot) (i : ℕ) → AllTaken xs → get_elem? xs i ≢ some null
AllTaken-at [] i t = λ h. cc
AllTaken-at (x ∷ xs) zero t = λ h. ground arith
AllTaken-at (x ∷ xs) (suc i) t = AllTaken-at xs i t.1

-- The index that a request is given: an empty slot after slot 0, or 1 where there is none.
abbrev pub Chosen : ReqMap → ℕ → Type 0
Chosen m k =
    ((1 ≤ k) × (k < req_entry_map_len) × (get_elem? m.slots k ≡ some null))
    ⊎ (AllTaken (drop 1 m.slots) × (k ≡ 1))

search-Chosen : (m : ReqMap) → IsValid m → Chosen m (first_empty (drop 1 m.slots) 1)
search-Chosen m v = elim (first_empty_cases (drop 1 m.slots) 1) [
  | inl (d, e, g) ↦
      let at : get_elem? m.slots (suc d) ≡ some null = sym (get_elem?-drop_one m.slots d) ∙ g in
      let k : first_empty (drop 1 m.slots) 1 ≡ suc d = omega arith in
      inl (
        omega arith,
        omega (arith, lt_of_get_elem? m.slots (suc d) at, v.size),
        ap (get_elem? m.slots) k ∙ at,
      )
  | inr t ↦ inr t
]

is_free→null : (xs : List Slot) (i : ℕ) → is_free xs i ≡ true → get_elem? xs i ≡ some null
is_free→null xs i h = ground arith

pub choose_index_cases : (m : ReqMap) → IsValid m → Chosen m (choose_index m)
unfolding choose_index
choose_index_cases m v = elim (Bool-cases (is_free m.slots m.vfm_oxid_index)) [
  | inl free ↦
      let at : get_elem? m.slots m.vfm_oxid_index ≡ some null =
        is_free→null m.slots m.vfm_oxid_index free in
      let lt : m.vfm_oxid_index < req_entry_map_len =
        omega (arith, lt_of_get_elem? m.slots m.vfm_oxid_index at, v.size) in
      rw (free, lt→leb _ _ lt) (inl (v.index_pos, lt, at))
  | inr taken ↦ rw (taken, or-true) (search-Chosen m v)
]
