-- ===== src/ReqMap/Add.antt =====
-- `add_entry_to_map`: the key that a request is given, and what the table answers afterwards.
use vfm.Base.{
  ℕ, zero, suc, ◌+◌, ◌%◌, ◌≤◌, ◌<◌, ◌≡◌, ◌≢◌, inl, inr, none, some, arith, ◌∙◌, length, get_elem?,
  set, drop, ◌==◌, if◌then◌else◌, Bool-cases, length-set, get_elem?-set_self, get_elem?-set_ne,
  ==_iff,
}
use vfm.Outcome.{ok}
use vfm.ReqMap.{
  Entry, null, live, Slot, ReqMap, req_entry_map_len, choose_index, add_entry_to_map,
  get_entry_from_map, deref,
}
use vfm.ReqMap.Slots.{
  IsValid, AllTaken, AllTaken-at, Chosen, choose_index_cases, get_elem?-drop_one,
}

Chosen-bounds : (m : ReqMap) (k : ℕ) → Chosen m k → (1 ≤ k) × (k < req_entry_map_len)
Chosen-bounds m k (inl c) = (c.0, c.1)
Chosen-bounds m k (inr c) = omega arith

pub choose_index_bounds :
    (m : ReqMap) → IsValid m → (1 ≤ choose_index m) × (choose_index m < req_entry_map_len)
choose_index_bounds m v = Chosen-bounds m (choose_index m) (choose_index_cases m v)

-- Writing one slot of the table changes the answer at that key only.
pub get-set :
    (m : ReqMap) (k j : ℕ) (s : Slot) (n : ℕ)
    → k < length m.slots
    → get_entry_from_map (record { slots = set m.slots k s; vfm_oxid_index = n }) j
      ≡ (if j == k then deref s else get_entry_from_map m j)
unfolding get_entry_from_map
get-set m k j s n h = elim (Bool-cases (j == k)) [
  | inl e ↦ rw (e, (==_iff j k).0 e, get_elem?-set_self m.slots k s h, get_entry_from_map)
  | inr e ↦ rw (e, get_elem?-set_ne m.slots k j s (λ p. ground arith), get_entry_from_map)
]

-- On a well-formed table `add_entry_to_map` returns a key from 1 to 1023 and keeps the table
-- well-formed.
pub add-IsValid :
    (m : ReqMap) (e : Entry)
    → IsValid m
    → (1 ≤ (add_entry_to_map m e).0)
      × ((add_entry_to_map m e).0 < req_entry_map_len)
      × IsValid (add_entry_to_map m e).1
unfolding add_entry_to_map
add-IsValid m e v =
    let b = choose_index_bounds m v in
    (
      b.0,
      b.1,
      record {
        size = omega (arith, length-set m.slots (choose_index m) (live e), v.size);
        index_pos = omega arith;
        index_le = omega arith;
        zeroth = get_elem?-set_ne m.slots (choose_index m) 0 (live e) (omega arith) ∙ v.zeroth;
      },
    )

-- After `add_entry_to_map` on a well-formed table the returned key finds the new entry, and
-- every other key what it found before.
pub get-add :
    (m : ReqMap) (e : Entry) (j : ℕ)
    → IsValid m
    → get_entry_from_map (add_entry_to_map m e).1 j
      ≡ (if j == (add_entry_to_map m e).0 then ok (some e) else get_entry_from_map m j)
unfolding add_entry_to_map
get-add m e j v =
    get-set m (choose_index m) j (live e) ((choose_index m + 1) % 65536)
      (omega (arith, choose_index_bounds m v, v.size))

Chosen-free :
    (m : ReqMap) (j k : ℕ)
    → get_elem? m.slots (suc j) ≡ some null
    → Chosen m k
    → get_elem? m.slots k ≡ some null
Chosen-free m j k h (inl c) = c.2
Chosen-free m j k h (inr c) =
    absurd (AllTaken-at (drop 1 m.slots) j c.0 (get_elem?-drop_one m.slots j ∙ h))

-- While a slot after slot 0 of a well-formed table is empty, the key that a request is given
-- belonged to no request.
pub add_fresh :
    (m : ReqMap) (e : Entry) (j : ℕ)
    → IsValid m
    → get_elem? m.slots (suc j) ≡ some null
    → get_entry_from_map m (add_entry_to_map m e).0 ≡ ok none
unfolding add_entry_to_map get_entry_from_map
add_fresh m e j v h =
    rw (Chosen-free m j (choose_index m) h (choose_index_cases m v), get_entry_from_map)

Chosen-full : (m : ReqMap) (k : ℕ) → AllTaken (drop 1 m.slots) → Chosen m k → k ≡ 1
Chosen-full m k t (inr c) = c.1
Chosen-full m zero t (inl c) = absurd (omega arith)
Chosen-full m (suc j) t (inl c) =
    absurd (AllTaken-at (drop 1 m.slots) j t (get_elem?-drop_one m.slots j ∙ c.2))

taken_one : (m : ReqMap) → AllTaken (drop 1 m.slots) → get_entry_from_map m 1 ≢ ok none
unfolding get_entry_from_map
taken_one m t =
    let ne : get_elem? m.slots 1 ≢ some null =
      λ h. AllTaken-at (drop 1 m.slots) 0 t (get_elem?-drop_one m.slots 0 ∙ h) in
    ground arith

-- In a well-formed table without an empty slot after slot 0 the key is always 1, never the 0
-- that is documented, and the request that held key 1 is no longer found.
pub add_full :
    (m : ReqMap) (e : Entry)
    → IsValid m
    → AllTaken (drop 1 m.slots)
    → ((add_entry_to_map m e).0 ≡ 1)
      × (get_entry_from_map m 1 ≢ ok none)
      × (get_entry_from_map (add_entry_to_map m e).1 1 ≡ ok (some e))
add_full m e v t =
    let one : (add_entry_to_map m e).0 ≡ 1 =
      unfold add_entry_to_map in Chosen-full m (choose_index m) t (choose_index_cases m v) in
    (one, taken_one m t, get-add m e 1 v ∙ rw one)
