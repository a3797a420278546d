-- ===== src/ReqMap/Remove.antt =====
-- `remove_entry_from_map`: the key is free again, and the next request takes it.
use vfm.Base.{
  ℕ, zero, suc, ◌≤◌, ◌<◌, ◌≡◌, none, some, arith, length, get_elem?, set, ◌==◌, if◌then◌else◌,
  length-set, get_elem?-set_self, get_elem?-set_ne, ◌∙◌, true, lt→leb, List, get_elem?_beyond,
}
use vfm.Outcome.{ok, fault}
use vfm.ReqMap.{
  Entry, null, live, Slot, ReqMap, req_entry_map_len, choose_index, add_entry_to_map, is_free,
  get_entry_from_map, remove_entry_from_map,
}
use vfm.ReqMap.Slots.{IsValid, lt_of_get_elem?}
use vfm.ReqMap.Add.{get-set}

-- the table after the entry of key `k` is freed
abbrev pub without : ReqMap → ℕ → ReqMap
without m k = record { slots = set m.slots k null; vfm_oxid_index = k }

live_of_get :
    (m : ReqMap) (k : ℕ) (e : Entry)
    → get_entry_from_map m k ≡ ok (some e)
    → get_elem? m.slots k ≡ some (live e)
unfolding get_entry_from_map
live_of_get m k e h = ground arith

key_pos : (m : ReqMap) (k : ℕ) (e : Entry) → IsValid m → get_elem? m.slots k ≡ some (live e) → 1 ≤ k
key_pos m zero e v h = cc (v.zeroth)
key_pos m (suc k) e v h = omega arith

is_free_of_null : (xs : List Slot) (i : ℕ) → get_elem? xs i ≡ some null → is_free xs i ≡ true
is_free_of_null xs i h = rw (h, is_free)

reuse :
    (m : ReqMap) (k : ℕ) (e : Entry)
    → k < req_entry_map_len
    → get_elem? (set m.slots k null) k ≡ some null
    → (add_entry_to_map (without m k) e).0 ≡ k
unfolding add_entry_to_map choose_index
reuse m k e lt free = rw (is_free_of_null (set m.slots k null) k free, lt→leb _ _ lt)

-- Removing a key that finds an entry in a well-formed table succeeds: the key then finds
-- nothing, every other key what it found before, the table stays well-formed, and the next
-- request is given that key again.
pub remove-Frees :
    (m : ReqMap) (k j : ℕ) (e e' : Entry)
    → IsValid m
    → get_entry_from_map m k ≡ ok (some e)
    → (remove_entry_from_map m k ≡ ok (without m k))
      × (get_entry_from_map (without m k) j ≡ (if j == k then ok none else get_entry_from_map m j))
      × IsValid (without m k)
      × ((add_entry_to_map (without m k) e').0 ≡ k)
remove-Frees m k j e e' v h =
    let at : get_elem? m.slots k ≡ some (live e) = live_of_get m k e h in
    let lt : k < length m.slots = lt_of_get_elem? m.slots k at in
    let pos : 1 ≤ k = key_pos m k e v at in
    let free : get_elem? (set m.slots k null) k ≡ some null =
      get_elem?-set_self m.slots k null lt in
    (
      unfold remove_entry_from_map in rw (at, remove_entry_from_map),
      get-set m k j null k lt,
      record {
        size = length-set m.slots k null ∙ v.size;
        index_pos = pos;
        index_le = omega (arith, v.size);
        zeroth = get_elem?-set_ne m.slots k 0 null (omega arith) ∙ v.zeroth;
      },
      reuse m k e' (omega (arith, v.size)) free,
    )

-- A key from 1024 on is an access out of bounds of a well-formed table in both functions.
pub out_of_range :
    (m : ReqMap) (k : ℕ)
    → IsValid m
    → req_entry_map_len ≤ k
    → (get_entry_from_map m k ≡ fault) × (remove_entry_from_map m k ≡ fault)
unfolding get_entry_from_map remove_entry_from_map
out_of_range m k v h =
    let beyond : get_elem? m.slots k ≡ none = get_elem?_beyond m.slots k (omega (arith, v.size)) in
    (rw (beyond, get_entry_from_map), rw (beyond, remove_entry_from_map))
