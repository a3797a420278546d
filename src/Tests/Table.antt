-- ===== src/Tests/Table.antt =====
-- The theorems on the table of exchanges.
use vfm.Base.{
  ℕ, zero, suc, ◌≤◌, ◌<◌, ◌≡◌, ◌≢◌, refl, none, some, List, [], ◌∷◌, arith, replicate, ◌==◌,
  if◌then◌else◌,
}
use vfm.Outcome.{ok}
use vfm.ReqMap.{
  null, live, ReqMap, init, req_entry_map_len, add_entry_to_map, get_entry_from_map,
  remove_entry_from_map,
}
use vfm.ReqMap.Slots.{IsValid, init-IsValid, AllTaken}
use vfm.ReqMap.Add.{add-IsValid, add_full}
use vfm.ReqMap.Remove.{without, remove-Frees}
use vfm.ReqMap.History.{add, remove, Event, run, recall, run_recalls}
use vfm.Tests.Data.{e}

run_recalls_example :
    (h : List Event) × (m : ReqMap) × (run init [] (add e ∷ add e ∷ remove 1 ∷ []) ≡ ok (h, m))
    × IsValid m
    × (get_entry_from_map m 2 ≡ ok (recall h 2))
run_recalls_example = run_recalls (add e ∷ add e ∷ remove 1 ∷ []) 2 (omega arith, tt) (omega arith)

add-IsValid_example :
    (1 ≤ (add_entry_to_map init e).0)
    × ((add_entry_to_map init e).0 < req_entry_map_len)
    × IsValid (add_entry_to_map init e).1
add-IsValid_example = add-IsValid init e init-IsValid

-- a table without an empty slot
abbrev full : ReqMap
full = record { slots = null ∷ replicate 1023 (live e); vfm_oxid_index = 1024 }

full-IsValid : IsValid full
full-IsValid = record {
  size = refl;
  index_pos = omega arith;
  index_le = omega arith;
  zeroth = refl;
}

AllTaken-replicate : (n : ℕ) → AllTaken (replicate n (live e))
AllTaken-replicate zero = tt
AllTaken-replicate (suc n) = (refl, AllTaken-replicate n)

add_full_example :
    ((add_entry_to_map full e).0 ≡ 1)
    × (get_entry_from_map full 1 ≢ ok none)
    × (get_entry_from_map (add_entry_to_map full e).1 1 ≡ ok (some e))
add_full_example = add_full full e full-IsValid (AllTaken-replicate 1023)

-- a table with one entry, under key 1
abbrev single : ReqMap
single = record { slots = null ∷ live e ∷ replicate 1022 null; vfm_oxid_index = 2 }

single-IsValid : IsValid single
single-IsValid = record {
  size = refl;
  index_pos = omega arith;
  index_le = omega arith;
  zeroth = refl;
}

remove-Frees_example :
    (remove_entry_from_map single 1 ≡ ok (without single 1))
    × (get_entry_from_map (without single 1) 1
        ≡ (if 1 == 1 then ok none else get_entry_from_map single 1))
    × IsValid (without single 1)
    × ((add_entry_to_map (without single 1) e).0 ≡ 1)
unfolding get_entry_from_map
remove-Frees_example = remove-Frees single 1 1 e e single-IsValid refl
