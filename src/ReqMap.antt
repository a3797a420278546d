-- ===== src/ReqMap.antt =====
-- src/vps/vfm/map_util.c: the table of outstanding FC exchanges. The VFM replaces the originator's
-- exchange id of a forwarded request by the index of a table entry, and finds the requester again
-- when the response carries that index. The mutex makes each function one atomic step, and
-- `malloc` is taken to succeed.
pub mod Slots
pub mod Add
pub mod Remove
pub mod History
use vfm.Base.{
  ℕ, zero, suc, ◌+◌, ◌%◌, Bool, true, false, not, ◌||◌, Option, none, some, List, [], ◌∷◌, leb,
  if◌then◌else◌, get_elem?, set, drop, replicate,
}
use vfm.Outcome.{Outcome, ok, fault, ◌>>=◌}
use vfm.Ether.{Mac}

-- `req_entry_map`
pub record Entry : Type 0 where
  pub oxid : ℕ
  pub mac : Mac
  pub ctrl_flags : ℕ
  pub vhba_mac : Mac
  pub flag : ℕ

-- `REQ_ENTRY_MAP_LEN`
abbrev pub req_entry_map_len : ℕ
req_entry_map_len = 1024

-- What a pointer of `g_req_map` is: NULL, or to an entry, or to memory that was freed.
pub data Slot : Type 0 where
  null : Slot
  live : Entry → Slot
  dangling : Slot

pub record ReqMap : Type 0 where
  pub slots : List Slot
  pub vfm_oxid_index : ℕ

-- the table as the process begins, without an entry
unfoldable pub init : ReqMap
init = record { slots = replicate req_entry_map_len null; vfm_oxid_index = 1 }

abbrev pub is_null : Slot → Bool
is_null null = true
is_null (live _) = false
is_null dangling = false

-- `g_req_map[i] == NULL`
abbrev pub is_free : List Slot → ℕ → Bool
is_free slots i = elim (get_elem? slots i) [ none ↦ false | some s ↦ is_null s ]

-- The `for` loop: the list is `g_req_map[i..REQ_ENTRY_MAP_LEN)`, and the index stays 1 if it ends.
pub first_empty : List Slot → ℕ → ℕ
first_empty [] i = 1
first_empty (s ∷ rest) i = if is_null s then i else first_empty rest (suc i)

pub choose_index : ReqMap → ℕ
unfolding first_empty
choose_index m =
    if leb req_entry_map_len m.vfm_oxid_index || not (is_free m.slots m.vfm_oxid_index)
    then first_empty (drop 1 m.slots) 1
    else m.vfm_oxid_index

unfoldable pub add_entry_to_map : ReqMap → Entry → ℕ × ReqMap
unfolding choose_index
add_entry_to_map m entry =
    let k = choose_index m in
    (k, record { slots = set m.slots k (live entry); vfm_oxid_index = (k + 1) % 65536 })

-- `free` of the entry, and the index that the next request takes.
release : ReqMap → ℕ → Slot → Outcome ReqMap
release m k null = ok m
release m k (live _) = ok (record { slots = set m.slots k null; vfm_oxid_index = k })
release m k dangling = fault

unfoldable pub remove_entry_from_map : ReqMap → ℕ → Outcome ReqMap
unfolding release
remove_entry_from_map m k = elim (get_elem? m.slots k) [ none ↦ fault | some s ↦ release m k s ]

abbrev pub deref : Slot → Outcome (Option Entry)
deref null = ok none
deref (live e) = ok (some e)
deref dangling = fault

-- The trace reads the entry, so a dangling pointer faults here already.
unfoldable pub get_entry_from_map : ReqMap → ℕ → Outcome (Option Entry)
get_entry_from_map m k = elim (get_elem? m.slots k) [ none ↦ fault | some s ↦ deref s ]

free_slots : List Slot → Outcome (List Slot)
free_slots [] = ok []
free_slots (null ∷ rest) = free_slots rest >>= λ r. ok (null ∷ r)
free_slots (live _ ∷ rest) = free_slots rest >>= λ r. ok (dangling ∷ r)
free_slots (dangling ∷ rest) = fault

-- The pointers stay as they are: those to entries dangle from here on.
unfoldable pub free_map : ReqMap → Outcome ReqMap
unfolding free_slots
free_map m = free_slots m.slots >>= λ s. ok (record m { slots = s })
