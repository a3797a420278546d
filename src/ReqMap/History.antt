-- ===== src/ReqMap/History.antt =====
-- The table against its history: any sequence of requests and removals leaves it answering as the
-- finite map that the returned keys describe.
use vfm.Base.{
  ℕ, ◌<◌, ◌≡◌, refl, ap, ◌∙◌, Option, none, some, List, [], ◌∷◌, arith, ◌==◌, if◌then◌else◌,
  get_elem?-replicate, Bool-cases, inl, inr, ==_iff,
}
use vfm.Outcome.{Outcome, ok, ◌>>=◌}
use vfm.ReqMap.{
  Entry, null, ReqMap, init, req_entry_map_len, add_entry_to_map, get_entry_from_map,
  remove_entry_from_map,
}
use vfm.ReqMap.Slots.{IsValid, init-IsValid}
use vfm.ReqMap.Add.{add-IsValid, get-add}
use vfm.ReqMap.Remove.{remove-Frees, without}

-- What the packet threads ask of the table.
pub data Op : Type 0 where
  add : Entry → Op
  remove : ℕ → Op

-- What has happened, with the key that was returned.
pub data Event : Type 0 where
  added : ℕ → Entry → Event
  removed : ℕ → Event

-- The finite map that a history describes, its newest event first.
abbrev pub recall : List Event → ℕ → Option Entry
recall [] j = none
recall (added k e ∷ h) j = if j == k then some e else recall h j
recall (removed k ∷ h) j = if j == k then none else recall h j

unfoldable pub step : ReqMap → Op → Outcome (Event × ReqMap)
step m (add e) = let (k, m') = add_entry_to_map m e in ok (added k e, m')
step m (remove k) = remove_entry_from_map m k >>= λ m'. ok (removed k, m')

unfoldable pub run : ReqMap → List Event → List Op → Outcome (List Event × ReqMap)
run m h [] = ok (h, m)
run m h (op ∷ ops) = step m op >>= λ (ev, m'). run m' (ev ∷ h) ops

-- Removals name slots of the table.
abbrev pub InRange : List Op → Type 0
InRange [] = Unit {0}
InRange (add _ ∷ ops) = InRange ops
InRange (remove k ∷ ops) = (k < req_entry_map_len) × InRange ops

record Agrees (m : ReqMap) (h : List Event) : Type 0 where
  valid : IsValid m
  answers : (j : ℕ) → j < req_entry_map_len → get_entry_from_map m j ≡ ok (recall h j)

init-Agrees : Agrees init []
unfolding init get_entry_from_map
init-Agrees = record {
  valid = init-IsValid;
  answers = λ j lt. rw (get_elem?-replicate req_entry_map_len j null lt, get_entry_from_map);
}

add-Agrees :
    (m : ReqMap) (h : List Event) (e : Entry)
    → Agrees m h
    → Agrees (add_entry_to_map m e).1 (added (add_entry_to_map m e).0 e ∷ h)
add-Agrees m h e a = record {
  valid = (add-IsValid m e a.valid).2;
  answers = λ j lt. ground (arith, get-add m e j a.valid, a.answers j lt);
}

remove-null :
    (m : ReqMap) (k : ℕ) → get_entry_from_map m k ≡ ok none → remove_entry_from_map m k ≡ ok m
unfolding get_entry_from_map remove_entry_from_map
remove-null m k h = ground arith

remove-Agrees :
    (m : ReqMap) (h : List Event) (k : ℕ)
    → k < req_entry_map_len
    → Agrees m h
    → (o : Option Entry) → recall h k ≡ o
    → (m' : ReqMap) × (remove_entry_from_map m k ≡ ok m') × Agrees m' (removed k ∷ h)
remove-Agrees m h k lt a none e = (
  m,
  remove-null m k (a.answers k lt ∙ ap ok e),
  record {
    valid = a.valid;
    answers = λ j ltj. elim (Bool-cases (j == k)) [
      | inl p ↦ rw (p, (==_iff j k).0 p) (a.answers k lt ∙ ap ok e)
      | inr p ↦ rw p (a.answers j ltj)
    ];
  },
)
remove-Agrees m h k lt a (some x) e =
    let found : get_entry_from_map m k ≡ ok (some x) = a.answers k lt ∙ ap ok e in
    (
      without m k,
      (remove-Frees m k 0 x x a.valid found).0,
      record {
        valid = (remove-Frees m k 0 x x a.valid found).2;
        answers =
            λ j ltj. ground (arith, (remove-Frees m k j x x a.valid found).1, a.answers j ltj);
      },
    )

step-Agrees :
    (m : ReqMap) (h : List Event) (op : Op)
    → InRange (op ∷ [])
    → Agrees m h
    → (ev : Event) × (m' : ReqMap) × (step m op ≡ ok (ev, m')) × Agrees m' (ev ∷ h)
unfolding step
step-Agrees m h (add e) r a = (_, _, refl, add-Agrees m h e a)
step-Agrees m h (remove k) r a =
    let (m', eq, a') = remove-Agrees m h k r.0 a (recall h k) refl in (removed k, m', rw eq, a')

run-Agrees :
    (ops : List Op) (m : ReqMap) (h : List Event)
    → InRange ops
    → Agrees m h
    → (h' : List Event) × (m' : ReqMap) × (run m h ops ≡ ok (h', m')) × Agrees m' h'
unfolding run
run-Agrees [] m h r a = (h, m, refl, a)
run-Agrees (add e ∷ ops) m h r a =
    let (ev, m', eq, a') = step-Agrees m h (add e) tt a in
    let (h'', m'', eq', a'') = run-Agrees ops m' (ev ∷ h) r a' in (h'', m'', rw eq eq', a'')
run-Agrees (remove k ∷ ops) m h r a =
    let (ev, m', eq, a') = step-Agrees m h (remove k) (r.0, tt) a in
    let (h'', m'', eq', a'') = run-Agrees ops m' (ev ∷ h) r.1 a' in (h'', m'', rw eq eq', a'')

-- From the empty table every sequence of requests and of removals of keys below 1024 runs without
-- a fault, and afterwards each key finds what the history of returned keys says: the entry that
-- was last added under it and not removed since.
pub run_recalls :
    (ops : List Op) (j : ℕ)
    → InRange ops
    → j < req_entry_map_len
    → (h : List Event) × (m : ReqMap) × (run init [] ops ≡ ok (h, m))
      × IsValid m
      × (get_entry_from_map m j ≡ ok (recall h j))
run_recalls ops j r lt =
    let (h, m, eq, a) = run-Agrees ops init [] r init-Agrees in (h, m, eq, a.valid, a.answers j lt)
