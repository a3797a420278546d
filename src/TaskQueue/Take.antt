-- ===== src/TaskQueue/Take.antt =====
-- `get_task_from_queue` hands over the oldest task, and waits when there is none.
use vfm.Base.{arith, ◌-◌, ◌≡◌, ◌↔◌, refl, sym, ◌∙◌, none, some, [], ◌∷◌, ne→==}
use vfm.Outcome.{ok}
use vfm.TaskQueue.{Ptr, null, Job, task, write, Queue, unlink_first, get_task_from_queue}
use vfm.TaskQueue.Chain.{Cells, head_of, last_of, IsQueue, Chain-write}

-- the queue after its first task is handed over
abbrev pub taken : Queue → Cells → Queue
taken q xs = record {
  heap = q.heap;
  first_task = head_of xs;
  last_task = last_of xs;
  num_task_in_queue = q.num_task_in_queue - 1;
}

-- On a linked queue that is not empty `get_task_from_queue` hands over the oldest task, and
-- the others wait on in their order once that task is freed.
pub get_takes_oldest :
    (q : Queue) (a : Ptr) (j : Job) (xs : Cells)
    → IsQueue q ((a, j) ∷ xs)
    → (q' : Queue) × (get_task_from_queue q ≡ ok (some (a, q')))
      × (q.heap a ≡ some (task j (head_of xs)))
      × IsQueue (record q' { heap = write q'.heap a none }) xs
unfolding get_task_from_queue unlink_first
get_takes_oldest q a j [] is = (
  taken q [],
  rw (is.count, ne→== q.first_task null (λ p. is.chain.0 (sym is.first ∙ p)), is.first, is.chain.1),
  is.chain.1,
  record { chain = tt; first = refl; last = refl; count = omega arith },
)
get_takes_oldest q a j ((b, k) ∷ xs) is = (
  taken q ((b, k) ∷ xs),
  rw (
    ne→== q.num_task_in_queue 0 (omega arith),
    ne→== q.first_task null (λ p. is.chain.0 (sym is.first ∙ p)),
    is.first,
    is.chain.1,
    ne→== b null is.chain.3.0,
    is.last,
  ),
  is.chain.1,
  record {
    chain = Chain-write q.heap a none ((b, k) ∷ xs) is.chain.2 is.chain.3;
    first = refl;
    last = refl;
    count = omega arith;
  },
)

-- `get_task_from_queue` waits exactly while no task is queued.
pub get_waits_iff :
    (q : Queue) (xs : Cells) → IsQueue q xs → (get_task_from_queue q ≡ ok none) ↔ (xs ≡ [])
get_waits_iff q [] is = (λ _. refl, λ _. unfold get_task_from_queue in rw is.count)
get_waits_iff q ((a, j) ∷ xs) is =
    let (q', e, _, _) = get_takes_oldest q a j xs is in (λ p. cc (e, p), λ p. cc p)
