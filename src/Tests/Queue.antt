-- ===== src/Tests/Queue.antt =====
-- The theorems on the task queue.
use vfm.Base.{ℕ, ◌≡◌, refl, none, some, List, [], ◌∷◌, ◌++◌, arith, length}
use vfm.Outcome.{ok}
use vfm.TaskQueue.{
  null, fip_task, Job, task, write, Queue, init, add_task_to_queue, get_task_from_queue,
}
use vfm.TaskQueue.Chain.{Cells, jobs, IsQueue}
use vfm.TaskQueue.Add.{job_of, add_appends}
use vfm.TaskQueue.Drain.{Takes, drained}
use vfm.TaskQueue.Threads.{Trace, start, adds, fifo}

abbrev data_bytes : List ℕ
data_bytes = 1 ∷ 2 ∷ 3 ∷ []

abbrev first : Job
first = job_of data_bytes 3 fip_task 1

-- one task, at address 7
abbrev q : Queue
q = record {
  heap = write (λ _. none) 7 (some (task first null));
  first_task = 7;
  last_task = 7;
  num_task_in_queue = 1;
}

q-IsQueue : IsQueue q ((7, first) ∷ [])
unfolding write
q-IsQueue = record {
  chain = (omega arith, refl, refl, tt);
  first = refl;
  last = refl;
  count = refl;
}

init-IsQueue_test : IsQueue init []
unfolding init
init-IsQueue_test = record { chain = tt; first = refl; last = refl; count = refl }

-- the queue after one addition
abbrev after_add :
    (q' : Queue) × (add_task_to_queue 7 5 init data_bytes 3 fip_task 1 ≡ ok q')
    × IsQueue q' ([] ++ (7, first) ∷ [])
unfolding init
after_add =
    add_appends 7 5 init data_bytes 3 fip_task 1 (omega arith) refl (omega arith) []
      init-IsQueue_test

one_added : Trace after_add.0 (first ∷ []) []
unfolding init
one_added = adds 7 5 data_bytes 3 fip_task 1 start (omega arith) refl (omega arith) after_add.1

fifo_example :
    (xs : Cells) × IsQueue after_add.0 xs
    × (first ∷ [] ≡ [] ++ jobs xs)
    × (after_add.0.num_task_in_queue ≡ length xs)
fifo_example = fifo one_added

drained_example :
    (js : List Job) × (last : Queue) × (first ∷ [] ≡ [] ++ js)
    × (length js ≡ after_add.0.num_task_in_queue)
    × Takes after_add.0 js last
    × Trace last (first ∷ []) (first ∷ [])
    × (get_task_from_queue last ≡ ok none)
drained_example = drained one_added
