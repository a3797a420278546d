-- ===== src/TaskQueue/Threads.antt =====
-- The queue under its threads: the sniffer adds, two processors take, in any interleaving.
use vfm.Base.{ℕ, ◌≤◌, ◌≡◌, ◌≢◌, refl, ap, subst, sym, ◌∙◌, none, some, List, [], ◌∷◌, ◌++◌, length}
use vfm.Outcome.{ok}
use vfm.TaskQueue.{
  Ptr, null, TaskType, Job, Task, write, Queue, init, add_task_to_queue, get_task_from_queue,
}
use vfm.TaskQueue.Chain.{Cells, jobs, IsQueue}
use vfm.TaskQueue.Add.{job_of, add_appends}
use vfm.TaskQueue.Take.{get_takes_oldest, get_waits_iff}
use mathlib.Core.List.{append_assoc}

-- The states that the threads can reach from the empty queue, with the jobs added and the jobs
-- taken so far, oldest first. A thread that takes a task reads its job and frees it.
pub data Trace : Queue → List Job → List Job → Type 0 where
  start : Trace init [] []
  adds :
      {q q' : Queue} {put got : List Job} (new junk : Ptr) (bs : List ℕ) (size : ℕ)
      (type : TaskType) (vt : ℕ)
      → Trace q put got
      → new ≢ null
      → q.heap new ≡ none
      → size ≤ length bs
      → add_task_to_queue new junk q bs size type vt ≡ ok q'
      → Trace q' (put ++ job_of bs size type vt ∷ []) got
  takes :
      {q q' : Queue} {put got : List Job} {p : Ptr} {t : Task}
      → Trace q put got
      → get_task_from_queue q ≡ ok (some (p, q'))
      → q.heap p ≡ some t
      → Trace (record q' { heap = write q'.heap p none }) put (got ++ t.job ∷ [])

jobs-append : (xs : Cells) (p : Ptr) (j : Job) → jobs (xs ++ (p, j) ∷ []) ≡ jobs xs ++ j ∷ []
jobs-append [] p j = refl
jobs-append ((a, k) ∷ xs) p j = ap (λ js. k ∷ js) (jobs-append xs p j)

init-IsQueue : IsQueue init []
unfolding init
init-IsQueue = record { chain = tt; first = refl; last = refl; count = refl }

-- what is waiting, linked in the queue's heap
record Waiting (q : Queue) (put got : List Job) : Type 0 where
  cells : Cells
  linked : IsQueue q cells
  order : put ≡ got ++ jobs cells

adds-Waiting :
    {q q' : Queue} {put got : List Job} (new junk : Ptr) (bs : List ℕ) (size : ℕ) (type : TaskType)
    (vt : ℕ)
    → Waiting q put got
    → new ≢ null
    → q.heap new ≡ none
    → size ≤ length bs
    → add_task_to_queue new junk q bs size type vt ≡ ok q'
    → Waiting q' (put ++ job_of bs size type vt ∷ []) got
adds-Waiting {q} {q'} {put} {got} new junk bs size type vt w nn free le done =
    let xs = w.cells in
    let job = job_of bs size type vt in
    let (q'', done', is') = add_appends new junk q bs size type vt nn free le xs w.linked in
    let same : q'' ≡ q' = cc (done, done') in
    record {
      cells = xs ++ (new, job) ∷ [];
      linked = subst (λ r. IsQueue r (xs ++ (new, job) ∷ [])) same is';
      order =
          ap (λ js. js ++ job ∷ []) w.order
          ∙ append_assoc got (jobs xs) (job ∷ [])
          ∙ ap (λ js. got ++ js) (sym (jobs-append xs new job));
    }

takes-cells :
    {q q' : Queue} {put : List Job} (got : List Job) {p : Ptr} {t : Task} (xs : Cells)
    → IsQueue q xs
    → put ≡ got ++ jobs xs
    → get_task_from_queue q ≡ ok (some (p, q'))
    → q.heap p ≡ some t
    → Waiting (record q' { heap = write q'.heap p none }) put (got ++ t.job ∷ [])
takes-cells {q} got [] is e done at = cc ((get_waits_iff q [] is).1 refl, done)
takes-cells {q} {q'} {put} got {p} {t} ((a, j) ∷ xs) is e done at =
    let (q'', done', at', is') = get_takes_oldest q a j xs is in
    let same : ◌≡◌ {A = Ptr × Queue} (a, q'') (p, q') = cc (done, done') in
    let here : a ≡ p = ap (λ (r : Ptr × Queue). r.0) same in
    let job : j ≡ t.job = cc (at, at', here) in
    record {
      cells = xs;
      linked =
          subst (λ (r : Ptr × Queue). IsQueue (record (r.1) { heap = write r.1.heap r.0 none }) xs)
            same is';
      order = e ∙ ap (λ k. got ++ k ∷ jobs xs) job ∙ sym (append_assoc got (t.job ∷ []) (jobs xs));
    }

Trace-Waiting : {q : Queue} {put got : List Job} → Trace q put got → Waiting q put got
Trace-Waiting start = record { cells = []; linked = init-IsQueue; order = refl }
Trace-Waiting (adds new junk bs size type vt r nn free le done) =
    adds-Waiting new junk bs size type vt (Trace-Waiting r) nn free le done
Trace-Waiting (takes r done at) =
    let w = Trace-Waiting r in takes-cells _ w.cells w.linked w.order done at

-- In every interleaving of the threads the jobs that were added are, in order, those that were
-- taken followed by those that wait: none is lost, taken twice or overtaken. The queue's counter
-- is the number that wait.
pub fifo :
    {q : Queue} {put got : List Job}
    → Trace q put got
    → (xs : Cells) × IsQueue q xs × (put ≡ got ++ jobs xs) × (q.num_task_in_queue ≡ length xs)
fifo r = let w = Trace-Waiting r in (w.cells, w.linked, w.order, w.linked.count)
