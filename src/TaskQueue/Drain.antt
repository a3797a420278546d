-- ===== src/TaskQueue/Drain.antt =====
-- The processors empty the queue of src/vps/vfm/vfm_queue.c when nothing is added any more.
use vfm.Base.{
  suc, ◌≡◌, refl, ap, sym, ◌∙◌, subst, none, some, List, [], ◌∷◌, ◌++◌, length, append-nil,
  append_assoc,
}
use vfm.Outcome.{ok}
use vfm.TaskQueue.{Ptr, Job, Task, write, Queue, get_task_from_queue}
use vfm.TaskQueue.Chain.{Cells, jobs, IsQueue}
use vfm.TaskQueue.Take.{get_takes_oldest, get_waits_iff}
use vfm.TaskQueue.Threads.{Trace, takes, fifo}

-- The states that takes alone lead to from a state, with the jobs that they take, oldest first.
pub data Takes : Queue → List Job → Queue → Type 0 where
  stop : {q : Queue} → Takes q [] q
  next :
      {q q' last : Queue} {js : List Job} {p : Ptr} {t : Task}
      → get_task_from_queue q ≡ ok (some (p, q'))
      → q.heap p ≡ some t
      → Takes (record q' { heap = write q'.heap p none }) js last
      → Takes q (t.job ∷ js) last

length-jobs : (xs : Cells) → length (jobs xs) ≡ length xs
length-jobs [] = refl
length-jobs ((a, j) ∷ xs) = ap suc (length-jobs xs)

-- Taking the cells one after another.
drained_from :
    (xs : Cells) {q : Queue} {put got : List Job}
    → IsQueue q xs
    → put ≡ got ++ jobs xs
    → Trace q put got
    → (last : Queue) × Takes q (jobs xs) last
      × Trace last put put
      × (get_task_from_queue last ≡ ok none)
drained_from [] {q} {put} {got} is e r =
    let all : got ≡ put = sym (e ∙ append-nil got) in
    (q, stop, subst (Trace q put) all r, (get_waits_iff q [] is).1 refl)
drained_from ((a, j) ∷ xs) {q} {put} {got} is e r =
    let (q', done, at, is') = get_takes_oldest q a j xs is in
    let (last, rest, all, waits) =
      drained_from xs is' (e ∙ sym (append_assoc got (j ∷ []) (jobs xs))) (takes r done at) in
    (last, next done at rest, all, waits)

-- From every state that the threads can reach, takes alone lead on, without waiting, until all the
-- jobs that were added and not yet taken are taken, in the order of the additions; only then does
-- the next take wait. The takes are one for each task that the queue counts.
pub drained :
    {q : Queue} {put got : List Job}
    → Trace q put got
    → (js : List Job) × (last : Queue) × (put ≡ got ++ js)
      × (length js ≡ q.num_task_in_queue)
      × Takes q js last
      × Trace last put put
      × (get_task_from_queue last ≡ ok none)
drained r =
    let (xs, is, e, count) = fifo r in
    let (last, taken, all, waits) = drained_from xs is e r in
    (jobs xs, last, e, length-jobs xs ∙ sym count, taken, all, waits)
