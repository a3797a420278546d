-- ===== src/TaskQueue/Add.antt =====
-- `add_task_to_queue` puts a task behind those that wait.
use vfm.Base.{
  ℕ, ◌+◌, ◌≤◌, ◌≡◌, ◌≢◌, refl, ap, sym, ◌∙◌, false, Option, none, some, List, [], ◌∷◌, ◌++◌, arith,
  length, length-append, take, ne→==, le→ltb,
}
use vfm.Outcome.{ok}
use vfm.TaskQueue.{
  Ptr, null, TaskType, Job, Task, task, Heap, write, Queue, set_next, add_task_to_queue,
}
use vfm.TaskQueue.Chain.{
  Cells, has, IsQueue, has_unallocated, has-last, ne_of_has, last-append, last_job, last_cell,
  Chain-append,
}

set_next-ok :
    (h : Heap) (p q : Ptr) (t : Task)
    → p ≢ null
    → h p ≡ some t
    → set_next h p q ≡ ok (write h p (some (record t { next = q })))
unfolding set_next
set_next-ok h p q t ne e = rw (ne→== p null ne, e)

write_self : (h : Heap) (p : Ptr) (c : Option Task) → write h p c p ≡ c
unfolding write
write_self h p c = ground arith

write_ne : (h : Heap) (p a : Ptr) (c : Option Task) → a ≢ p → write h p c a ≡ h a
unfolding write
write_ne h p a c ne = ground arith

abbrev pub job_of : List ℕ → ℕ → TaskType → ℕ → Job
job_of bs size type vt = record {
  vfm_type = vt;
  task_type = type;
  bytes = take size bs;
  size = size;
}

-- the queue after the linking
abbrev linked : (new first : Ptr) → Queue → Heap → Queue
linked new first q h = record {
  heap = h;
  first_task = first;
  last_task = new;
  num_task_in_queue = q.num_task_in_queue + 1;
}

-- the three states of the heap: the node allocated, linked behind the last, its `next` cleared
abbrev allocated : (new junk : Ptr) → Heap → Job → Heap
allocated new junk h job = write h new (some (task job junk))

abbrev behind : (new junk last : Ptr) → Heap → Job → Job → Heap
behind new junk last h lj job = write (allocated new junk h job) last (some (task lj new))

module _ (new junk : Ptr) (q : Queue) (bs : List ℕ) (size : ℕ) (type : TaskType) (vt : ℕ)
    (nn : new ≢ null) (free : q.heap new ≡ none) (le : size ≤ length bs) where
  add_nil :
      q.first_task ≡ null
      → add_task_to_queue new junk q bs size type vt
        ≡ ok (
            linked new new q (
              write
                (allocated new junk q.heap (job_of bs size type vt))
                new
                (some (task (job_of bs size type vt) null))))
  unfolding add_task_to_queue
  add_nil e = rw (
    le→ltb (length bs) size le,
    e,
    set_next-ok (allocated new junk q.heap (job_of bs size type vt)) new null
        (task (job_of bs size type vt) junk) nn (write_self q.heap new _),
  )

  add_cons :
      (t : Task)
      → q.first_task ≢ null
      → q.last_task ≢ null
      → q.heap q.last_task ≡ some t
      → q.last_task ≢ new
      → add_task_to_queue new junk q bs size type vt
        ≡ ok (
            linked new q.first_task q (
              write
                (behind new junk q.last_task q.heap t.job (job_of bs size type vt))
                new
                (some (task (job_of bs size type vt) null))))
  unfolding add_task_to_queue
  add_cons t fn ln e ne =
      let jb = job_of bs size type vt in
      rw (
        le→ltb (length bs) size le,
        ne→== q.first_task null fn,
        set_next-ok (allocated new junk q.heap jb) q.last_task new t ln
            (write_ne q.heap new q.last_task _ ne ∙ e),
        set_next-ok (behind new junk q.last_task q.heap t.job jb) new null (task jb junk) nn (
            write_ne (allocated new junk q.heap jb) q.last_task new _ (λ p. ne (sym p))
            ∙ write_self q.heap new _),
      )

  abbrev heap_after : Job → Heap
  heap_after lj =
      write (behind new junk q.last_task q.heap lj (job_of bs size type vt)) new
        (some (task (job_of bs size type vt) null))

  unchanged : (lj : Job) (p : Ptr) → p ≢ new → p ≢ q.last_task → heap_after lj p ≡ q.heap p
  unchanged lj p ne nl =
      write_ne _ new p _ ne ∙ write_ne _ q.last_task p _ nl ∙ write_ne q.heap new p _ ne

  at_last : (lj : Job) → q.last_task ≢ new → heap_after lj q.last_task ≡ some (task lj new)
  at_last lj ne = write_ne _ new q.last_task _ ne ∙ write_self _ q.last_task _

  -- `add_task_to_queue` succeeds and puts the task, with a copy of the packet, behind those that
  -- wait, for a block that `malloc` returns fresh.
  pub add_appends :
      (xs : Cells)
      → IsQueue q xs
      → (q' : Queue) × (add_task_to_queue new junk q bs size type vt ≡ ok q')
        × IsQueue q' (xs ++ (new, job_of bs size type vt) ∷ [])
  add_appends [] is =
      let jb = job_of bs size type vt in
      (
        _,
        add_nil is.first,
        record {
          chain = (nn, write_self _ new _, refl, tt);
          first = refl;
          last = refl;
          count = ap (λ n. n + 1) is.count ∙ omega arith;
        },
      )
  add_appends ((a, j) ∷ xs) is =
      let jb = job_of bs size type vt in
      let cell = last_cell q.heap a j xs is.chain in
      let out : has new ((a, j) ∷ xs) ≡ false =
        has_unallocated q.heap new ((a, j) ∷ xs) free is.chain in
      let apart : q.last_task ≢ new =
        λ p. cc (has-last (a, j) xs, ap (λ x. has x ((a, j) ∷ xs)) (sym is.last ∙ p)) in
      (
        _,
        add_cons (task (last_job j xs) null) (λ p. is.chain.0 (sym is.first ∙ p))
            (λ p. cell.1 (sym is.last ∙ p)) (ap q.heap is.last ∙ cell.0) apart,
        record {
          chain =
              Chain-append q.heap (heap_after (last_job j xs)) a j xs new jb is.chain
                (λ p i ne.
                  unchanged (last_job j xs) p (λ e. ne_of_has p new ((a, j) ∷ xs) i out (sym e))
                    (λ e. ne (e ∙ is.last)))
                (ap (heap_after (last_job j xs)) (sym is.last) ∙ at_last (last_job j xs) apart) out
                (write_self _ new _) nn;
          first = is.first;
          last = sym (last-append ((a, j) ∷ xs) new jb);
          count = omega (arith, length-append ((a, j) ∷ xs) ((new, jb) ∷ []), is.count);
        },
      )
