-- ===== src/TaskQueue.antt =====
-- src/vps/vfm/vfm_queue.c: the queue between the sniffer thread, which adds packets, and the processor
-- threads, which take them. The tasks are nodes on a heap, linked by `next`; `queue_mutex` makes
-- each function one atomic step, and a wait on `queue_cond` is a call that does not go on yet.
pub mod Chain
pub mod Add
pub mod Take
pub mod Threads
pub mod Drain
use vfm.Base.{
  ℕ, suc, ◌+◌, ◌-◌, ◌≤◌, Bool, Option, none, some, List, ◌==◌, ltb, if◌then◌else◌, length, take,
}
use vfm.Outcome.{Outcome, ok, fault, or_fault, ◌>>=◌}

abbrev pub Ptr : Type 0
Ptr = ℕ

abbrev pub null : Ptr
null = 0

-- `vfm_task_type`
pub data TaskType : Type 0 where
  fip_task gw_adv_task gw_keep_alive_task create_vadapter distroy_vadapter : TaskType

-- `vfm_task` less its link
pub record Job : Type 0 where
  pub vfm_type : ℕ
  pub task_type : TaskType
  pub bytes : List ℕ
  pub size : ℕ

-- `vfm_task`
pub record Task : Type 0 where
  pub job : Job
  pub next : Ptr

abbrev pub task : Job → Ptr → Task
task j q = record { job = j; next = q }

abbrev pub Heap : Type 0
Heap = Ptr → Option Task

unfoldable pub write : Heap → Ptr → Option Task → Heap
write h p c a = if a == p then c else h a

-- the globals, and the heap that they point into
pub record Queue : Type 0 where
  pub heap : Heap
  pub first_task : Ptr
  pub last_task : Ptr
  pub num_task_in_queue : ℕ

unfoldable pub init : Queue
init = record { heap = λ _. none; first_task = null; last_task = null; num_task_in_queue = 0 }

-- `*p`, a fault at NULL and at memory that is not allocated
unfoldable pub load : Heap → Ptr → Outcome Task
load h p = if p == null then fault else or_fault (h p)

-- `p->next = q`
unfoldable pub set_next : Heap → Ptr → Ptr → Outcome Heap
unfolding load write
set_next h p q = load h p >>= λ t. ok (write h p (some (record t { next = q })))

-- `memcpy(new_task->data, data, size)` into a fresh block of `size` bytes
copy_bytes : List ℕ → ℕ → Outcome (List ℕ)
copy_bytes data_bytes size =
    if ltb (length data_bytes) size then fault else ok (take size data_bytes)

-- Links `new` behind the last task, or makes it the first.
link_task : Queue → Heap → Ptr → Outcome Queue
unfolding set_next
link_task q h new =
    if q.first_task == null
    then ok (record q { heap = h; first_task = new })
    else set_next h q.last_task new >>= λ h'. ok (record q { heap = h' })

-- `new` is what the first `malloc` returns, and `junk` the `next` that the block happens to hold.
unfoldable pub add_task_to_queue :
    (new junk : Ptr) → Queue → List ℕ → ℕ → TaskType → ℕ → Outcome Queue
unfolding copy_bytes link_task
add_task_to_queue new junk q data_bytes size task_type vfm_type = do
  bytes ← copy_bytes data_bytes size
  let job : Job = record { vfm_type = vfm_type; task_type = task_type; bytes = bytes; size = size }
  q' ← link_task q (write q.heap new (some (task job junk))) new
  h ← set_next q'.heap new null
  ok (record q' { heap = h; last_task = new; num_task_in_queue = q'.num_task_in_queue + 1 })

-- `first_task && first_task->next != NULL`
unlink_first : Queue → Outcome Queue
unfolding load
unlink_first q =
    if q.first_task == null
    then ok (record q { first_task = null; last_task = null })
    else load q.heap q.first_task >>= λ t.
        if t.next == null
        then ok (record q { first_task = null; last_task = null })
        else ok (record q { first_task = t.next })

-- `none` while the queue is empty: the caller waits. Else the task that is handed over.
unfoldable pub get_task_from_queue : Queue → Outcome (Option (Ptr × Queue))
unfolding unlink_first
get_task_from_queue q =
    if q.num_task_in_queue == 0
    then ok none
    else unlink_first q >>= λ q'.
        ok (some (q.first_task, record q' { num_task_in_queue = q'.num_task_in_queue - 1 }))
