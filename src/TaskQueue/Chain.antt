-- ===== src/TaskQueue/Chain.antt =====
-- The linked tasks of a queue as a list of cells, and what a write to the heap does to them.
use vfm.Base.{
  ◌≡◌, ◌≢◌, refl, ap, ◌∙◌, Bool, true, false, ◌||◌, Option, none, some, List, [], ◌∷◌, ◌++◌, arith,
  ◌==◌, length,
}
use vfm.TaskQueue.{Ptr, null, Job, task, Task, Heap, write, Queue}

-- address and job of each task, oldest first
abbrev pub Cells : Type 0
Cells = List (Ptr × Job)

abbrev pub head_of : Cells → Ptr
head_of [] = null
head_of ((a, _) ∷ _) = a

abbrev pub last_of : Cells → Ptr
last_of [] = null
last_of ((a, _) ∷ []) = a
last_of ((_, _) ∷ x ∷ xs) = last_of (x ∷ xs)

abbrev pub has : Ptr → Cells → Bool
has p [] = false
has p ((a, _) ∷ xs) = (p == a) || has p xs

abbrev pub jobs : Cells → List Job
jobs [] = []
jobs ((_, j) ∷ xs) = j ∷ jobs xs

-- The cells lie at distinct allocated addresses, and each one's `next` is the one behind it.
abbrev pub Chain : Heap → Cells → Type 0
Chain h [] = Unit {0}
Chain h ((a, j) ∷ xs) =
    (a ≢ null) × (h a ≡ some (task j (head_of xs))) × (has a xs ≡ false) × Chain h xs

pub record IsQueue (q : Queue) (xs : Cells) : Type 0 where
  pub chain : Chain q.heap xs
  pub first : q.first_task ≡ head_of xs
  pub last : q.last_task ≡ last_of xs
  pub count : q.num_task_in_queue ≡ length xs

-- A write outside the cells leaves them linked.
pub Chain-write :
    (h : Heap) (p : Ptr) (c : Option Task) (xs : Cells)
    → has p xs ≡ false
    → Chain h xs
    → Chain (write h p c) xs
unfolding write
Chain-write h p c [] out ch = tt
Chain-write h p c ((a, j) ∷ xs) out ch =
    (ch.0, ground arith, ch.2, Chain-write h p c xs (ground arith) ch.3)

-- Memory that is not allocated holds no cell.
pub has_unallocated : (h : Heap) (p : Ptr) (xs : Cells) → h p ≡ none → Chain h xs → has p xs ≡ false
has_unallocated h p [] e ch = refl
has_unallocated h p ((a, j) ∷ xs) e ch = ground (arith, has_unallocated h p xs e ch.3)

pub has-last : (x : Ptr × Job) (xs : Cells) → has (last_of (x ∷ xs)) (x ∷ xs) ≡ true
has-last (a, j) [] = ground arith
has-last (a, j) (x ∷ xs) = ground (arith, has-last x xs)

has-append : (p : Ptr) (xs ys : Cells) → has p (xs ++ ys) ≡ (has p xs || has p ys)
has-append p [] ys = refl
has-append p ((a, j) ∷ xs) ys = ground (arith, has-append p xs ys)

pub last-append : (xs : Cells) (a : Ptr) (j : Job) → last_of (xs ++ (a, j) ∷ []) ≡ a
last-append [] a j = refl
last-append ((b, k) ∷ []) a j = refl
last-append ((b, k) ∷ x ∷ xs) a j = last-append (x ∷ xs) a j

-- the job at the last cell
abbrev pub last_job : Job → Cells → Job
last_job j [] = j
last_job j ((_, k) ∷ xs) = last_job k xs

pub last_cell :
    (h : Heap) (a : Ptr) (j : Job) (xs : Cells)
    → Chain h ((a, j) ∷ xs)
    → (h (last_of ((a, j) ∷ xs)) ≡ some (task (last_job j xs) null))
      × (last_of ((a, j) ∷ xs) ≢ null)
last_cell h a j [] ch = (ch.1, ch.0)
last_cell h a j ((b, k) ∷ xs) ch = last_cell h b k xs ch.3

pub ne_of_has : (p a : Ptr) (xs : Cells) → has p xs ≡ true → has a xs ≡ false → a ≢ p
ne_of_has p a xs hp ha e = cc (ap (λ x. has x xs) e)

-- If `g` is `h` but for the last cell, which points at a new one, the chain goes on to that one.
pub Chain-append :
    (h g : Heap) (a : Ptr) (j : Job) (xs : Cells) (new : Ptr) (job : Job)
    → Chain h ((a, j) ∷ xs)
    → ((p : Ptr) → has p ((a, j) ∷ xs) ≡ true → p ≢ last_of ((a, j) ∷ xs) → g p ≡ h p)
    → g (last_of ((a, j) ∷ xs)) ≡ some (task (last_job j xs) new)
    → has new ((a, j) ∷ xs) ≡ false
    → g new ≡ some (task job null)
    → new ≢ null
    → Chain g (((a, j) ∷ xs) ++ (new, job) ∷ [])
Chain-append h g a j [] new job ch same gl out gn nn = (ch.0, gl, ground arith, (nn, gn, refl, tt))
Chain-append h g a j ((b, k) ∷ xs) new job ch same gl out gn nn =
    let apart : a ≢ last_of ((b, k) ∷ xs) =
      ne_of_has (last_of ((b, k) ∷ xs)) a ((b, k) ∷ xs) (has-last (b, k) xs) ch.2 in
    (
      ch.0,
      same a (ground arith) apart ∙ ch.1,
      has-append a ((b, k) ∷ xs) ((new, job) ∷ []) ∙ ground (arith, ch.2, out),
      Chain-append h g b k xs new job ch.3 (λ p i ne. same p (ground (arith, i)) ne) gl
          (ground (arith, out)) gn nn,
    )
