-- ===== src/Mlfq/Kernel.antt =====
-- Project1/proc.c: the state that `ptable.lock` protects, and the moves between its queues.
use hyu_os.Prelude.{ℕ, Bool, true, false, Option, none, some, update, ltb, if◌then◌else◌, ◌>>=◌}
use hyu_os.Mlfq.State.{ProcState, Proc, Procs, Ptr, Queue, QueueId, nqueue}
use hyu_os.Mlfq.Queue.{insert, delete, dequeue, merge_queue}

-- `struct ptable`, `struct mlfq` and the other globals of proc.c; `cpu c` is `cpus[c].proc`.
pub record Kernel : Type 0 where
  pub proc : Procs
  pub queue : QueueId → Queue
  pub lockproc : Ptr
  pub unlockproc : Ptr
  pub global_ticks : ℕ
  pub nextpid : ℕ
  pub initproc : Ptr
  pub cpu : ℕ → Ptr
  pub locked : Bool

-- `acquire(&ptable.lock)`, once the lock is free; a CPU that holds it panics.
unfoldable pub acquire : Kernel → Option Kernel
acquire k = if k.locked then none else some (record k { locked = true })

-- `release(&ptable.lock)`, a panic where the lock is not held.
unfoldable pub release : Kernel → Option Kernel
release k = if k.locked then some (record k { locked = false }) else none

-- A change to one process.
abbrev pub modify : Kernel → ℕ → (Proc → Proc) → Kernel
modify k p f = record k { proc = update k.proc p (f (k.proc p)) }

abbrev pub set_state : Kernel → ℕ → ProcState → Kernel
set_state k p st = modify k p (λ r. record r { state = st })

-- `&mlfq.l_queue[i]`, a fault outside the array.
unfoldable pub l_queue : ℕ → Option QueueId
l_queue i = if ltb i nqueue then some i else none

-- `insert(q, p, base)` on a queue of the kernel.
unfoldable pub enqueue : Kernel → QueueId → ℕ → Ptr → Option Kernel
enqueue k i p base = do
  (q, s) ← insert k.proc (k.queue i) p base
  some (record k { proc = s; queue = update k.queue i q })

-- `delete(q, p)` on a queue of the kernel.
unfoldable pub unqueue : Kernel → QueueId → ℕ → Kernel
unqueue k i p =
    let (q, s) = delete k.proc (k.queue i) p in record k { proc = s; queue = update k.queue i q }

-- `dequeue(q)` on a queue of the kernel.
unfoldable pub take_first : Kernel → QueueId → Ptr × Kernel
take_first k i =
    let (p, q, s) = dequeue k.proc (k.queue i) in
    (p, record k { proc = s; queue = update k.queue i q })

-- `merge_queue(q1, q2)` on two queues of the kernel.
unfoldable pub merge : Kernel → QueueId → QueueId → Option Kernel
merge k i j = do
  (q₁, q₂, s) ← merge_queue k.proc (k.queue i) (k.queue j)
  some (record k { proc = s; queue = update (update k.queue i q₁) j q₂ })
