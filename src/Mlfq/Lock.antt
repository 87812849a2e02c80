-- ===== src/Mlfq/Lock.antt =====
-- Project1/proc.c: the scheduler lock and `setPriority`.
use hyu_os.Prelude.{
  ℕ, zero, suc, ◌+◌, Bool, true, false, Option, none, some, ◌==◌, ◌&&◌, if◌then◌else◌, ◌>>=◌,
}
use hyu_os.Prelude.Int.{ℤ, pos, negsuc}
use hyu_os.Mlfq.State.{ProcState, Ptr, nproc}
use hyu_os.Mlfq.Kernel.{Kernel, acquire, release, modify, enqueue, unqueue}
use hyu_os.Mlfq.Priority.{higherpriority_proc}
use hyu_os.Mlfq.Sched.{boosted}
use hyu_os.Mlfq.Life.{exit}

-- `mlfqlock` by the process that holds the lock already.
unfoldable pub lock_over : Kernel → ℕ → Ptr → Kernel
lock_over k p none = record k { lockproc = some p; global_ticks = 0 }
lock_over k p (some _) = k

unfoldable pub mlfqlock : Kernel → ℕ → Kernel
unfolding lock_over
mlfqlock k p = lock_over k p k.lockproc

-- `mlfqunlock` by the process that holds the lock.
unfoldable pub unlock_over : Kernel → ℕ → Ptr → Kernel
unlock_over k p none = k
unlock_over k p (some _) = modify (record k { lockproc = none; unlockproc = some p }) p boosted

unfoldable pub mlfqunlock : Kernel → ℕ → Kernel
unfolding unlock_over
mlfqunlock k p = unlock_over k p k.lockproc

-- `password != 2017029416`
abbrev pub is_password : ℤ → Bool
is_password (pos n) = n == 2017029416
is_password (negsuc n) = false

-- `schedulerLock(password)` on CPU `c`: `true` where it returns, `false` where it has left over the
-- password, by `exit`, which panics for init.
unfoldable pub scheduler_lock : ℤ → ℕ → Kernel → Option (Bool × Kernel)
scheduler_lock pw c k = do
  p ← k.cpu c
  if is_password pw
      then (do k₁ ← acquire k; k₂ ← release (mlfqlock k₁ p); some (true, k₂))
      else (do k₁ ← exit c k; some (false, k₁))

-- `schedulerUnlock(password)` on CPU `c`, likewise.
unfoldable pub scheduler_unlock : ℤ → ℕ → Kernel → Option (Bool × Kernel)
scheduler_unlock pw c k = do
  p ← k.cpu c
  if is_password pw
      then (do k₁ ← acquire k; k₂ ← release (mlfqunlock k₁ p); some (true, k₂))
      else (do k₁ ← exit c k; some (false, k₁))

-- The loop of `setPrioity_arrangeQueue`, which keeps the last match.
unfoldable pub last_pid : ℕ → ℕ → Kernel → ℕ → Ptr → Ptr
last_pid zero p k pid found = found
last_pid (suc f) p k pid found =
    last_pid f (p + 1) k pid (if (k.proc p).pid == pid then some p else found)

abbrev pub is_runnable : ProcState → Bool
is_runnable ProcState.runnable = true
is_runnable _ = false

abbrev pub is_unused : ProcState → Bool
is_unused ProcState.unused = true
is_unused _ = false

-- The move of a process within the lowest queue.
unfoldable pub rearrange : Kernel → ℕ → Option Kernel
rearrange k p = do base ← higherpriority_proc k p; enqueue (unqueue k 2 p) 2 p base

unfoldable pub set_priority : Kernel → ℕ → ℤ → Option Kernel
set_priority k p v =
    if is_unused (k.proc p).state
    then some k
    else let k₁ = modify k p (λ r. record r { priority = v }) in
      if (k.proc p).queuelevel == 2 && is_runnable (k.proc p).state then rearrange k₁ p else some k₁

-- `setPrioity_arrangeQueue(pid, priority)`
unfoldable pub arrange_queue : ℕ → ℤ → Kernel → Option Kernel
unfolding last_pid set_priority
arrange_queue pid v k = do
  k₁ ← acquire k
  k₂ ← elim (last_pid nproc 0 k₁ pid none) [ none ↦ some k₁ | some p ↦ set_priority k₁ p v ]
  release k₂
