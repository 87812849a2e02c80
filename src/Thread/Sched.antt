-- ===== src/Thread/Sched.antt =====
-- Project2/proc.c: the scheduler, `yield` and `sleep`.
use hyu_os.Prelude.{ℕ, zero, suc, ◌+◌, ◌-◌, Bool, Option, none, some, update, if◌then◌else◌, ◌>>=◌}
use hyu_os.Mlfq.State.{running, runnable, sleeping, Chan, no_chan, nproc}
use hyu_os.Mlfq.Sched.{is_running}
use hyu_os.Mlfq.Lock.{is_runnable}
use hyu_os.Thread.State.{Machine, acquire, release, modify}

-- The process that the scheduler of CPU `c` runs; the lock stays held.
unfoldable pub dispatch : ℕ → ℕ → Machine → Machine
dispatch c p m =
    modify (record m { cpu = update m.cpu c (some p) }) p (λ r. record r { state = running })

-- The scan of `scheduler` from slot `i` on, up to the switch to the first runnable process, or to
-- the end of the table, where the lock is released.
unfoldable pub scan : ℕ → ℕ → ℕ → Machine → Option Machine
unfolding dispatch
scan zero i c m = release m
scan (suc f) i c m =
    let rest = scan f (i + 1) c m in
    if is_runnable (m.proc i).state then some (dispatch c i m) else rest

-- A pass of `scheduler` on CPU `c` up to the first switch.
unfoldable pub scheduler_pass : ℕ → Machine → Option Machine
unfolding scan
scheduler_pass c m = do m₁ ← acquire m; scan nproc 0 c m₁

-- The way back from the process `p`: the scan goes on behind its slot.
unfoldable pub scheduler_return : ℕ → ℕ → Machine → Option Machine
unfolding scan
scheduler_return c p m = scan (nproc - (p + 1)) (p + 1) c (record m { cpu = update m.cpu c none })

-- `sched` of the process `p` on CPU `c`: its checks, and the switch to the scheduler.
unfoldable pub sched : ℕ → ℕ → Machine → Option Machine
unfolding scheduler_return
sched c p m =
    if m.locked
    then (if is_running (m.proc p).state then none else scheduler_return c p m)
    else none

-- `yield` on CPU `c` up to the switch; its end, and that of `forkret`, is `release`.
unfoldable pub yield : ℕ → Machine → Option Machine
unfolding sched
yield c m = do
  m₁ ← acquire m
  p ← m₁.cpu c
  sched c p (modify m₁ p (λ r. record r { state = runnable }))

-- `if(lk != &ptable.lock) acquire(&ptable.lock)`
unfoldable pub take_lock : Bool → Machine → Option Machine
take_lock own m = if own then some m else acquire m

-- `sleep(chan, lk)` on CPU `c` up to the switch; `own` says that `lk` is `ptable.lock`.
unfoldable pub sleep : ℕ → Chan → Bool → Machine → Option Machine
unfolding take_lock sched
sleep c ch own m = do
  p ← m.cpu c
  m₁ ← take_lock own m
  sched c p (modify m₁ p (λ r. record r { chan = ch; state = sleeping }))

-- What `sleep` does when the process runs again.
unfoldable pub resume_sleep : ℕ → Bool → Machine → Option Machine
resume_sleep c own m = do
  p ← m.cpu c
  let m₁ = modify m p (λ r. record r { chan = no_chan })
  if own then some m₁ else release m₁
