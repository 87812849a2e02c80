-- ===== src/Mlfq/Sched.antt =====
-- Project1/proc.c: the scheduler, priority boosting and `yield`.
use hyu_os.Prelude.{
  ℕ, zero, suc, ◌+◌, ◌*◌, Bool, true, false, Option, none, some, update, ◌==◌, ◌||◌, if◌then◌else◌,
  ◌>>=◌,
}
use hyu_os.Prelude.Int.{pos, pred_priority}
use hyu_os.Mlfq.State.{ProcState, running, runnable, Proc, Procs, Ptr, QueueId, nproc, sleep_queue}
use hyu_os.Mlfq.Queue.{queue_is_empty, points_to}
use hyu_os.Mlfq.Kernel.{Kernel, acquire, release, modify, set_state, enqueue, take_first, merge}
use hyu_os.Mlfq.Priority.{insert_level}

-- The fields that boosting gives a process.
abbrev pub boosted : Proc → Proc
boosted r = record r { queuelevel = 0; priority = pos 3; ticks = 0 }

-- The loops of `priority_boosting` from `t` on; the first argument is the rounds left.
unfoldable pub boost_loop : ℕ → Procs → Ptr → Option Procs
boost_loop zero s t = none
boost_loop (suc f) s none = some s
boost_loop (suc f) s (some t) = let s' = update s t (boosted (s t)) in boost_loop f s' (s' t).next

unfoldable pub boost_queue : Kernel → QueueId → Option Kernel
boost_queue k i = do
  s ← boost_loop (nproc + 1) k.proc (k.queue i).head
  some (record k { proc = s })

-- `priority_boosting`
unfoldable pub priority_boosting : Kernel → Option Kernel
unfolding boost_queue
priority_boosting k = do
  k₁ ← merge k 1 2
  k₂ ← merge k₁ 0 1
  k₃ ← boost_queue k₂ sleep_queue
  boost_queue k₃ 0

-- `releasemlfq`
unfoldable pub releasemlfq : Kernel → Kernel
releasemlfq k = elim k.lockproc [ none ↦ k | some p ↦ record k { lockproc = none } ]

-- The choice of `scheduler`: the first process of the first nonempty level.
unfoldable pub choose : Kernel → Ptr × Kernel
choose k =
    if queue_is_empty (k.queue 0)
    then if queue_is_empty (k.queue 1)
      then if queue_is_empty (k.queue 2) then (none, k) else take_first k 2
      else take_first k 1
    else take_first k 0

-- With a process chosen the lock stays held, and the process releases it when it runs; with none
-- it is released.
unfoldable pub dispatch : ℕ → Ptr × Kernel → Option Kernel
dispatch c (none, k) = release k
dispatch c (some p, k) = some (set_state (record k { cpu = update k.cpu c (some p) }) p running)

-- A round of `scheduler` on CPU `c` up to the switch.
unfoldable pub scheduler_pick : ℕ → Kernel → Option Kernel
unfolding dispatch
scheduler_pick c k = do k₁ ← acquire k; dispatch c (choose k₁)

-- The boosting that the scheduler makes at the hundredth tick.
unfoldable pub boost_check : Kernel → Option Kernel
boost_check k =
    if k.global_ticks == 100
    then (do k' ← priority_boosting (record k { global_ticks = 0 }); some (releasemlfq k'))
    else some k

-- The rest of the round, when the process has switched back.
unfoldable pub scheduler_return : ℕ → Kernel → Option Kernel
unfolding boost_check
scheduler_return c k = do k₁ ← boost_check k; release (record k₁ { cpu = update k₁.cpu c none })

abbrev pub is_running : ProcState → Bool
is_running ProcState.running = true
is_running _ = false

-- `sched` of the process `p` on CPU `c`: its checks, and the switch to the scheduler.
unfoldable pub sched : ℕ → ℕ → Kernel → Option Kernel
sched c p k =
    if k.locked then (if is_running (k.proc p).state then none else scheduler_return c k) else none

-- The priority, level and ticks of a process that has used up its quantum, `queuelevel * 2 + 4`.
unfoldable pub charge : Proc → Proc
charge r =
    if r.ticks == r.queuelevel * 2 + 4
    then record r {
      ticks = 0;
      priority = if r.queuelevel == 2 then pred_priority r.priority else r.priority;
      queuelevel = if r.queuelevel == 0 then 1 else 2;
    }
    else r

abbrev pub ticked : Proc → Proc
ticked r = record r { ticks = r.ticks + 1; state = runnable }

-- The counters and the state that `yield` sets first.
unfoldable pub tick : Kernel → ℕ → Kernel
tick k p = modify (record k { global_ticks = k.global_ticks + 1 }) p ticked

-- Where `yield` puts the process: the holder of the scheduler lock, and the one that gave it up,
-- at the head of the first queue, any other by its level.
unfoldable pub yield_insert : Kernel → ℕ → Option Kernel
unfolding charge
yield_insert k p =
    if points_to k.lockproc p || points_to k.unlockproc p
    then enqueue (if points_to k.unlockproc p then record k { unlockproc = none } else k) 0 p
        (k.queue 0).head
    else insert_level (modify k p charge) p

-- `yield` on CPU `c`, up to the end of the scheduler's round.
unfoldable pub yield : ℕ → Kernel → Option Kernel
unfolding tick yield_insert sched
yield c k = do p ← k.cpu c; k₁ ← acquire k; k₂ ← yield_insert (tick k₁ p) p; sched c p k₂

-- The end of `yield` and the beginning of `forkret`, when the process runs again.
unfoldable pub resume : Kernel → Option Kernel
resume k = release k
