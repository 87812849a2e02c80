-- ===== src/Mlfq/Priority.antt =====
-- Project1/proc.c: the place of a process in the lowest queue, by priority.
use hyu_os.Prelude.{ℕ, zero, suc, ◌+◌, Option, none, some, if◌then◌else◌, ◌>>=◌, ◌==◌}
use hyu_os.Prelude.Int.{ℤ, ltb_ℤ}
use hyu_os.Mlfq.State.{Procs, Ptr, nproc}
use hyu_os.Mlfq.Kernel.{Kernel, enqueue, l_queue}

-- The loop of `higherpriority_proc` from `t` on, for a process of priority `v`; the first argument
-- is the rounds left.
unfoldable pub higher_loop : ℕ → Procs → ℤ → Ptr → Option Ptr
higher_loop zero s v t = none
higher_loop (suc f) s v none = some none
higher_loop (suc f) s v (some t) =
    let rest = higher_loop f s v (s t).next in
    if ltb_ℤ v (s t).priority then some (some t) else rest

-- `higherpriority_proc(p)`: a queue holds at most `nproc` processes.
unfoldable pub higherpriority_proc : Kernel → ℕ → Option Ptr
unfolding higher_loop
higherpriority_proc k p = higher_loop (nproc + 1) k.proc (k.proc p).priority (k.queue 2).head

-- What `yield`, `wakeup1` and `kill` share: `p` goes to the queue of its level, by priority in the
-- lowest and at the end of the others.
unfoldable pub insert_level : Kernel → ℕ → Option Kernel
insert_level k p =
    if (k.proc p).queuelevel == 2
    then (do base ← higherpriority_proc k p; enqueue k 2 p base)
    else (do i ← l_queue (k.proc p).queuelevel; enqueue k i p none)
