-- ===== src/Mlfq/Sleep.antt =====
-- Project1/proc.c: `sleep`, `wakeup1`, `wakeup` and `kill`.
use hyu_os.Prelude.{
  ℕ, zero, suc, ◌+◌, Bool, true, false, Option, none, some, ◌==◌, if◌then◌else◌, ◌>>=◌,
}
use hyu_os.Mlfq.State.{
  ProcState, sleeping, runnable, Proc, Ptr, Chan, no_chan, proc_chan, object_chan, nproc,
  sleep_queue,
}
use hyu_os.Mlfq.Kernel.{Kernel, acquire, release, modify, set_state, enqueue, unqueue}
use hyu_os.Mlfq.Priority.{insert_level}
use hyu_os.Mlfq.Sched.{releasemlfq, sched}

abbrev pub chan_eq : Chan → Chan → Bool
chan_eq no_chan no_chan = true
chan_eq (proc_chan a) (proc_chan b) = a == b
chan_eq (object_chan a) (object_chan b) = a == b
chan_eq _ _ = false

abbrev pub asleep : Chan → Proc → Proc
asleep ch r = record r { chan = ch; state = sleeping }

-- The part of `sleep` under `ptable.lock`, up to `sched`.
unfoldable pub fall_asleep : Kernel → ℕ → Chan → Option Kernel
fall_asleep k p ch = enqueue (modify (releasemlfq k) p (asleep ch)) sleep_queue p none

-- `if(lk != &ptable.lock) acquire(&ptable.lock)`
unfoldable pub take_lock : Bool → Kernel → Option Kernel
take_lock own k = if own then some k else acquire k

-- `sleep(chan, lk)` on CPU `c` up to the end of the scheduler's round; `own` says that `lk` is
-- `ptable.lock`, which is then already held.
unfoldable pub sleep : ℕ → Chan → Bool → Kernel → Option Kernel
unfolding take_lock
sleep c ch own k = do p ← k.cpu c; k₁ ← take_lock own k; k₂ ← fall_asleep k₁ p ch; sched c p k₂

-- What `sleep` does when the process runs again: `ptable.lock` is kept if it was `lk`.
unfoldable pub resume_sleep : ℕ → Bool → Kernel → Option Kernel
resume_sleep c own k = do
  p ← k.cpu c
  let k₁ = modify k p (λ r. record r { chan = no_chan })
  if own then some k₁ else release k₁

-- The body of `wakeup1` for a process that sleeps on the channel.
unfoldable pub rouse : Kernel → ℕ → Option Kernel
rouse k p = insert_level (set_state (unqueue k sleep_queue p) p runnable) p

-- The loop of `wakeup1` from `t` on; `next` is read before the process is moved.
unfoldable pub wakeup_loop : ℕ → Kernel → Chan → Ptr → Option Kernel
unfolding rouse
wakeup_loop zero k ch t = none
wakeup_loop (suc f) k ch none = some k
wakeup_loop (suc f) k ch (some p) =
    let after = (k.proc p).next in
    (if chan_eq (k.proc p).chan ch then rouse k p else some k) >>= λ k'. wakeup_loop f k' ch after

-- `wakeup1(chan)`
unfoldable pub wakeup1 : Kernel → Chan → Option Kernel
unfolding wakeup_loop
wakeup1 k ch = wakeup_loop (nproc + 1) k ch (k.queue sleep_queue).head

-- `wakeup(chan)`
unfoldable pub wakeup : Chan → Kernel → Option Kernel
wakeup ch k = do k₁ ← acquire k; k₂ ← wakeup1 k₁ ch; release k₂

abbrev pub is_sleeping : ProcState → Bool
is_sleeping ProcState.sleeping = true
is_sleeping _ = false

-- `for(p = ptable.proc; p < &ptable.proc[NPROC]; p++) if(p->pid == pid)`, with the rounds left.
unfoldable pub find_pid : ℕ → ℕ → Kernel → ℕ → Ptr
find_pid zero p k pid = none
find_pid (suc f) p k pid =
    let rest = find_pid f (p + 1) k pid in if (k.proc p).pid == pid then some p else rest

-- What `kill` does to the process that it finds.
unfoldable pub kill_proc : Kernel → ℕ → Option Kernel
kill_proc k p =
    let k₁ = modify k p (λ r. record r { killed = true }) in
    if is_sleeping (k.proc p).state
    then insert_level (unqueue (set_state k₁ p runnable) sleep_queue p) p
    else some k₁

-- `kill(pid)`: `true` for 0, `false` for -1.
unfoldable pub kill : ℕ → Kernel → Option (Bool × Kernel)
unfolding kill_proc find_pid
kill pid k = do
  k₁ ← acquire k
  elim (find_pid nproc 0 k₁ pid) [
    | none ↦ (do k₂ ← release k₁; some (false, k₂))
    | some p ↦ (do k₂ ← kill_proc k₁ p; k₃ ← release k₂; some (true, k₃))
  ]
