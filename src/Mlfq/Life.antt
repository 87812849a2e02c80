-- ===== src/Mlfq/Life.antt =====
-- Project1/proc.c: `exit` and `wait`.
use hyu_os.Prelude.{
  ℕ, zero, suc, ◌+◌, Bool, true, false, Option, none, some, List, [], ◌∷◌, if◌then◌else◌, ◌>>=◌,
  ◌||◌, ◌&&◌, not,
}
use hyu_os.Prelude.Int.{pos}
use hyu_os.Mlfq.State.{
  ProcState, zombie, unused, Proc, Ptr, Chan, no_chan, proc_chan, nproc, unused_queue,
}
use hyu_os.Mlfq.Queue.{points_to}
use hyu_os.Mlfq.Kernel.{Kernel, acquire, release, modify, set_state, enqueue}
use hyu_os.Mlfq.Sched.{releasemlfq, sched}
use hyu_os.Mlfq.Sleep.{wakeup1, sleep}

-- A pointer to a process as a channel; the null pointer is the null channel.
abbrev pub ptr_chan : Ptr → Chan
ptr_chan none = no_chan
ptr_chan (some p) = proc_chan p

abbrev pub is_zombie : ProcState → Bool
is_zombie ProcState.zombie = true
is_zombie _ = false

-- The files and the directory that `exit` closes; their reference counts belong to the file system.
unfoldable pub close_all : List (Option ℕ) → List (Option ℕ)
close_all [] = []
close_all (f ∷ fs) = none ∷ close_all fs

abbrev pub closed : Proc → Proc
closed r = record r { ofile = close_all r.ofile; cwd = none }

-- A child of `p` passed to init.
unfoldable pub adopt : Kernel → ℕ → ℕ → Option Kernel
adopt k p i =
    if points_to (k.proc i).parent p
    then (let k₁ = modify k i (λ r. record r { parent = k.initproc }) in
        if is_zombie (k.proc i).state then wakeup1 k₁ (ptr_chan k.initproc) else some k₁)
    else some k

-- The loop of `exit` over the process table from slot `i` on, with the rounds left.
unfoldable pub adopt_loop : ℕ → ℕ → Kernel → ℕ → Option Kernel
unfolding adopt
adopt_loop zero i k p = some k
adopt_loop (suc f) i k p = adopt k p i >>= λ k'. adopt_loop f (i + 1) k' p

-- `exit` of the process `p` from `acquire(&ptable.lock)` on.
unfoldable pub exit_locked : ℕ → ℕ → Kernel → Option Kernel
unfolding adopt_loop
exit_locked c p k = do
  k₁ ← acquire k
  k₂ ← wakeup1 k₁ (ptr_chan (k₁.proc p).parent)
  k₃ ← adopt_loop nproc 0 k₂ p
  sched c p (releasemlfq (set_state k₃ p zombie))

-- `exit` on CPU `c` up to the end of the scheduler's round; init panics.
unfoldable pub exit : ℕ → Kernel → Option Kernel
unfolding exit_locked
exit c k = do
  p ← k.cpu c
  if points_to k.initproc p then none else exit_locked c p (modify k p closed)

-- `setproc_default`
unfoldable pub setproc_default : Proc → Proc
setproc_default r = record r {
  priority = pos 3;
  queuelevel = 0;
  ticks = 0;
  prev = none;
  next = none;
}

-- `name[0] = 0`
abbrev pub clear_name : List ℕ → List ℕ
clear_name [] = []
clear_name (x ∷ xs) = 0 ∷ xs

-- The fields of a child that `wait` clears. The pages behind `kstack` and `pgdir` go back to the
-- allocator; `pgdir` keeps its value.
unfoldable pub buried : Proc → Proc
unfolding setproc_default
buried r = setproc_default (record r {
  kstack = none;
  pid = 0;
  parent = none;
  name = clear_name r.name;
  killed = false;
  state = unused;
})

-- What `wait` does to the zombie that it finds.
unfoldable pub reap : Kernel → ℕ → Option Kernel
unfolding buried
reap k q = enqueue (modify k q buried) unused_queue q none

-- The scan of `wait` from slot `i` on: whether `p` has children, and its first zombie child.
unfoldable pub find_child : ℕ → ℕ → Kernel → ℕ → Bool → Bool × Ptr
find_child zero i k p kids = (kids, none)
find_child (suc f) i k p kids =
    let child = points_to (k.proc i).parent p in
    let rest = find_child f (i + 1) k p (kids || child) in
    if child && is_zombie (k.proc i).state then (true, some i) else rest

-- How a round of `wait` ends: with the number of the child, with -1, or asleep.
pub data Waited : Type 0 where
  child : ℕ → Waited
  childless : Waited
  slept : Waited

unfoldable pub wait_case : ℕ → ℕ → Kernel → Bool × Ptr → Option (Waited × Kernel)
unfolding reap
wait_case c p k (kids, some q) = do k₁ ← reap k q; k₂ ← release k₁; some (child (k.proc q).pid, k₂)
wait_case c p k (kids, none) =
    if not kids || (k.proc p).killed
    then (do k₁ ← release k; some (childless, k₁))
    else (do k₁ ← sleep c (proc_chan p) true k; some (slept, k₁))

-- A round of the loop of `wait` on CPU `c`, under `ptable.lock`.
unfoldable pub wait_round : ℕ → Kernel → Option (Waited × Kernel)
unfolding find_child wait_case
wait_round c k = do p ← k.cpu c; wait_case c p k (find_child nproc 0 k p false)

-- `wait` on CPU `c` up to the end of its first round.
unfoldable pub wait : ℕ → Kernel → Option (Waited × Kernel)
unfolding wait_round
wait c k = do k₁ ← acquire k; wait_round c k₁
