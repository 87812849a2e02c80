-- ===== src/Thread/Life.antt =====
-- Project2/proc.c: `fork`, `exit` and `wait`.
use hyu_os.Prelude.{
  ℕ, zero, suc, ◌+◌, Bool, true, false, Option, none, some, List, [], ◌∷◌, ◌||◌, not, if◌then◌else◌,
  ◌>>=◌,
}
use hyu_os.Mlfq.State.{zombie, unused, runnable, Ptr, proc_chan, nproc}
use hyu_os.Mlfq.Queue.{points_to}
use hyu_os.Mlfq.Life.{ptr_chan, is_zombie, close_all, clear_name}
use hyu_os.Mlfq.Birth.{safestrcpy}
use hyu_os.Thread.State.{
  using, Share, Thread, Machine, acquire, release, modify, modify_share, modify_share_of, share_of,
}
use hyu_os.Thread.Slots.{wakeup1}
use hyu_os.Thread.Share.{alloc_th_share, allocproc, dealloc_th_share}
use hyu_os.Thread.Sched.{sched, sleep}
use hyu_os.Thread.Family.{each_thread}

-- The share entry of a new process, which is its only thread.
abbrev pub founded : ℕ → Share → Share
founded q r = record r { state = using; th_family_hd = some q; th_last = some q }

-- The loop over the files: where the parent has none, the entry keeps what it held.
unfoldable pub dup_files : List (Option ℕ) → List (Option ℕ) → List (Option ℕ)
dup_files [] old = old
dup_files (f ∷ fs) [] = []
dup_files (none ∷ fs) (o ∷ old) = o ∷ dup_files fs old
dup_files (some f ∷ fs) (o ∷ old) = some f ∷ dup_files fs old

-- What the share entry of a child gets from that of its parent `p`.
abbrev pub inherited : ℕ → Share → Share → Share
inherited p from r = record r {
  sz = from.sz;
  parent = some p;
  ofile = dup_files from.ofile r.ofile;
}

-- What `fork` copies into the child's slot.
abbrev pub copied : Thread → ℕ → ℕ → Thread → Thread
copied par pages i r = record r {
  pgdir = some pages;
  shared_info = i;
  tf = record par.tf { eax = 0 };
  cwd = par.cwd;
  name = safestrcpy 15 r.name par.name;
}

-- The end of `fork`, with the share entry that was found: no entry is a panic.
unfoldable pub equip : ℕ → ℕ → ℕ → Ptr × Machine → Option (Option ℕ × Machine)
equip p q pages (none, m) = none
equip p q pages (some i, m) = do
  let m₁ = modify m q (copied (m.proc p) pages i)
  let m₂ = modify_share m₁ i (λ r. inherited p (share_of m₁ p) (founded q r))
  m₃ ← acquire m₂
  m₄ ← release (modify m₃ q (λ r. record r { state = runnable }))
  some (some (m.proc q).pid, m₄)

-- `fork` of the process `p` with the slot that `allocproc` returned; the first argument is what
-- `copyuvm` returns.
unfoldable pub raise_child : Option ℕ → ℕ → Ptr × Machine → Option (Option ℕ × Machine)
unfolding equip
raise_child pages p (none, m) = some (none, m)
raise_child none p (some q, m) =
    some (none, modify m q (λ r. record r { kstack = none; pgdir = none; state = unused }))
raise_child (some d) p (some q, m) = equip p q d (alloc_th_share m)

-- `fork` on CPU `c`, with what `kalloc` and `copyuvm` return.
unfoldable pub fork : Option ℕ → Option ℕ → ℕ → Machine → Option (Option ℕ × Machine)
unfolding raise_child
fork stack pages c m = do p ← m.cpu c; r ← allocproc stack m; raise_child pages p r

-- The files that a process closes; their reference counts belong to the file system.
abbrev pub close_files : Machine → ℕ → Machine
close_files m p = modify_share_of m p (λ r. record r { ofile = close_all r.ofile })

-- The loop of `exit` that passes the children of `p` to init, from slot `i` on.
unfoldable pub adopt : Machine → ℕ → ℕ → Machine
adopt m p i =
    if points_to (share_of m i).parent p
    then (let m₁ = modify_share_of m i (λ r. record r { parent = m.initproc }) in
        if is_zombie (m.proc i).state then wakeup1 m₁ (ptr_chan m.initproc) else m₁)
    else m

unfoldable pub adopt_loop : ℕ → ℕ → Machine → ℕ → Machine
unfolding adopt
adopt_loop zero i m p = m
adopt_loop (suc f) i m p = adopt_loop f (i + 1) (adopt m p i) p

abbrev pub buried : ℕ → Thread → Thread
buried _ r = record r { state = zombie }

-- `exit` of the process `p` from `acquire(&ptable.lock)` on.
unfoldable pub exit_locked : ℕ → ℕ → Machine → Option Machine
unfolding adopt_loop
exit_locked c p m = do
  m₁ ← acquire m
  let m₂ = wakeup1 m₁ (ptr_chan (share_of m₁ p).parent)
  let m₃ = adopt_loop nproc 0 m₂ p
  m₄ ← each_thread buried p m₃
  sched c p m₄

-- `exit` on CPU `c` up to the switch; init panics.
unfoldable pub exit : ℕ → Machine → Option Machine
unfolding exit_locked
exit c m = do
  p ← m.cpu c
  if points_to m.initproc p
      then none
      else exit_locked c p (modify (close_files m p) p (λ r. record r { cwd = none }))

-- The fields that `wait` and `thread_join` clear in the slot of a zombie.
abbrev pub reaped : Thread → Thread
reaped r = record r {
  kstack = none;
  pid = 0;
  name = clear_name r.name;
  killed = false;
  state = unused;
  tid = 0;
  th_next = none;
  retval = 0;
  th_main = none;
}

-- What `wait` of the process `p` does to the zombie in slot `q`. The test on the main thread
-- follows the assignment of null to `th_main`; the files that it closes are those of the caller.
unfoldable pub reap : Machine → ℕ → ℕ → Option Machine
reap m p q =
    let m₁ = modify m q reaped in
    if points_to (m₁.proc q).th_main q
    then (do m₂ ← release m₁; acquire (close_files m₂ p))
    else some m₁

-- Where the scan of `wait` stands: a child was seen, and the number and share entry of the last
-- zombie.
pub record Scan : Type 0 where
  pub havekids : Bool
  pub last : Option (ℕ × ℕ)

-- The body of the scan of `wait` of the process `p` at slot `i`.
unfoldable pub reap_one : Machine → ℕ → ℕ → Scan → Option (Scan × Machine)
unfolding reap
reap_one m p i sc =
    if points_to (share_of m i).parent p
    then if is_zombie (m.proc i).state
      then (do
        m₁ ← reap m p i
        let dead : Scan = record {
          havekids = true;
          last = some ((m.proc i).pid, (m.proc i).shared_info);
        }
        some (dead, m₁))
      else some (record sc { havekids = true }, m)
    else some (sc, m)

-- The scan of `wait` of the process `p` from slot `i` on.
unfoldable pub reap_loop : ℕ → ℕ → Machine → ℕ → Scan → Option (Scan × Machine)
unfolding reap_one
reap_loop zero i m p sc = some (sc, m)
reap_loop (suc f) i m p sc = reap_one m p i sc >>= λ (sc', m'). reap_loop f (i + 1) m' p sc'

-- How a round of `wait` ends.
pub data Waited : Type 0 where
  child : ℕ → Waited
  childless : Waited
  slept : Waited

unfoldable pub wait_case : ℕ → ℕ → Scan × Machine → Option (Waited × Machine)
wait_case c p (sc, m) = elim sc.last [
  | some (pid, i) ↦ (do m₁ ← release (modify_share m i dealloc_th_share); some (child pid, m₁))
  | none ↦
      if not sc.havekids || (m.proc p).killed
      then (do m₁ ← release m; some (childless, m₁))
      else (do m₁ ← sleep c (proc_chan p) true m; some (slept, m₁))
]

-- A round of the loop of `wait` on CPU `c`, under `ptable.lock`.
unfoldable pub wait_round : ℕ → Machine → Option (Waited × Machine)
unfolding reap_loop wait_case
wait_round c m = do
  p ← m.cpu c
  t ← reap_loop nproc 0 m p (record { havekids = false; last = none })
  wait_case c p t

-- `wait` on CPU `c` up to the end of its first round.
unfoldable pub wait : ℕ → Machine → Option (Waited × Machine)
unfolding wait_round
wait c m = do m₁ ← acquire m; wait_round c m₁
