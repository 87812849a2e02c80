-- ===== src/Thread/Create.antt =====
-- Project2/proc.c: `userinit`, `thread_create`, `thread_exit` and `thread_join`.
use hyu_os.Prelude.{
  ℕ, ◌*◌, Bool, true, Option, none, some, List, [], ◌∷◌, ltb, ◌==◌, ◌&&◌, not, if◌then◌else◌, ◌>>=◌,
}
use hyu_os.Prelude.Words.{add32, sub32, page_size, page_round_up}
use hyu_os.Mlfq.State.{zombie, unused, runnable, Ptr, Trapframe, nproc}
use hyu_os.Mlfq.Queue.{points_to, is_null}
use hyu_os.Mlfq.Life.{ptr_chan, is_zombie}
use hyu_os.Mlfq.Birth.{safestrcpy}
use hyu_os.Thread.State.{
  Share, Thread, Machine, acquire, release, modify, modify_share_of, share_of,
}
use hyu_os.Thread.Slots.{wakeup1, find_slot}
use hyu_os.Thread.Share.{alloc_th_share, allocproc}
use hyu_os.Thread.Sched.{sched, sleep}
use hyu_os.Thread.Family.{delete_thread}
use hyu_os.Thread.Life.{founded, reaped}
use hyu_os.Thread.State.{modify_share}

-- What a new thread gets of the thread `p` that makes it, whose record is `par`.
abbrev pub shared_with : ℕ → Thread → Thread → Thread
shared_with p par r = record r {
  pgdir = par.pgdir;
  pid = par.pid;
  name = safestrcpy 15 r.name par.name;
  cwd = par.cwd;
  shared_info = par.shared_info;
  th_next = none;
  th_main = some p;
}

-- The thread `n` at the end of its family.
unfoldable pub join_family : Machine → ℕ → Option Machine
join_family m n =
    if is_null (share_of m n).th_family_hd
    then some (modify_share_of m n (λ r. record r { th_family_hd = some n; th_last = some n }))
    else (do
      l ← (share_of m n).th_last
      let m₁ = modify m l (λ r. record r { th_next = some n })
      some (modify_share_of m₁ n (λ r. record r { th_last = some n })))

-- The trap frame of a new thread: it starts at `start` with the stack pointer `sp`.
abbrev pub started : Trapframe → ℕ → ℕ → Thread → Thread
started tf start sp r = record r { tf = record tf { eip = start; esp = sp }; state = runnable }

-- The part of `thread_create` under `ptable.lock`, with the slot `n`; `allocuvm` gives the size
-- that it reaches, 0 where it fails. The argument and the fake return address that go on the user
-- stack are user memory.
unfoldable pub set_up : (ℕ → ℕ → ℕ) → ℕ → ℕ → ℕ → Machine → Option (Option ℕ × Machine)
unfolding join_family
set_up allocuvm start p n m = do
  m₁ ← acquire m
  let m₂ = modify m₁ n (shared_with p (m₁.proc p))
  let old = page_round_up (share_of m₂ n).sz
  let sz = allocuvm old (add32 old (2 * page_size))
  if sz == 0
      then (do
        m₃ ← release (modify m₂ n (λ r. record r { kstack = none; state = unused }))
        some (none, m₃))
      else (do
        m₃ ← join_family m₂ n
        let m₄ = modify_share_of m₃ n (λ r. record r { sz = sz })
        m₅ ← release (modify m₄ n (started (m₄.proc p).tf start (sub32 sz 8)))
        some (some (m₄.proc n).tid, m₅))

-- `thread_create` after `allocproc`.
unfoldable pub create_case : (ℕ → ℕ → ℕ) → ℕ → ℕ → Ptr × Machine → Option (Option ℕ × Machine)
unfolding set_up
create_case allocuvm start p (none, m) = some (none, m)
create_case allocuvm start p (some n, m) = set_up allocuvm start p n m

-- The check of the memory limit.
abbrev pub over_limit : Share → Bool
over_limit r = not (r.memory_limit == 0) && ltb r.memory_limit (add32 r.sz (2 * page_size))

-- `thread_create` on CPU `c` with the start routine `start`: the number of the thread, or `none`
-- for -1. The first argument is what `kalloc` returns.
unfoldable pub thread_create :
    Option ℕ → (ℕ → ℕ → ℕ) → ℕ → ℕ → Machine → Option (Option ℕ × Machine)
unfolding create_case
thread_create stack allocuvm start c m = do
  p ← m.cpu c
  if over_limit (share_of m p)
      then some (none, m)
      else (do r ← allocproc stack m; create_case allocuvm start p r)

-- `thread_exit(retval)` on CPU `c` up to the switch; the main thread returns at once.
unfoldable pub thread_exit : ℕ → ℕ → Machine → Option Machine
thread_exit retval c m = do
  p ← m.cpu c
  if points_to (m.proc p).th_main p then some m else (do
    m₁ ← acquire (modify m p (λ r. record r { cwd = none }))
    let m₂ = modify m₁ p (λ r. record r { retval = retval })
    let m₃ = wakeup1 m₂ (ptr_chan (m₂.proc p).th_main)
    sched c p (modify m₃ p (λ r. record r { state = zombie })))

-- How a round of `thread_join` ends: with the value of the thread, with -1, or asleep.
pub data Joined : Type 0 where
  value : ℕ → Joined
  killed : Joined
  slept : Joined

-- A round of `thread_join` with the zombie that its search found. The slot is cleared before
-- `delete_thread` takes it off its family.
unfoldable pub join_case : ℕ → ℕ → Machine → Ptr → Option (Joined × Machine)
join_case c p m (some q) = do
  m₁ ← delete_thread (modify m q reaped) q
  m₂ ← release m₁
  some (value (m.proc q).retval, m₂)
join_case c p m none =
    if (m.proc p).killed
    then (do m₁ ← release m; some (killed, m₁))
    else (do m₁ ← sleep c (ptr_chan (m.proc p).th_main) true m; some (slept, m₁))

-- The test of the loop of `thread_join`.
abbrev pub is_dead : ℕ → Machine → ℕ → Bool
is_dead tid m q = ((m.proc q).tid == tid) && is_zombie (m.proc q).state

-- A round of the loop of `thread_join` on CPU `c`, under `ptable.lock`.
unfoldable pub join_round : ℕ → ℕ → Machine → Option (Joined × Machine)
unfolding join_case
join_round tid c m = do p ← m.cpu c; join_case c p m (find_slot nproc 0 (is_dead tid m))

-- `thread_join` on CPU `c` up to the end of its first round.
unfoldable pub thread_join : ℕ → ℕ → Machine → Option (Joined × Machine)
unfolding join_round
thread_join tid c m = do m₁ ← acquire m; join_round tid c m₁

-- The trap frame of the first process: `SEG_UCODE << 3 | DPL_USER`, `SEG_UDATA << 3 | DPL_USER`
-- and `FL_IF` over a frame of zeros.
abbrev pub first_frame : Trapframe
first_frame = record {
  cs = 27;
  ds = 35;
  es = 35;
  ss = 35;
  eflags = 512;
  esp = page_size;
  eip = 0;
  eax = 0;
}

-- `"initcode"`
abbrev pub initcode : List ℕ
initcode = 105 ∷ 110 ∷ 105 ∷ 116 ∷ 99 ∷ 111 ∷ 100 ∷ 101 ∷ 0 ∷ []

-- `userinit`, with what `kalloc`, `setupkvm` and `namei("/")` return; a failure is a panic or a
-- null dereference.
unfoldable pub userinit : Option ℕ → Option ℕ → Option ℕ → Machine → Option Machine
userinit stack pages root m = do
  t ← allocproc stack m
  p ← t.0
  let (e, m₁) = alloc_th_share t.1
  i ← e
  d ← pages
  let m₂ =
      record (modify m₁ p (λ r. record r {
        shared_info = i;
        pgdir = some d;
        tf = first_frame;
        name = safestrcpy 15 r.name initcode;
        cwd = root;
      })) { initproc = some p }
  m₃ ← acquire (modify_share m₂ i (λ r. record (founded p r) { sz = page_size }))
  release (modify m₃ p (λ r. record r { state = runnable }))
