-- ===== src/Mlfq/State.antt =====
-- Project1/proc.h and Project1/scheduler.h: the process table and the scheduler's queues.
use hyu_os.Prelude.{ℕ, Bool, Option, List, update}
use hyu_os.Prelude.Int.{ℤ}

-- `enum procstate`
pub data ProcState : Type 0 where
  unused embryo sleeping runnable running zombie : ProcState

-- A pointer into `ptable.proc` is the index of the slot; the null pointer is `none`.
abbrev pub Ptr : Type 0
Ptr = Option ℕ

-- What a process sleeps on: nothing, a slot of the process table, or another kernel object.
pub data Chan : Type 0 where
  no_chan : Chan
  proc_chan : ℕ → Chan
  object_chan : ℕ → Chan

-- `struct trapframe`, as far as proc.c reads or writes it.
pub record Trapframe : Type 0 where
  pub cs : ℕ
  pub ds : ℕ
  pub es : ℕ
  pub ss : ℕ
  pub eflags : ℕ
  pub esp : ℕ
  pub eip : ℕ
  pub eax : ℕ

-- `struct proc`. The saved kernel context belongs to the assembly of `swtch` and is left out.
pub record Proc : Type 0 where
  pub sz : ℕ
  pub pgdir : Option ℕ
  pub kstack : Option ℕ
  pub state : ProcState
  pub pid : ℕ
  pub parent : Ptr
  pub tf : Trapframe
  pub chan : Chan
  pub killed : Bool
  pub ofile : List (Option ℕ)
  pub cwd : Option ℕ
  pub name : List ℕ
  pub priority : ℤ
  pub queuelevel : ℕ
  pub ticks : ℕ
  pub prev : Ptr
  pub next : Ptr

-- `ptable.proc`
abbrev pub Procs : Type 0
Procs = ℕ → Proc

-- `queue`
pub record Queue : Type 0 where
  pub head : Ptr
  pub tail : Ptr
  pub count : ℕ

-- The queues of `struct mlfq` in the order of its fields: `l_queue[0..2]`, `sleep_queue`,
-- `unused_queue`.
abbrev pub QueueId : Type 0
QueueId = ℕ

abbrev pub nqueue : ℕ
nqueue = 3

abbrev pub sleep_queue : QueueId
sleep_queue = 3

abbrev pub unused_queue : QueueId
unused_queue = 4

-- `NPROC`
abbrev pub nproc : ℕ
nproc = 64

-- `p->prev = v` and `p->next = v`
abbrev pub set_prev : Procs → ℕ → Ptr → Procs
set_prev s p v = update s p (record (s p) { prev = v })

abbrev pub set_next : Procs → ℕ → Ptr → Procs
set_next s p v = update s p (record (s p) { next = v })
