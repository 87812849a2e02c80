-- ===== src/Thread/State.antt =====
-- Project2/proc.h: the tables of threads and of what the threads of a process share.
use hyu_os.Prelude.{ℕ, Bool, true, false, Option, none, some, List, update, if◌then◌else◌}
use hyu_os.Mlfq.State.{ProcState, Ptr, Chan, Trapframe}

-- `enum thshare_state`
pub data ShareState : Type 0 where
  empty using : ShareState

-- `struct th_share`; `memory_limit` is the bit pattern of the `int`.
pub record Share : Type 0 where
  pub sz : ℕ
  pub parent : Ptr
  pub ofile : List (Option ℕ)
  pub memory_limit : ℕ
  pub stacksize : ℕ
  pub th_family_hd : Ptr
  pub th_last : Ptr
  pub state : ShareState

-- `struct proc`. A pointer to an entry of `ptable.th_share` is its index; the null pointer is
-- `no_share`, and what stands there is whatever the address space holds at address 0. The saved
-- kernel context belongs to the assembly of `swtch`.
pub record Thread : Type 0 where
  pub kstack : Option ℕ
  pub state : ProcState
  pub tf : Trapframe
  pub chan : Chan
  pub killed : Bool
  pub pgdir : Option ℕ
  pub pid : ℕ
  pub name : List ℕ
  pub cwd : Option ℕ
  pub shared_info : ℕ
  pub tid : ℕ
  pub th_next : Ptr
  pub th_main : Ptr
  pub retval : ℕ

abbrev pub no_share : ℕ
no_share = 64

abbrev pub Threads : Type 0
Threads = ℕ → Thread

-- `ptable` and the other globals of proc.c; `cpu c` is `cpus[c].proc`.
pub record Machine : Type 0 where
  pub proc : Threads
  pub share : ℕ → Share
  pub initproc : Ptr
  pub nextpid : ℕ
  pub nexttid : ℕ
  pub cpu : ℕ → Ptr
  pub locked : Bool

-- `acquire(&ptable.lock)` once the lock is free, and `release(&ptable.lock)`.
unfoldable pub acquire : Machine → Option Machine
acquire m = if m.locked then none else some (record m { locked = true })

unfoldable pub release : Machine → Option Machine
release m = if m.locked then some (record m { locked = false }) else none

-- A change to one thread, and to one entry of the share table.
abbrev pub change : Threads → ℕ → (Thread → Thread) → Threads
change s p f = update s p (f (s p))

abbrev pub modify : Machine → ℕ → (Thread → Thread) → Machine
modify m p f = record m { proc = change m.proc p f }

abbrev pub modify_share : Machine → ℕ → (Share → Share) → Machine
modify_share m i f = record m { share = update m.share i (f (m.share i)) }

-- `p->shared_info`
abbrev pub share_of : Machine → ℕ → Share
share_of m p = m.share (m.proc p).shared_info

abbrev pub modify_share_of : Machine → ℕ → (Share → Share) → Machine
modify_share_of m p f = modify_share m (m.proc p).shared_info f
