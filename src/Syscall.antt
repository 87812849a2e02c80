-- ===== src/Syscall.antt =====
-- Project1/syscall.c and Project1/sysproc.c: the arguments of system calls, and those about
-- processes.
pub mod Args
mod Tests
use hyu_os.Prelude.{
  ℕ, zero, suc, ◌+◌, ◌-◌, ◌*◌, ◌/◌, ◌%◌, ◌^◌, Bool, true, false, Option, none, some, ltb, leb, ◌==◌,
  ◌&&◌, ◌||◌, if◌then◌else◌, ◌>>=◌,
}
use hyu_os.Prelude.Int.{ℤ, pos, negsuc}
use hyu_os.Prelude.Words.{word, add32, is_negative, is_positive}
use hyu_os.Memory.{Bytes}
use hyu_os.Mlfq.State.{Proc, Trapframe}
use hyu_os.Mlfq.Kernel.{Kernel, modify}
use hyu_os.Mlfq.Sched.{yield}
use hyu_os.Mlfq.Sleep.{kill}
use hyu_os.Mlfq.Lock.{scheduler_lock, scheduler_unlock, arrange_queue}

-- `*(int*)addr`
abbrev pub load_word : Bytes → ℕ → ℕ
load_word m a = m a + m (a + 1) * 256 + m (a + 2) * 65536 + m (a + 3) * 16777216

-- `fetchint(addr, ip)` in the process `r`, whose memory is `m`; `none` is -1.
unfoldable pub fetchint : ℕ → Proc → Bytes → Option ℕ
fetchint addr r m =
    if leb r.sz addr || ltb r.sz (add32 addr 4) then none else some (load_word m addr)

-- The loop of `fetchstr` over the bytes that are left: the length of the string.
unfoldable pub find_end : ℕ → ℕ → Bytes → Option ℕ
find_end zero s m = none
find_end (suc f) s m =
    let rest = find_end f (s + 1) m in if m s == 0 then some 0 else (rest >>= λ n. some (suc n))

-- `fetchstr(addr, pp)`: the string and its length.
unfoldable pub fetchstr : ℕ → Proc → Bytes → Option (ℕ × ℕ)
unfolding find_end
fetchstr addr r m =
    if leb r.sz addr then none else (do n ← find_end (r.sz - addr) addr m; some (addr, n))

-- `argint(n, ip)`
unfoldable pub argint : ℕ → Proc → Bytes → Option ℕ
unfolding fetchint
argint n r m = fetchint (add32 (add32 r.tf.esp 4) (4 * n)) r m

-- `argptr(n, pp, size)`; `size` is the bit pattern of an `int`.
unfoldable pub argptr : ℕ → ℕ → Proc → Bytes → Option ℕ
unfolding argint
argptr n size r m = do
  i ← argint n r m
  if is_negative size || leb r.sz i || ltb r.sz (add32 i size) then none else some i

-- `argstr(n, pp)`
unfoldable pub argstr : ℕ → Proc → Bytes → Option (ℕ × ℕ)
unfolding argint fetchstr
argstr n r m = do addr ← argint n r m; fetchstr addr r m

-- -1, and the `int` of a bit pattern.
abbrev pub minus_one : ℕ
minus_one = 4294967295

abbrev pub to_ℤ : ℕ → ℤ
to_ℤ w = if is_negative w then negsuc (word - 1 - w) else pos w

-- The handlers below run on CPU `c` in a process with the memory `m`, and return a bit pattern.
-- `kill` and its kin return 0 or -1.
abbrev pub status : Bool → ℕ
status ok = if ok then 0 else minus_one

unfoldable pub sys_kill : ℕ → Bytes → Kernel → Option (ℕ × Kernel)
unfolding argint
sys_kill c m k = do
  p ← k.cpu c
  elim (argint 0 (k.proc p) m) [
    | none ↦ some (minus_one, k)
    | some pid ↦ (do (found, k₁) ← kill pid k; some (status found, k₁))
  ]

unfoldable pub sys_getpid : ℕ → Kernel → Option (ℕ × Kernel)
sys_getpid c k = do p ← k.cpu c; some ((k.proc p).pid, k)

-- `growproc(n)` of the process `p`: the arguments before `n` are what `allocuvm` and `deallocuvm`
-- return for the old and the new size.
unfoldable pub growproc : (ℕ → ℕ → ℕ) → (ℕ → ℕ → ℕ) → ℕ → ℕ → Kernel → Bool × Kernel
growproc allocuvm deallocuvm n p k =
    let old = (k.proc p).sz in
    let sz =
      if is_positive n
      then allocuvm old (add32 old n)
      else if is_negative n
      then deallocuvm old (add32 old n)
      else old in
    if (is_positive n || is_negative n) && sz == 0
    then (false, k)
    else (true, modify k p (λ r. record r { sz = sz }))

unfoldable pub sys_sbrk : (ℕ → ℕ → ℕ) → (ℕ → ℕ → ℕ) → ℕ → Bytes → Kernel → Option (ℕ × Kernel)
unfolding argint growproc
sys_sbrk allocuvm deallocuvm c m k = do
  p ← k.cpu c
  elim (argint 0 (k.proc p) m) [
    | none ↦ some (minus_one, k)
    | some n ↦
        let (grown, k₁) = growproc allocuvm deallocuvm n p k in
        some (if grown then (k.proc p).sz else minus_one, k₁)
  ]

-- `sys_yield` up to the switch.
unfoldable pub sys_yield : ℕ → Kernel → Option Kernel
sys_yield c k = yield c k

unfoldable pub sys_get_level : ℕ → Kernel → Option (ℕ × Kernel)
sys_get_level c k = do p ← k.cpu c; some ((k.proc p).queuelevel, k)

unfoldable pub sys_set_priority : ℕ → Bytes → Kernel → Option (ℕ × Kernel)
unfolding argint
sys_set_priority c m k = do
  p ← k.cpu c
  elim (argint 0 (k.proc p) m) [
    | none ↦ some (minus_one, k)
    | some pid ↦ elim (argint 1 (k.proc p) m) [
      | none ↦ some (minus_one, k)
      | some v ↦ (do k₁ ← arrange_queue pid (to_ℤ v) k; some (0, k₁))
    ]
  ]

-- `sys_schedulerLock` and `sys_schedulerUnlock`; `none` in the result where the process
-- has left by `exit`.
unfoldable pub sys_scheduler_lock : ℕ → Bytes → Kernel → Option (Option ℕ × Kernel)
unfolding argint
sys_scheduler_lock c m k = do
  p ← k.cpu c
  elim (argint 0 (k.proc p) m) [
    | none ↦ some (some minus_one, k)
    | some pw ↦ (do
      (right, k₁) ← scheduler_lock (to_ℤ pw) c k
      some (if right then some 0 else none, k₁))
  ]

unfoldable pub sys_scheduler_unlock : ℕ → Bytes → Kernel → Option (Option ℕ × Kernel)
unfolding argint
sys_scheduler_unlock c m k = do
  p ← k.cpu c
  elim (argint 0 (k.proc p) m) [
    | none ↦ some (some minus_one, k)
    | some pw ↦ (do
      (right, k₁) ← scheduler_unlock (to_ℤ pw) c k
      some (if right then some 0 else none, k₁))
  ]
