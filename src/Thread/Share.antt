-- ===== src/Thread/Share.antt =====
-- Project2/proc.c: the share table, memory limits and `allocproc`.
use hyu_os.Prelude.{
  ℕ, ◌+◌, Bool, true, false, Option, none, some, ltb, ◌==◌, ◌&&◌, ◌||◌, not, if◌then◌else◌, ◌>>=◌,
}
use hyu_os.Prelude.Words.{add32, is_negative, is_positive}
use hyu_os.Mlfq.State.{embryo, unused, Ptr, nproc}
use hyu_os.Mlfq.Lock.{is_unused}
use hyu_os.Thread.State.{
  ShareState, empty, Share, Machine, acquire, release, modify, modify_share, modify_share_of,
  share_of,
}
use hyu_os.Thread.Slots.{find_slot}

-- `setmemorylimit(pid, limit)`: the comparison with `sz` is one of unsigned numbers. `true` is 0,
-- `false` is -1.
unfoldable pub setmemorylimit : ℕ → ℕ → Machine → Bool × Machine
setmemorylimit pid limit m = elim (find_slot nproc 0 (λ p. (m.proc p).pid == pid)) [
  | none ↦ (false, m)
  | some p ↦
      if ltb limit (share_of m p).sz
      then (false, m)
      else (true, modify_share_of m p (λ r. record r { memory_limit = limit }))
]

-- `initialize_share`
abbrev pub initialize_share : Share → Share
initialize_share r = record r {
  sz = 0;
  parent = none;
  memory_limit = 0;
  th_family_hd = none;
  th_last = none;
  stacksize = 1;
}

abbrev pub is_empty : ShareState → Bool
is_empty ShareState.empty = true
is_empty ShareState.using = false

-- `alloc_th_share`: it does not mark the entry as used.
unfoldable pub alloc_th_share : Machine → Ptr × Machine
alloc_th_share m = elim (find_slot nproc 0 (λ i. is_empty (m.share i).state)) [
  | none ↦ (none, m)
  | some i ↦ (some i, modify_share m i initialize_share)
]

-- `dealloc_th_share`
abbrev pub dealloc_th_share : Share → Share
dealloc_th_share r = record r {
  sz = 0;
  parent = none;
  memory_limit = 0;
  th_family_hd = none;
  th_last = none;
  stacksize = 0;
  state = empty;
}

-- `initialize_proc`
unfoldable pub initialize_proc : Machine → ℕ → Machine
initialize_proc m p =
    let m₁ = modify m p (λ r. record r {
      state = embryo;
      pid = m.nextpid;
      tid = m.nexttid;
      th_next = none;
      th_main = some p;
    }) in
    record m₁ { nextpid = m.nextpid + 1; nexttid = m.nexttid + 1 }

-- `allocproc` under `ptable.lock`.
unfoldable pub take_slot : Machine → Option (Ptr × Machine)
unfolding initialize_proc
take_slot m = do
  m₁ ← acquire m
  elim (find_slot nproc 0 (λ p. is_unused (m₁.proc p).state)) [
    | none ↦ (do m₂ ← release m₁; some (none, m₂))
    | some p ↦ (do m₂ ← release (initialize_proc m₁ p); some (some p, m₂))
  ]

-- The kernel stack that `kalloc` returned, or the way back of the slot.
unfoldable pub fit_out : Option ℕ → Ptr × Machine → Ptr × Machine
fit_out stack (none, m) = (none, m)
fit_out none (some p, m) = (none, modify m p (λ r. record r { kstack = none; state = unused }))
fit_out (some a) (some p, m) = (some p, modify m p (λ r. record r { kstack = some a }))

-- `allocproc`; the first argument is what `kalloc` returns. The trap frame and the context that it
-- lays out on the new stack are the concern of the assembly.
unfoldable pub allocproc : Option ℕ → Machine → Option (Ptr × Machine)
unfolding take_slot fit_out
allocproc stack m = do r ← take_slot m; some (fit_out stack r)

-- `growproc(n)` of the process `p`: the arguments before `n` are what `allocuvm` and `deallocuvm`
-- return for the old and the new size. `n` is the bit pattern of an `int`.
unfoldable pub growproc : (ℕ → ℕ → ℕ) → (ℕ → ℕ → ℕ) → ℕ → ℕ → Machine → Bool × Machine
growproc allocuvm deallocuvm n p m =
    let limit = (share_of m p).memory_limit in
    let old = (share_of m p).sz in
    let sz =
      if is_positive n
      then allocuvm old (add32 old n)
      else if is_negative n
      then deallocuvm old (add32 old n)
      else old in
    if not (limit == 0) && ltb limit (add32 old n)
    then (false, m)
    else if (is_positive n && sz == 0) || (is_negative n && sz == 0)
    then (false, m)
    else (true, modify_share_of m p (λ r. record r { sz = sz }))
