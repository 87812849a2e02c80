-- ===== src/Mlfq/Birth.antt =====
-- Project1/proc.c: `allocproc` and `fork`.
use hyu_os.Prelude.{
  ℕ, zero, suc, ◌+◌, Option, none, some, List, [], ◌∷◌, ◌==◌, if◌then◌else◌, ◌>>=◌,
}
use hyu_os.Mlfq.State.{embryo, unused, runnable, Proc, Ptr, unused_queue}
use hyu_os.Mlfq.Kernel.{Kernel, acquire, release, modify, enqueue, take_first}
use hyu_os.Mlfq.Life.{setproc_default, clear_name}

-- The fields that `allocproc` sets in the slot that it takes.
unfoldable pub conceived : ℕ → Proc → Proc
unfolding setproc_default
conceived id r = setproc_default (record r { state = embryo; pid = id })

-- `allocproc` under `ptable.lock`: the first unused slot, null where there is none.
unfoldable pub hand_out : Ptr × Kernel → Option (Ptr × Kernel)
unfolding conceived
hand_out (none, k) = do k₁ ← release k; some (none, k₁)
hand_out (some p, k) = do
  k₁ ← release (record (modify k p (conceived k.nextpid)) { nextpid = k.nextpid + 1 })
  some (some p, k₁)

unfoldable pub take_slot : Kernel → Option (Ptr × Kernel)
unfolding hand_out
take_slot k = do k₁ ← acquire k; hand_out (take_first k₁ unused_queue)

-- The way back of a slot, without a kernel stack, to the queue of unused ones.
abbrev pub barren : Proc → Proc
barren r = record r { kstack = none; state = unused }

unfoldable pub give_back : Kernel → ℕ → Option Kernel
give_back k p = enqueue (modify k p barren) unused_queue p none

-- `allocproc`; the first argument is what `kalloc` returns. The trap frame and the context that it
-- lays out on the new stack are the concern of the assembly.
unfoldable pub fit_out : Option ℕ → Ptr × Kernel → Option (Ptr × Kernel)
unfolding give_back
fit_out stack (none, k) = some (none, k)
fit_out none (some p, k) = do k₁ ← give_back k p; some (none, k₁)
fit_out (some a) (some p, k) = some (some p, modify k p (λ r. record r { kstack = some a }))

unfoldable pub allocproc : Option ℕ → Kernel → Option (Ptr × Kernel)
unfolding take_slot fit_out
allocproc stack k = take_slot k >>= fit_out stack

-- `safestrcpy(s, t, n + 1)`: at most `n` characters and a terminator.
unfoldable pub safestrcpy : ℕ → List ℕ → List ℕ → List ℕ
safestrcpy zero s t = clear_name s
safestrcpy (suc n) [] t = []
safestrcpy (suc n) (a ∷ s) [] = a ∷ s
safestrcpy (suc n) (a ∷ s) (b ∷ t) =
    let rest = safestrcpy n s t in b ∷ (if b == 0 then clear_name s else rest)

-- `if(curproc->ofile[i]) np->ofile[i] = filedup(curproc->ofile[i])` for every `i`: the files of the
-- parent over those of the slot. Both arrays have `NOFILE` entries.
unfoldable pub copy_files : List (Option ℕ) → List (Option ℕ) → List (Option ℕ)
copy_files [] old = old
copy_files (f ∷ fs) [] = []
copy_files (none ∷ fs) (o ∷ old) = o ∷ copy_files fs old
copy_files (some a ∷ fs) (o ∷ old) = some a ∷ copy_files fs old

-- What a child gets of its parent `p`, whose record is `par`, with the page table `d`.
abbrev pub copied : ℕ → Proc → ℕ → Proc → Proc
copied p par d r = record r {
  pgdir = some d;
  sz = par.sz;
  parent = some p;
  tf = record par.tf { eax = 0 };
  ofile = copy_files par.ofile r.ofile;
  cwd = par.cwd;
  name = safestrcpy 15 r.name par.name;
}

abbrev pub born : Proc → Proc
born r = record r { state = runnable }

-- The part of `fork` between its two critical sections, with the page table `d` from `copyuvm`.
unfoldable pub inherit : ℕ → ℕ → ℕ → Kernel → Kernel
inherit d p q k = modify k q (copied p (k.proc p) d)

-- The end of `fork`: the child is put on the first queue.
unfoldable pub publish : Kernel → ℕ → Option Kernel
publish k q = do k₁ ← acquire k; k₂ ← enqueue (modify k₁ q born) 0 q none; release k₂

-- `fork` of the process `p` with the slot that `allocproc` returned: the number of the child, or
-- `none` for -1. The first argument is what `copyuvm` returns.
unfoldable pub raise_child : Option ℕ → ℕ → Ptr × Kernel → Option (Option ℕ × Kernel)
unfolding publish inherit
raise_child pages p (none, k) = some (none, k)
raise_child none p (some q, k) = do
  k₁ ← give_back (modify k q (λ r. record r { pgdir = none })) q
  some (none, k₁)
raise_child (some d) p (some q, k) = do
  k₁ ← publish (inherit d p q k) q
  some (some (k.proc q).pid, k₁)

-- `fork` on CPU `c`, with what `kalloc` and `copyuvm` return.
unfoldable pub fork : Option ℕ → Option ℕ → ℕ → Kernel → Option (Option ℕ × Kernel)
unfolding allocproc raise_child
fork stack pages c k = do p ← k.cpu c; r ← allocproc stack k; raise_child pages p r
