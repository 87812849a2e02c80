-- ===== src/Mlfq/Inv/Killing.antt =====
-- `kill` marks the first process of the number, and wakes it where it sleeps.
use hyu_os.Prelude.{
  ℕ, zero, suc, ◌+◌, ◌≤◌, ◌<◌, ◌≡◌, refl, sym, ap, ◌≢◌, inl, inr, Bool, true, false, Option, none,
  some, ◌>>=◌, arith, eq-cases, ◌==◌,
}
use hyu_os.Mlfq.State.{Ptr, nproc}
use hyu_os.Mlfq.Kernel.{Kernel, acquire, release}
use hyu_os.Mlfq.Sleep.{find_pid, kill_proc, kill}
use hyu_os.Mlfq.Inv.Threaded.{Home, View}
use hyu_os.Mlfq.Inv.Live.{Inv, Inv-same}
use hyu_os.Mlfq.Inv.Wake.{release_lem}
use hyu_os.Mlfq.Inv.Doom.{Doomed, kill_proc_lem}

-- The search has found `p`, the first slot from `i` on whose process has the number.
pub record FirstPid (k : Kernel) (pid i p : ℕ) : Type 0 where
  pub above : i ≤ p
  pub below : p < nproc
  pub number : (k.proc p).pid ≡ pid
  pub first_one : (j : ℕ) → i ≤ j → j < p → (k.proc j).pid ≢ pid

-- The search of `kill` finds the first slot that has the number, and null only if there is none.
abbrev pub Found : Kernel → ℕ → ℕ → Ptr → Type 0
Found k pid i none = (j : ℕ) → i ≤ j → j < nproc → (k.proc j).pid ≢ pid
Found k pid i (some p) = FirstPid k pid i p

find_further :
    (k : Kernel) (pid i : ℕ) (r : Ptr)
    → (k.proc i).pid ≢ pid
    → Found k pid (i + 1) r
    → Found k pid i r
find_further k pid i none n f =
    λ j a b. elim (eq-cases i j) [ inl e ↦ rw (← e) n | inr m ↦ f j (omega arith) b ]
find_further k pid i (some p) n f = record {
  above = omega (arith, f.above);
  below = f.below;
  number = f.number;
  first_one =
      λ j a b. elim (eq-cases i j) [ inl e ↦ rw (← e) n | inr m ↦ f.first_one j (omega arith) b ];
}

pub find_pid_lem :
    (f i : ℕ) (k : Kernel) (pid : ℕ) → i + f ≡ nproc → Found k pid i (find_pid f i k pid)
unfolding find_pid
find_pid_lem zero i k pid e = λ j a b. absurd (omega arith)
find_pid_lem (suc f) i k pid e = elim (eq-cases (k.proc i).pid pid) [
  | inl h ↦
      let t : ((k.proc i).pid == pid) ≡ true = ground arith in
      rw t (record {
        above = omega arith;
        below = omega arith;
        number = h;
        first_one = λ j a b. absurd (omega arith);
      })
  | inr n ↦
      let t : ((k.proc i).pid == pid) ≡ false = ground arith in
      rw t (find_further k pid i _ n (find_pid_lem f (i + 1) k pid (omega arith)))
]

-- What `kill` returns: 0 with the first process of the number doomed, or -1 where no slot has it
-- and nothing changed.
abbrev pub KillsTo : Kernel → ℕ → Bool → Kernel → Type 0
KillsTo k pid true k' = (p : ℕ) × FirstPid k pid 0 p × Doomed k k' p
KillsTo k pid false k' = ((j : ℕ) → j < nproc → (k.proc j).pid ≢ pid) × (k' ≡ k)

abbrev finish : Kernel → ℕ → Ptr → Option (Bool × Kernel)
finish k₁ pid r = elim r [
  | none ↦ (do k₂ ← release k₁; some (false, k₂))
  | some p ↦ (do k₂ ← kill_proc k₁ p; k₃ ← release k₂; some (true, k₃))
]

module _ (pid : ℕ) (k : Kernel) (home : Home) (view : View) (inv : Inv k home view)
    (free : k.locked ≡ false) where
  abbrev held : Kernel
  held = record k { locked = true }

  kill-eq : kill pid k ≡ finish held pid (find_pid nproc 0 held pid)
  unfolding kill acquire
  kill-eq = rw free refl

  held-Inv : Inv held home view
  held-Inv = Inv-same k held home view refl refl refl inv.ticks inv

  abbrev pub Kills : Option (Bool × Kernel) → Type 0
  Kills r =
      (b : Bool) × (k' : Kernel) × (home' : Home) × (view' : View) × (r ≡ some (b, k'))
      × Inv k' home' view'
      × KillsTo k pid b k'

  freed : record held { locked = false } ≡ k
  freed = ap (λ b. record k { locked = b }) (sym free)

  finish_lem : (r : Ptr) → Found held pid 0 r → Kills (finish held pid r)
  finish_lem none f = (
    false,
    record held { locked = false },
    home,
    view,
    rw (release_lem held refl) refl,
    Inv-same k _ home view refl refl refl inv.ticks inv,
    ((λ j. f j (omega arith)), freed),
  )
  finish_lem (some p) f =
      let (k₂, home', view', e, inv', d) = kill_proc_lem held home view held-Inv p in
      (
        true,
        record k₂ { locked = false },
        home',
        view',
        rw (e, release_lem k₂ d.locked) refl,
        Inv-same k₂ _ home' view' refl refl refl inv'.ticks inv',
        (
          p,
          record { above = f.above; below = f.below; number = f.number; first_one = f.first_one },
          record {
            marked = d.marked;
            others = d.others;
            cpu = d.cpu;
            global_ticks = d.global_ticks;
            locked = sym free;
          },
        ),
      )

  -- On a well-formed kernel with `ptable.lock` free, `kill` never faults and leaves a
  -- well-formed kernel. It returns 0 where some slot has the process number: the first such
  -- process is marked as killed and made runnable if it slept, and no field but links changes in
  -- another process. It returns -1 where no slot has the number, and changes nothing.
  pub kill_lem : Kills (kill pid k)
  kill_lem = rw kill-eq (finish_lem _ (find_pid_lem nproc 0 held pid refl))
