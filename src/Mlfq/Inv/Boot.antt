-- ===== src/Mlfq/Inv/Boot.antt =====
-- `pinit` establishes the invariant.
use hyu_os.Prelude.{
  ℕ, zero, suc, ◌+◌, ◌≤◌, ◌<◌, ◌≡◌, refl, ◌∙◌, inl, inr, true, false, none, some, [], if◌then◌else◌,
  arith, eq-cases, lt-cases, leb, ltb, update, update_self, update_ne, subst,
}
use hyu_os.Mlfq.State.{ProcState, nproc, unused_queue}
use hyu_os.Mlfq.Kernel.{Kernel, enqueue}
use hyu_os.Mlfq.Boot.{pinit_loop, pinit}
use hyu_os.Mlfq.Queue.{initqueue}
use hyu_os.Mlfq.Queue.Merge.{initqueue-IsQueue}
use hyu_os.Mlfq.Inv.Threaded.{Home, View, SameGlobals, SameGlobals-trans, none≢some}
use hyu_os.Mlfq.Inv.Level.{Queued, state_fits, same_state, enqueue-Entered}
use hyu_os.Mlfq.Inv.Yield.{EndsIn}

-- The table at the start: slots inside it are unused, and those outside it hold no process.
pub record IsZeroed (k : Kernel) : Type 0 where
  pub inside : (p : ℕ) → p < nproc → (k.proc p).state ≡ ProcState.unused
  pub outside : (p : ℕ) → nproc ≤ p → state_fits none (k.proc p).state ≡ true
  pub levels : (p : ℕ) → leb (k.proc p).queuelevel 2 ≡ true
  pub idle : (c : ℕ) → k.cpu c ≡ none
  pub ticks : k.global_ticks < 100

-- The slots below `p` are on the queue.
abbrev filled : ℕ → Home
filled p j = if ltb j p then some unused_queue else none

-- The loop has put the slots below `p` on the queue.
record Filling (k k' : Kernel) (p : ℕ) : Type 0 where
  home : Home
  view : View
  queued : Queued k' home view
  homes : (j : ℕ) → home j ≡ filled p j
  same : SameGlobals k k'

-- One more slot.
fill_next :
    (k₀ k : Kernel) (p : ℕ)
    → Filling k₀ k p
    → p < nproc
    → (k' : Kernel) × (enqueue k unused_queue p none ≡ some k') × Filling k₀ k' (p + 1)
fill_next k₀ k p f lt =
    let away : f.home p ≡ none = f.homes p ∙ ground arith in
    let fits = f.queued.levels p in
    let small : leb (k.proc p).queuelevel 2 ≡ true = rw away at fits in
    let (k', e, r) =
      enqueue-Entered k f.home f.view f.queued p away lt unused_queue none (omega arith) tt
        (ground arith) in
    (
      k',
      e,
      record {
        home = update f.home p (some unused_queue);
        view = _;
        queued = r.queued;
        homes = λ j. elim (eq-cases p j) [
          | inl h ↦ rw (← h, update_self f.home p (some unused_queue)) (ground arith)
          | inr n ↦ rw (update_ne f.home (some unused_queue) n, f.homes j) (ground arith)
        ];
        same = SameGlobals-trans f.same r.same;
      },
    )

fill_all :
    (r p : ℕ) (k₀ k : Kernel)
    → Filling k₀ k p
    → p + r ≡ nproc
    → (k' : Kernel) × (pinit_loop r p k ≡ some k') × Filling k₀ k' nproc
unfolding pinit_loop
fill_all zero p k₀ k f h =
    let full : p ≡ nproc = omega arith in (k, refl, subst (Filling k₀ k) full f)
fill_all (suc r) p k₀ k f h =
    let (k₁, e, g) = fill_next k₀ k p f (omega arith) in
    let (k', e', g') = fill_all r (p + 1) k₀ k₁ g (omega arith) in (k', rw e e', g')

-- `pinit` of a zeroed kernel never faults and leaves a well-formed kernel.
pub pinit-Inv : (k : Kernel) → IsZeroed k → EndsIn (pinit k)
unfolding pinit
pinit-Inv k z =
    let k₀ = record k { lockproc = none; unlockproc = none; queue = λ i. initqueue } in
    let start : Filling k₀ k₀ 0 = record {
      home = λ p. none;
      view = λ i. [];
      queued = record {
        threaded = record {
          queues = λ i. initqueue-IsQueue k.proc;
          home_of_In = λ i p m. absurd m;
          In_of_home = λ i p e. absurd (none≢some e);
          in_table = λ i p e. absurd (none≢some e);
        };
        levels = z.levels;
        sorted = tt;
      };
      homes = λ j. ground arith;
      same = record {
        contents = λ j. refl;
        lockproc = refl;
        unlockproc = refl;
        global_ticks = refl;
        nextpid = refl;
        initproc = refl;
        cpu = refl;
        locked = refl;
      };
    } in
    let (k', e, f) = fill_all nproc 0 k₀ k₀ start refl in
    (
      k',
      f.home,
      f.view,
      e,
      record {
        live = record {
          queued = f.queued;
          states = λ p.
              rw (f.homes p, same_state f.same p)
                (elim (lt-cases p nproc) [
                  | inl h ↦
                      let i = z.inside p h in
                      let t : ltb p nproc ≡ true = ground arith in rw (i, t) refl
                  | inr h ↦ let t : ltb p nproc ≡ false = ground arith in rw t (z.outside p h)
                ]);
        };
        on_cpu = λ c p. rw (f.same.cpu, z.idle c) (λ e. absurd (none≢some e));
        slots = λ c p. rw (f.same.cpu, z.idle c) (λ e. absurd (none≢some e));
        one_cpu = λ c d p. rw (f.same.cpu, z.idle c) (λ e. absurd (none≢some e));
        ticks = rw f.same.global_ticks z.ticks;
      },
    )
