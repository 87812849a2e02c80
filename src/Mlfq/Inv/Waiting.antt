-- ===== src/Mlfq/Inv/Waiting.antt =====
-- `wait` keeps the invariant, and frees the zombie child that it finds.
use hyu_os.Prelude.{
  ℕ, ◌<◌, ◌≡◌, refl, sym, ◌∙◌, ap, ◌≢◌, inl, inr, true, Option, none, some, arith, eq-cases, update,
  update_self, update_ne, leb, In,
}
use hyu_os.Mlfq.State.{ProcState, running, zombie, unused, Proc, nproc, unused_queue}
use hyu_os.Mlfq.Kernel.{Kernel, modify}
use hyu_os.Mlfq.Queue.Chain.{unlinked}
use hyu_os.Mlfq.Life.{is_zombie, buried, setproc_default, reap}
use hyu_os.Mlfq.Inv.Threaded.{Home, View, IsQueue-same, none≢some}
use hyu_os.Mlfq.Inv.Sorted.{Ascending-same, priority_of}
use hyu_os.Mlfq.Inv.Level.{Queued, state_fits, same_state, enqueue-Entered}
use hyu_os.Mlfq.Inv.Live.{Inv}

-- A process that is on no queue may change in every field, as long as its level is in range.
pub stray-Queued :
    (k : Kernel) (home : Home) (view : View) (p : ℕ) (f : Proc → Proc)
    → home p ≡ none
    → leb (f (k.proc p)).queuelevel 2 ≡ true
    → Queued k home view
    → Queued (modify k p f) home view
stray-Queued k home view p f away low q = record {
  threaded = record {
    queues = λ i.
        IsQueue-same k.proc (modify k p f).proc (k.queue i) (view i)
          (λ j m. (ap (λ (r : Proc). r.prev) (kept i j m), ap (λ (r : Proc). r.next) (kept i j m)))
          (q.threaded.queues i);
    home_of_In = q.threaded.home_of_In;
    In_of_home = q.threaded.In_of_home;
    in_table = q.threaded.in_table;
  };
  levels = λ j. elim (eq-cases p j) [
    | inl e ↦ rw (← e, update_self k.proc p (f (k.proc p)), away) low
    | inr n ↦ rw (update_ne k.proc (f (k.proc p)) n) (q.levels j)
  ];
  sorted =
      Ascending-same (priority_of k.proc) (priority_of (modify k p f).proc) (view 2)
        (λ j m. ap (λ (r : Proc). r.priority) (kept 2 j m)) q.sorted;
}
  where
    kept : (i j : ℕ) → In j (view i) → (modify k p f).proc j ≡ k.proc j
    kept i j m = elim (eq-cases p j) [
      | inl e ↦ absurd (none≢some (sym away ∙ ap home e ∙ q.threaded.home_of_In i j m))
      | inr n ↦ update_ne k.proc (f (k.proc p)) n
    ]

zombie-eq : (st : ProcState) → is_zombie st ≡ true → st ≡ zombie
zombie-eq ProcState.zombie e = refl
zombie-eq ProcState.unused e = cc
zombie-eq ProcState.embryo e = cc
zombie-eq ProcState.runnable e = cc
zombie-eq ProcState.running e = cc
zombie-eq ProcState.sleeping e = cc

home_zombie : (h : Option ℕ) → state_fits h zombie ≡ true → h ≡ none
home_zombie none e = refl
home_zombie (some i) e = cc

running≢zombie : running ≢ zombie
running≢zombie e = absurd (let g = ap is_zombie e in cc)

-- Only the slot `q` has changed, but for links: its process is gone.
pub record Reaped (k k' : Kernel) (q : ℕ) : Type 0 where
  pub gone : unlinked (k'.proc q) ≡ unlinked (buried (k.proc q))
  pub others : (j : ℕ) → q ≢ j → unlinked (k'.proc j) ≡ unlinked (k.proc j)

module _ (k : Kernel) (home : Home) (view : View) (inv : Inv k home view) (q : ℕ) (lt : q < nproc)
    (z : is_zombie (k.proc q).state ≡ true) where
  abbrev emptied : Kernel
  emptied = modify k q buried

  was_zombie : (k.proc q).state ≡ zombie
  was_zombie = zombie-eq (k.proc q).state z

  off_queues : home q ≡ none
  off_queues = let fit = inv.live.states q in home_zombie (home q) (rw was_zombie at fit)

  emptied_self : emptied.proc q ≡ buried (k.proc q)
  emptied_self = update_self k.proc q (buried (k.proc q))

  emptied_other : (j : ℕ) → q ≢ j → emptied.proc j ≡ k.proc j
  emptied_other j n = update_ne k.proc (buried (k.proc q)) n

  emptied-Queued : Queued emptied home view
  unfolding buried setproc_default
  emptied-Queued = stray-Queued k home view q buried off_queues refl inv.live.queued

  emptied_unused : (emptied.proc q).state ≡ unused
  unfolding buried setproc_default
  emptied_unused = ap (λ (r : Proc). r.state) emptied_self

  emptied_level : (emptied.proc q).queuelevel ≡ 0
  unfolding buried setproc_default
  emptied_level = ap (λ (r : Proc). r.queuelevel) emptied_self

  pub reap_lem :
      (k' : Kernel) × (home' : Home) × (view' : View) × (reap k q ≡ some k')
      × Inv k' home' view'
      × Reaped k k' q
      × (home' q ≡ some unused_queue)
      × (k'.locked ≡ k.locked)
  unfolding reap
  reap_lem =
      let (k', e, r) =
        enqueue-Entered emptied home view emptied-Queued q off_queues lt unused_queue none
          (omega arith) tt (rw emptied_level refl) in
      (
        k',
        update home q (some unused_queue),
        _,
        e,
        record {
          live = record {
            queued = r.queued;
            states = λ j. rw (same_state r.same j) (elim (eq-cases q j) [
              | inl h ↦ rw (← h, update_self home q (some unused_queue), emptied_unused) refl
              | inr n ↦
                  rw (update_ne home (some unused_queue) n, emptied_other j n) (inv.live.states j)
            ]);
          };
          on_cpu = λ c x. rw r.same.cpu (λ g.
              let run = inv.on_cpu c x g in
              same_state r.same x
              ∙ ap (λ (w : Proc). w.state)
                  (emptied_other x (λ h.
                    running≢zombie (sym run ∙ ap (λ y. (k.proc y).state) (sym h) ∙ was_zombie)))
              ∙ run);
          slots = rw r.same.cpu inv.slots;
          one_cpu = rw r.same.cpu inv.one_cpu;
          ticks = rw r.same.global_ticks inv.ticks;
        },
        record {
          gone = r.same.contents q ∙ ap unlinked emptied_self;
          others = λ j n. r.same.contents j ∙ ap unlinked (emptied_other j n);
        },
        update_self home q (some unused_queue),
        r.same.locked,
      )
