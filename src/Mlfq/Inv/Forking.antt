-- ===== src/Mlfq/Inv/Forking.antt =====
-- `allocproc` and `fork` keep the invariant.
use hyu_os.Prelude.{
  ℕ, ◌+◌, ◌<◌, ◌≡◌, refl, sym, ◌∙◌, ap, ◌≢◌, inl, inr, true, false, none, some, ◌>>=◌, arith,
  update, update_self, update_ne, eq-cases, leb, erase, [], ◌∷◌, ◌++◌,
}
use hyu_os.Mlfq.State.{ProcState, embryo, running, unused, Proc, nproc, unused_queue}
use hyu_os.Mlfq.Kernel.{Kernel, acquire, release, modify, enqueue}
use hyu_os.Mlfq.Life.{setproc_default}
use hyu_os.Mlfq.Birth.{conceived, barren, give_back, born, publish}
use hyu_os.Mlfq.Inv.Threaded.{Home, View, SameGlobals, Unqueued}
use hyu_os.Mlfq.Inv.Level.{Queued, Queued-Unqueued, state_fits, level_fits, same_state}
use hyu_os.Mlfq.Inv.Live.{Inv, Inv-same}
use hyu_os.Mlfq.Inv.Pick.{level_small}
use hyu_os.Mlfq.Inv.Wake.{release_lem}
use hyu_os.Mlfq.Queue.Chain.{IsQueue, unlinked}
use hyu_os.Mlfq.Inv.Waiting.{stray-Queued}
use hyu_os.Mlfq.Inv.Placing.{place_lem}

-- A slot that is off the queues, in range, and run by nobody.
pub record Embryo (k : Kernel) (home : Home) (q : ℕ) : Type 0 where
  pub below : q < nproc
  pub away : home q ≡ none
  pub idle : (k.proc q).state ≡ embryo

embryo≢running : embryo ≢ running
embryo≢running e = cc

idle_embryo : (k : Kernel) (q : ℕ) → (k.proc q).state ≡ embryo → (k.proc q).state ≢ running
idle_embryo k q e g = embryo≢running (sym e ∙ g)

module _ (k : Kernel) (home : Home) (view : View) (inv : Inv k home view) (q : ℕ)
    (b : Embryo k home q) where
  embryo-level : leb (k.proc q).queuelevel 2 ≡ true
  embryo-level = level_small (home q) _ (inv.live.queued.levels q)

  unused_fits : (l : ℕ) → leb l 2 ≡ true → level_fits (some 4) l ≡ true
  unused_fits l e = ground arith

  first_fits : (l : ℕ) → leb l 2 ≡ true → level_fits (some 0) l ≡ true
  first_fits l e = ground arith

  -- An embryo goes back to the unused slots, and the lock is not touched.
  pub give_back-Inv :
      (k' : Kernel) × (home' : Home) × (view' : View) × (give_back k q ≡ some k')
      × Inv k' home' view'
      × SameGlobals (modify k q barren) k'
  unfolding give_back
  give_back-Inv =
      let (k', home', view', e, inv', same, is) =
        place_lem k home view inv q b.below b.away (idle_embryo k q b.idle) barren unused_queue
          (omega arith) embryo-level (unused_fits _ embryo-level) refl in
      (k', home', view', e, inv', same)

  publish-eq :
      k.locked ≡ false
      → publish k q
        ≡ (enqueue (modify (record k { locked = true }) q born) 0 q none >>= λ k₂. release k₂)
  unfolding publish acquire
  publish-eq free = rw free refl

  -- An embryo becomes runnable at the end of the first queue.
  pub publish-Inv :
      k.locked ≡ false
      → (k' : Kernel) × (home' : Home) × (view' : View) × (publish k q ≡ some k')
        × Inv k' home' view'
        × ((j : ℕ) → unlinked (k'.proc j) ≡ unlinked ((modify k q born).proc j))
        × (k'.nextpid ≡ k.nextpid)
        × IsQueue k'.proc (k'.queue 0) (view 0 ++ (q ∷ []))
  publish-Inv free =
      let k₁ = record k { locked = true } in
      let inv₁ = Inv-same k k₁ home view refl refl refl inv.ticks inv in
      let (k', home', view', e, inv', same, is) =
        place_lem k₁ home view inv₁ q b.below b.away (idle_embryo k q b.idle) born 0 (omega arith)
          embryo-level (first_fits _ embryo-level) refl in
      (
        record k' { locked = false },
        home',
        view',
        publish-eq free ∙ rw e (release_lem k' same.locked),
        Inv-same k' _ home' view' refl refl refl inv'.ticks inv',
        same.contents,
        same.nextpid,
        record {
          head = is.head;
          tail = is.tail;
          count = is.count;
          chain = is.chain;
          distinct = is.distinct;
        },
      )

unused_of_fits : (st : ProcState) → state_fits (some unused_queue) st ≡ true → st ≡ unused
unused_of_fits ProcState.unused e = refl
unused_of_fits ProcState.embryo e = cc
unused_of_fits ProcState.sleeping e = cc
unused_of_fits ProcState.runnable e = cc
unused_of_fits ProcState.running e = cc
unused_of_fits ProcState.zombie e = cc

unused≢running : unused ≢ running
unused≢running e = cc

-- The first unused slot has come off its queue and becomes an embryo.
module _ (k : Kernel) (home : Home) (view : View) (inv : Inv k home view) (p : ℕ)
    (on : home p ≡ some unused_queue) (k₂ : Kernel)
    (u : Unqueued k k₂ home view unused_queue p) where
  abbrev pub begun : Kernel
  begun = record (modify k₂ p (conceived k₂.nextpid)) { nextpid = k₂.nextpid + 1 }

  abbrev home₁ : Home
  home₁ = update home p none

  abbrev view₁ : View
  view₁ = update view unused_queue (erase p (view unused_queue))

  pub was_unused : (k.proc p).state ≡ unused
  was_unused = let fit = inv.live.states p in unused_of_fits (k.proc p).state (rw on at fit)

  begun_self : begun.proc p ≡ conceived k₂.nextpid (k₂.proc p)
  begun_self = update_self k₂.proc p (conceived k₂.nextpid (k₂.proc p))

  begun_other : (j : ℕ) → p ≢ j → begun.proc j ≡ k₂.proc j
  begun_other j n = update_ne k₂.proc (conceived k₂.nextpid (k₂.proc p)) n

  begun-state : (begun.proc p).state ≡ embryo
  unfolding conceived setproc_default
  begun-state = ap (λ (r : Proc). r.state) begun_self

  pub begun-pid : (begun.proc p).pid ≡ k₂.nextpid
  unfolding conceived setproc_default
  begun-pid = ap (λ (r : Proc). r.pid) begun_self

  -- What the slot has become, and what the others still are.
  pub begun-child : unlinked (begun.proc p) ≡ unlinked (conceived k.nextpid (k.proc p))
  unfolding conceived setproc_default
  begun-child = ap unlinked begun_self ∙ (λ i. conceived (u.same.nextpid i) (u.same.contents p i))

  pub begun-others : (j : ℕ) → p ≢ j → unlinked (begun.proc j) ≡ unlinked (k.proc j)
  begun-others j n = ap unlinked (begun_other j n) ∙ u.same.contents j

  begun-Queued : Queued begun home₁ view₁
  unfolding conceived setproc_default
  begun-Queued =
      let q =
        stray-Queued k₂ home₁ view₁ p (conceived k₂.nextpid) (update_self home p none) refl
          (Queued-Unqueued k home view inv.live.queued p unused_queue k₂ u on) in
      record { threaded = q.threaded; levels = q.levels; sorted = q.sorted }

  pub begun-Inv : Inv begun home₁ view₁
  begun-Inv = record {
    live = record {
      queued = begun-Queued;
      states = λ j. elim (eq-cases p j) [
        | inl h ↦ rw (← h, update_self home p none, begun-state) refl
        | inr n ↦
            rw (update_ne home none n, begun_other j n, same_state u.same j) (inv.live.states j)
      ];
    };
    on_cpu = λ c x. rw u.same.cpu (λ g.
        let run = inv.on_cpu c x g in
        ap (λ (w : Proc). w.state)
          (begun_other x
            (λ h. unused≢running (sym was_unused ∙ ap (λ y. (k.proc y).state) h ∙ run)))
        ∙ same_state u.same x
        ∙ run);
    slots = rw u.same.cpu inv.slots;
    one_cpu = rw u.same.cpu inv.one_cpu;
    ticks = rw u.same.global_ticks inv.ticks;
  }

  pub begun-Embryo : Embryo begun home₁ p
  begun-Embryo = record {
    below = inv.live.queued.threaded.in_table unused_queue p on;
    away = update_self home p none;
    idle = begun-state;
  }
