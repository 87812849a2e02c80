-- ===== src/Mlfq/Inv/Yield.antt =====
-- `yield` keeps the invariant.
use hyu_os.Prelude.{
  ℕ, ◌+◌, ◌<◌, ◌≡◌, refl, ◌∙◌, ap, inl, inr, true, false, ◌||◌, Option, none, some, List, [], ◌∷◌,
  arith, first, Bool-cases, update, update_self, ◌>>=◌,
}
use hyu_os.Mlfq.State.{ProcState, runnable, Proc, QueueId}
use hyu_os.Mlfq.Kernel.{Kernel, acquire, modify, enqueue}
use hyu_os.Mlfq.Queue.{points_to}
use hyu_os.Mlfq.Queue.Insert.{BaseIn}
use hyu_os.Mlfq.Priority.{insert_level}
use hyu_os.Mlfq.Sched.{
  is_running, charge, ticked, tick, yield_insert, sched, scheduler_return, yield,
}
use hyu_os.Mlfq.Inv.Threaded.{Home, View}
use hyu_os.Mlfq.Inv.Level.{state_fits, insert_level_lem, enqueue-Entered, same_state}
use hyu_os.Mlfq.Inv.Live.{Inv, Leaving, Settled, scheduler_return_lem}
use hyu_os.Mlfq.Inv.Held.{Held, IsMild, hold, Held-modify, Held-same, small_level, in_table, leave}

-- Some kernel that is well formed again.
abbrev pub EndsIn : Option Kernel → Type 0
EndsIn r = (k' : Kernel) × (home' : Home) × (view' : View) × (r ≡ some k') × Inv k' home' view'

not_running_of_fits :
    (i : QueueId) (st : ProcState) → state_fits (some i) st ≡ true → is_running st ≡ false
not_running_of_fits i ProcState.running e = cc
not_running_of_fits i ProcState.unused e = refl
not_running_of_fits i ProcState.embryo e = refl
not_running_of_fits i ProcState.sleeping e = refl
not_running_of_fits i ProcState.runnable e = refl
not_running_of_fits i ProcState.zombie e = refl

-- `sched` passes its checks, and the scheduler ends its round.
pub sched-eq :
    (k : Kernel) (c p : ℕ)
    → k.locked ≡ true
    → is_running (k.proc p).state ≡ false
    → sched c p k ≡ scheduler_return c k
unfolding sched
sched-eq k c p e f = ground arith

pub sched-Settled :
    (k : Kernel) (c p : ℕ) (home : Home) (view : View)
    → Leaving k c home view
    → is_running (k.proc p).state ≡ false
    → (k' : Kernel) × (home' : Home) × (view' : View) × (sched c p k ≡ some k')
      × Inv k' home' view'
      × Settled k k' c
sched-Settled k c p home view l st =
    let (k', home', view', e, inv, s) = scheduler_return_lem k c home view l in
    (k', home', view', sched-eq k c p l.locked st ∙ e, inv, s)

pub sched_lem :
    (k : Kernel) (c p : ℕ) (home : Home) (view : View)
    → Leaving k c home view
    → is_running (k.proc p).state ≡ false
    → EndsIn (sched c p k)
sched_lem k c p home view l st =
    let (k', home', view', e, inv, s) = sched-Settled k c p home view l st in
    (k', home', view', e, inv)

pub BaseIn-first : (xs : List ℕ) → BaseIn (first xs none) xs
BaseIn-first [] = tt
BaseIn-first (x ∷ xs) = inl refl

tick-state : (k : Kernel) (p : ℕ) → ((tick k p).proc p).state ≡ runnable
unfolding tick
tick-state k p = ground arith

module _ (k : Kernel) (c p : ℕ) (home : Home) (view : View) (h : Held k c p home view) where
  pub tick-Held : k.global_ticks < 100 → Held (tick k p) c p home view
  unfolding tick
  tick-Held lt =
      let k₁ = record k { global_ticks = k.global_ticks + 1 } in
      Held-modify k₁ c p home view
        (Held-same k c p home view h k₁ refl refl refl refl (omega arith)) ticked
        (record { prev = refl; next = refl; level = small_level k c p home view h })

  pub charge-IsMild : IsMild charge (k.proc p)
  unfolding charge
  charge-IsMild = record {
    prev = ground arith;
    next = ground arith;
    level = ground (arith, small_level k c p home view h);
  }

  -- The process is back on a queue.
  abbrev Requeued : Option Kernel → Type 0
  Requeued r =
      (k' : Kernel) × (home' : Home) × (view' : View) × (r ≡ some k')
      × Leaving k' c home' view'
      × ((k'.proc p).state ≡ (k.proc p).state)

  -- `p` comes to the head of the first queue.
  requeue_first : (k.proc p).state ≡ runnable → Requeued (enqueue k 0 p (k.queue 0).head)
  requeue_first st =
      let is = h.queued.threaded.queues 0 in
      let low = small_level k c p home view h in
      let (k', e, r) =
        enqueue-Entered k home view h.queued p h.away (in_table k c p home view h) 0
          (first (view 0) none) (omega arith) (BaseIn-first (view 0)) (ground arith) in
      (
        k',
        update home p (some 0),
        _,
        rw is.head e,
        leave k c p home view h k' 0 _ r.same r.queued (rw st refl),
        same_state r.same p,
      )

  -- `p` comes to the queue of its level.
  requeue_level : (k.proc p).state ≡ runnable → Requeued (insert_level k p)
  requeue_level st =
      let low = small_level k c p home view h in
      let (k', e, r) =
        insert_level_lem k home view h.queued p h.away (in_table k c p home view h) in
      (
        k',
        update home p (some (k.proc p).queuelevel),
        _,
        e,
        leave k c p home view h k' (k.proc p).queuelevel _ r.same r.queued (rw st low),
        same_state r.same p,
      )

charge-state : (r : Proc) → (charge r).state ≡ r.state
unfolding charge
charge-state r = ground arith

module _ (k : Kernel) (c p : ℕ) (home : Home) (view : View) (h : Held k c p home view)
    (st : (k.proc p).state ≡ runnable) where
  yield_insert-Requeued : Requeued k c p home view h (yield_insert k p)
  unfolding yield_insert
  yield_insert-Requeued = elim (Bool-cases (points_to k.lockproc p || points_to k.unlockproc p)) [
    | inl e ↦ rw e (elim (Bool-cases (points_to k.unlockproc p)) [
      | inl f ↦
          let k₁ = record k { unlockproc = none } in
          rw f (
            requeue_first k₁ c p home view
              (Held-same k c p home view h k₁ refl refl refl refl h.ticks) st)
      | inr f ↦ rw f (requeue_first k c p home view h st)
    ])
    | inr e ↦
        let r = charge (k.proc p) in
        let charged : (modify k p charge).proc p ≡ r = update_self k.proc p r in
        let same : r.state ≡ (k.proc p).state = charge-state (k.proc p) in
        let back : ((modify k p charge).proc p).state ≡ (k.proc p).state =
          ap (λ (x : Proc). x.state) charged ∙ same in
        let (k', home', view', g, l, s) =
          requeue_level (modify k p charge) c p home view
            (Held-modify k c p home view h charge (charge-IsMild k c p home view h)) (back ∙ st) in
        rw e (k', home', view', g, l, s ∙ back)
  ]

pub runnable_not_running : (st : ProcState) → st ≡ runnable → is_running st ≡ false
runnable_not_running st e = rw e refl

pub yield-eq :
    (k : Kernel) (c p : ℕ)
    → k.cpu c ≡ some p
    → k.locked ≡ false
    → yield c k ≡ (yield_insert (tick (record k { locked = true }) p) p >>= sched c p)
unfolding yield acquire
yield-eq k c p e f = ground arith

-- With `ptable.lock` free, `yield` of the process that CPU `c` runs never faults on a
-- well-formed kernel, and at the end of the round of the scheduler, with priority boosting when
-- it is due, the kernel is well formed again.
pub yield-Inv :
    (k : Kernel) (c p : ℕ) (home : Home) (view : View)
    → Inv k home view
    → k.cpu c ≡ some p
    → k.locked ≡ false
    → EndsIn (yield c k)
yield-Inv k c p home view inv e free =
    let k₁ = record k { locked = true } in
    let h = tick-Held k₁ c p home view (hold k c p home view inv e) inv.ticks in
    let st : ((tick k₁ p).proc p).state ≡ runnable = tick-state k₁ p in
    let (k₂, home', view', f, l, s) = yield_insert-Requeued (tick k₁ p) c p home view h st in
    let (k₃, home'', view'', g, inv') =
      sched_lem k₂ c p home' view' l (runnable_not_running _ (s ∙ st)) in
    (k₃, home'', view'', yield-eq k c p e free ∙ rw f g, inv')
