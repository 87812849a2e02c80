-- ===== src/Mlfq/Inv/Turn.antt =====
-- The turn of a process: what `yield` charges it and where it puts it, before the scheduler's
-- check of the ticks.
use mathlib.Core.Bool.{false≢true}
use hyu_os.Prelude.{
  ℕ, ◌+◌, ◌*◌, ◌<◌, ◌≡◌, refl, sym, ◌∙◌, ap, ◌≢◌, inl, inr, Bool, true, false, ◌||◌, none, some,
  List, [], ◌∷◌, ◌++◌, arith, first, ◌⊎◌, ◌≤◌, lt-cases, Bool-cases, update, update_self, update_ne,
  subst, if◌then◌else◌, ◌==◌,
}
use hyu_os.Prelude.Int.{pred_priority}
use hyu_os.Mlfq.State.{runnable, Proc}
use hyu_os.Mlfq.Kernel.{Kernel, modify, enqueue}
use hyu_os.Mlfq.Queue.{points_to}
use hyu_os.Mlfq.Queue.Chain.{IsQueue, unlinked}
use hyu_os.Mlfq.Queue.Insert.{insert_before, insert_before-none}
use hyu_os.Mlfq.Priority.{insert_level}
use hyu_os.Mlfq.Sched.{charge, ticked, tick, yield_insert, boost_check, scheduler_return, yield}
use hyu_os.Mlfq.Inv.Threaded.{Home, View, SameGlobals}
use hyu_os.Mlfq.Inv.Sorted.{sorted_insert, priority_of}
use hyu_os.Mlfq.Inv.Level.{level_list, insert_level_lem, enqueue-Entered, same_priority}
use hyu_os.Mlfq.Inv.Live.{Inv}
use hyu_os.Mlfq.Inv.Wake.{release_lem}
use hyu_os.Mlfq.Inv.Held.{Held, hold, Held-modify, Held-same, small_level, in_table}
use hyu_os.Mlfq.Inv.Yield.{
  BaseIn-first, tick-Held, charge-IsMild, yield-eq, sched-eq, runnable_not_running,
}

abbrev pub quantum : Proc → ℕ
quantum r = r.queuelevel * 2 + 4

-- What a process is after its quantum.
abbrev pub demoted : Proc → Proc
demoted r = record r {
  ticks = 0;
  state = runnable;
  priority = if r.queuelevel == 2 then pred_priority r.priority else r.priority;
  queuelevel = if r.queuelevel == 0 then 1 else 2;
}

-- What a turn leaves of a process that does not have the favour of the scheduler lock.
abbrev pub spent : Proc → Proc
spent r = if r.ticks + 1 == quantum r then demoted r else ticked r

charge-ticked : (r : Proc) → charge (ticked r) ≡ spent r
unfolding charge
charge-ticked r = elim (Bool-cases (r.ticks + 1 == quantum r)) [
  | inl e ↦ rw e refl
  | inr e ↦ rw e refl
]

spent-state : (r : Proc) → (spent r).state ≡ runnable
spent-state r = elim (Bool-cases (r.ticks + 1 == quantum r)) [
  | inl e ↦ rw e refl
  | inr e ↦ rw e refl
]

-- The holder of the scheduler lock, and the process that has just given it up.
abbrev pub favoured : Kernel → ℕ → Bool
favoured k p = points_to k.lockproc p || points_to k.unlockproc p

-- The kernel `k'` when `p` has been put back on a queue.
pub record Yielded (k k' : Kernel) (p : ℕ) (view : View) : Type 0 where
  pub counted : k'.global_ticks ≡ k.global_ticks + 1
  pub others : (j : ℕ) → p ≢ j → unlinked (k'.proc j) ≡ unlinked (k.proc j)
  pub ahead :
      favoured k p ≡ true
      → (unlinked (k'.proc p) ≡ unlinked (ticked (k.proc p)))
        × IsQueue k'.proc (k'.queue 0) (p ∷ view 0)
  pub low :
      favoured k p ≡ false
      → (spent (k.proc p)).queuelevel ≡ 2
      → (unlinked (k'.proc p) ≡ unlinked (spent (k.proc p)))
        × IsQueue k'.proc (k'.queue 2) (sorted_insert (priority_of k'.proc) p (view 2))
  pub high :
      favoured k p ≡ false
      → (spent (k.proc p)).queuelevel ≢ 2
      → (unlinked (k'.proc p) ≡ unlinked (spent (k.proc p)))
        × IsQueue k'.proc
            (k'.queue (spent (k.proc p)).queuelevel)
            (view (spent (k.proc p)).queuelevel ++ (p ∷ []))

insert_before-first : (p : ℕ) (xs : List ℕ) → insert_before (first xs none) p xs ≡ p ∷ xs
unfolding insert_before
insert_before-first p [] = refl
insert_before-first p (x ∷ xs) = ground arith

module _ (k : Kernel) (c p : ℕ) (home : Home) (view : View) (h : Held k c p home view) where
  -- `p` comes to the head of the first queue.
  come_first :
      (k' : Kernel) × (enqueue k 0 p (k.queue 0).head ≡ some k')
      × SameGlobals k k'
      × IsQueue k'.proc (k'.queue 0) (p ∷ view 0)
  come_first =
      let is = h.queued.threaded.queues 0 in
      let low = small_level k c p home view h in
      let (k', e, r) =
        enqueue-Entered k home view h.queued p h.away (in_table k c p home view h) 0
          (first (view 0) none) (omega arith) (BaseIn-first (view 0)) (ground arith) in
      let on = r.queued.threaded.queues 0 in
      (
        k',
        rw is.head e,
        r.same,
        subst (λ l. IsQueue k'.proc (k'.queue 0) l)
            (update_self view 0 (insert_before (first (view 0) none) p (view 0))
              ∙ insert_before-first p (view 0))
            on,
      )

  abbrev Comes : Kernel → Type 0
  Comes k' =
      ((k.proc p).queuelevel ≡ 2
        → IsQueue k'.proc (k'.queue 2) (sorted_insert (priority_of k'.proc) p (view 2)))
      × ((k.proc p).queuelevel ≢ 2
          → IsQueue k'.proc (k'.queue (k.proc p).queuelevel)
              (view (k.proc p).queuelevel ++ (p ∷ [])))

  -- `p` comes to the queue of its level.
  come_level : (k' : Kernel) × (insert_level k p ≡ some k') × SameGlobals k k' × Comes k'
  come_level =
      let (k', e, r) =
        insert_level_lem k home view h.queued p h.away (in_table k c p home view h) in
      let l = (k.proc p).queuelevel in
      let low = in_table k c p home view h in
      let on = r.queued.threaded.queues l in
      let same : priority_of k'.proc ≡ priority_of k.proc = λ i j. same_priority r.same j i in
      let low_list : l ≡ 2
          → level_list k home view h.queued p h.away low l
            ≡ sorted_insert (priority_of k'.proc) p (view 2) =
        λ two. let y : (l == 2) ≡ true = ground arith in rw (y, same) refl in
      let high_list : l ≢ 2 → level_list k home view h.queued p h.away low l ≡ view l ++ (p ∷ []) =
        λ n. let y : (l == 2) ≡ false = ground arith in rw y (insert_before-none p (view l)) in
      let at_level = update_self view l (level_list k home view h.queued p h.away low l) in
      (
        k',
        e,
        r.same,
        (
          λ two.
              subst
                (λ i. IsQueue k'.proc (k'.queue i) (sorted_insert (priority_of k'.proc) p (view 2)))
                two (subst (λ xs. IsQueue k'.proc (k'.queue l) xs) (at_level ∙ low_list two) on),
          λ n. subst (λ xs. IsQueue k'.proc (k'.queue l) xs) (at_level ∙ high_list n) on,
        ),
      )

module _ (k : Kernel) (c p : ℕ) (home : Home) (view : View) (inv : Inv k home view)
    (on : k.cpu c ≡ some p) where
  abbrev pub ticking : Kernel
  ticking = tick (record k { locked = true }) p

  ticking-Held : Held ticking c p home view
  ticking-Held = tick-Held _ c p home view (hold k c p home view inv on) inv.ticks

  ticking_self : ticking.proc p ≡ ticked (k.proc p)
  unfolding tick
  ticking_self = update_self k.proc p (ticked (k.proc p))

  ticking_other : (j : ℕ) → p ≢ j → ticking.proc j ≡ k.proc j
  unfolding tick
  ticking_other j n = update_ne k.proc (ticked (k.proc p)) n

  ticking_globals :
      (ticking.global_ticks ≡ k.global_ticks + 1) × (favoured ticking p ≡ favoured k p)
  unfolding tick
  ticking_globals = (refl, refl)

  -- What is to be shown of `yield_insert`.
  abbrev pub YieldsTo : Kernel → Type 0
  YieldsTo k' =
      (yield_insert ticking p ≡ some k')
      × Yielded k k' p view
      × ((k'.proc p).state ≡ runnable)
      × (k'.locked ≡ true)

  contradicted {ℓ} : {A : Type ℓ} {b : Bool} → b ≡ true → b ≡ false → A
  contradicted e f = absurd (false≢true (sym f ∙ e))

  -- What is left of `p` at the head of the first queue.
  ahead_lem :
      (km k' : Kernel)
      → km.proc ≡ ticking.proc
      → km.global_ticks ≡ ticking.global_ticks
      → SameGlobals km k'
      → favoured k p ≡ true
      → IsQueue k'.proc (k'.queue 0) (p ∷ view 0)
      → Yielded k k' p view × ((k'.proc p).state ≡ runnable)
  ahead_lem km k' e g same fav is =
      let self = same.contents p ∙ ap (λ s. unlinked (s p)) e ∙ ap unlinked ticking_self in
      (
        record {
          counted = same.global_ticks ∙ g ∙ ticking_globals.0;
          others =
              λ j n. same.contents j ∙ ap (λ s. unlinked (s j)) e ∙ ap unlinked (ticking_other j n);
          ahead = λ _. (self, is);
          low = λ f. contradicted fav f;
          high = λ f. contradicted fav f;
        },
        ap (λ (x : Proc). x.state) self,
      )

  placed_first : favoured k p ≡ true → (k' : Kernel) × YieldsTo k'
  unfolding yield_insert
  placed_first fav =
      let favour : favoured ticking p ≡ true = ticking_globals.1 ∙ fav in
      elim (Bool-cases (points_to ticking.unlockproc p)) [
        | inl e ↦
            let km = record ticking { unlockproc = none } in
            let hm =
              Held-same ticking c p home view ticking-Held km refl refl refl refl
                ticking-Held.ticks in
            let (k', g, same, is) = come_first km c p home view hm in
            let a = ahead_lem km k' refl refl same fav is in
            (k', (rw (favour, e) g, a.0, a.1, same.locked ∙ hm.locked))
        | inr e ↦
            let (k', g, same, is) = come_first ticking c p home view ticking-Held in
            let a = ahead_lem ticking k' refl refl same fav is in
            (k', (rw (favour, e) g, a.0, a.1, same.locked ∙ ticking-Held.locked))
      ]

  placed_level : favoured k p ≡ false → (k' : Kernel) × YieldsTo k'
  unfolding yield_insert
  placed_level fav =
      let favour : favoured ticking p ≡ false = ticking_globals.1 ∙ fav in
      let r = charge (ticking.proc p) in
      let km = modify ticking p charge in
      let self : km.proc p ≡ spent (k.proc p) =
        update_self ticking.proc p r ∙ ap charge ticking_self ∙ charge-ticked (k.proc p) in
      let hm : Held km c p home view =
        Held-modify ticking c p home view ticking-Held charge
          (charge-IsMild ticking c p home view ticking-Held) in
      let level : (km.proc p).queuelevel ≡ (spent (k.proc p)).queuelevel =
        ap (λ (x : Proc). x.queuelevel) self in
      let (k', e, same, comes) = come_level km c p home view hm in
      let left = same.contents p ∙ ap unlinked self in
      (
        k',
        (
          rw favour e,
          record {
            counted = same.global_ticks ∙ ticking_globals.0;
            others = λ j n.
                same.contents j
                ∙ ap unlinked (update_ne ticking.proc r n)
                ∙ ap unlinked (ticking_other j n);
            ahead = λ f. contradicted f fav;
            low = λ _ two. (left, comes.0 (level ∙ two));
            high = λ _ n. (
              left,
              subst (λ i. IsQueue k'.proc (k'.queue i) (view i ++ (p ∷ []))) level
                  (comes.1 (λ two. n (sym level ∙ two))),
            );
          },
          ap (λ (x : Proc). x.state) left ∙ spent-state (k.proc p),
          same.locked ∙ hm.locked,
        ),
      )

  placed : (k' : Kernel) × YieldsTo k'
  placed = elim (Bool-cases (favoured k p)) [ inl e ↦ placed_first e | inr e ↦ placed_level e ]

-- The end of a round with no boosting.
abbrev pub rested : Kernel → ℕ → Kernel
rested k c = record k { cpu = update k.cpu c none; locked = false }

scheduler_return-rested :
    (k : Kernel) (c : ℕ)
    → k.locked ≡ true
    → k.global_ticks < 100
    → scheduler_return c k ≡ some (rested k c)
unfolding scheduler_return boost_check
scheduler_return-rested k c l lt =
    let due : (k.global_ticks == 100) ≡ false = ground arith in
    rw due (release_lem (record k { cpu = update k.cpu c none }) l)

-- On a well-formed kernel with `ptable.lock` free, `yield` of the process `p` that CPU `c` runs
-- counts a tick for `p` and for the kernel and makes `p` runnable. The holder of the scheduler
-- lock, and the process that has just given it up, go to the head of the first queue, with no
-- check of their quantum. Any other process is demoted exactly if its ticks have now reached
-- `queuelevel * 2 + 4`, and goes to the queue of the level that it then has: in the lowest in front
-- of the first process of a larger priority number, in the others to the end. No other process
-- changes but for links. The scheduler's check of the ticks follows; below the hundredth tick it
-- only leaves CPU `c` idle and frees the lock.
pub yield_lem :
    (k : Kernel) (c p : ℕ) (home : Home) (view : View)
    → Inv k home view
    → k.cpu c ≡ some p
    → k.locked ≡ false
    → (k' : Kernel) × (yield c k ≡ scheduler_return c k')
      × Yielded k k' p view
      × ((yield c k ≡ some (rested k' c)) ⊎ (99 ≤ k.global_ticks))
yield_lem k c p home view inv on free =
    let (k', (e, y, st, l)) = placed k c p home view inv on in
    let to : yield c k ≡ scheduler_return c k' =
      yield-eq k c p on free ∙ rw e (sched-eq k' c p l (runnable_not_running _ st)) in
    (
      k',
      to,
      y,
      elim (lt-cases (k.global_ticks + 1) 100) [
        | inl lt ↦ inl (to ∙ scheduler_return-rested k' c l (omega (arith, y.counted)))
        | inr le ↦ inr (omega arith)
      ],
    )
