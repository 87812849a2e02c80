-- ===== src/Mlfq/Inv/Steps.antt =====
-- The CPUs as interleaved steps, each one critical section of `ptable.lock` or, in `fork`, a part
-- between two, and what holds of every kernel that they reach. Two things are left out: a `fork`
-- whose `kalloc` or `copyuvm` fails, which gives its slot back without the lock, and a `setPriority`
-- of a runnable process of level 2 that is not on the lowest queue, which breaks the queues.
use mathlib.Core.Option.{some-injective}
use mathlib.Core.Bool.{false≢true}
use hyu_os.Prelude.{
  ℕ, ◌≤◌, ◌<◌, ◌≡◌, refl, sym, ◌∙◌, ap, inl, inr, Bool, true, false, Option, none, some, List, In,
  arith, leb, subst, ◌≢◌, List-cases, Option-cases, Bool-cases, ◌==◌,
}
use hyu_os.Prelude.Int.{ℤ}
use hyu_os.Mlfq.State.{
  ProcState, runnable, sleeping, unused, embryo, Ptr, Chan, nproc, QueueId, sleep_queue,
  unused_queue,
}
use hyu_os.Mlfq.Kernel.{Kernel, modify, release}
use hyu_os.Mlfq.Queue.Chain.{IsQueue}
use hyu_os.Mlfq.Inv.Sorted.{Ascending, priority_of}
use hyu_os.Mlfq.Sched.{scheduler_pick, resume, yield}
use hyu_os.Mlfq.Sleep.{sleep, wakeup, kill, resume_sleep}
use hyu_os.Mlfq.Queue.{points_to}
use hyu_os.Mlfq.Birth.{take_slot, fit_out, copied, inherit, publish}
use hyu_os.Mlfq.Inv.Forking.{Embryo, publish-Inv}
use hyu_os.Mlfq.Inv.Growing.{take_slot-nil, take_slot-cons}
use hyu_os.Mlfq.Inv.Placing.{calm-Inv}
use hyu_os.Mlfq.Inv.Ranking.{home_of_IsQueue, arrange_queue-Inv}
use hyu_os.Mlfq.Life.{exit, Waited, wait, wait_round}
use hyu_os.Mlfq.Inv.Exiting.{exit-Inv, resume_sleep-Inv}
use hyu_os.Mlfq.Inv.Reaping.{wait_round_lem, wait-eq}
use hyu_os.Mlfq.Inv.Killing.{kill_lem}
use hyu_os.Mlfq.Lock.{last_pid, arrange_queue, scheduler_lock, scheduler_unlock}
use hyu_os.Mlfq.Inv.Threaded.{Home, View}
use hyu_os.Mlfq.Inv.Level.{state_fits}
use hyu_os.Mlfq.Inv.Live.{Inv, Inv-same}
use hyu_os.Mlfq.Inv.Yield.{EndsIn, yield-Inv}
use hyu_os.Mlfq.Inv.Pick.{scheduler_pick-Inv}
use hyu_os.Mlfq.Inv.Asleep.{sleep-Inv}
use hyu_os.Mlfq.Inv.Wake.{wakeup-Inv}
use hyu_os.Mlfq.Inv.Locking.{Guarded, scheduler_lock-Inv, scheduler_unlock-Inv}

-- `p` is on the lowest queue if it is runnable and of level 2.
abbrev pub OnLevel : Kernel → ℕ → Type 0
OnLevel k p =
    (k.proc p).queuelevel ≡ 2
    → (k.proc p).state ≡ runnable
    → (xs : List ℕ) × IsQueue k.proc (k.queue 2) xs × In p xs

-- A step of some CPU. The parts of `fork` are `allot` and `bear`, its two critical sections, and
-- `provide` and `copy` between them; they may be the steps of different CPUs and of several forks.
pub data Step (k k' : Kernel) : Type 0 where
  pick : (c : ℕ) → k.cpu c ≡ none → k.locked ≡ false → scheduler_pick c k ≡ some k' → Step k k'
  run : resume k ≡ some k' → Step k k'
  give_up : (c p : ℕ) → k.cpu c ≡ some p → k.locked ≡ false → yield c k ≡ some k' → Step k k'
  doze :
      (c p : ℕ) (ch : Chan) (own : Bool)
      → k.cpu c ≡ some p
      → k.locked ≡ own
      → sleep c ch own k ≡ some k'
      → Step k k'
  wake : (ch : Chan) → k.locked ≡ false → wakeup ch k ≡ some k' → Step k k'
  tidy :
      (c p : ℕ) (own : Bool)
      → k.cpu c ≡ some p
      → k.locked ≡ true
      → resume_sleep c own k ≡ some k'
      → Step k k'
  quit :
      (c p : ℕ)
      → k.cpu c ≡ some p
      → points_to k.initproc p ≡ false
      → k.locked ≡ false
      → exit c k ≡ some k'
      → Step k k'
  await :
      (c p : ℕ) (w : Waited)
      → k.cpu c ≡ some p
      → k.locked ≡ false
      → wait c k ≡ some (w, k')
      → Step k k'
  await_more :
      (c p : ℕ) (w : Waited)
      → k.cpu c ≡ some p
      → k.locked ≡ true
      → wait_round c k ≡ some (w, k')
      → Step k k'
  allot : (r : Ptr) → k.locked ≡ false → take_slot k ≡ some (r, k') → Step k k'
  provide :
      (a q : ℕ)
      → q < nproc
      → (k.proc q).state ≡ embryo
      → fit_out (some a) (some q, k) ≡ some (some q, k')
      → Step k k'
  copy :
      (d c p q : ℕ)
      → k.cpu c ≡ some p
      → q < nproc
      → (k.proc q).state ≡ embryo
      → inherit d p q k ≡ k'
      → Step k k'
  bear :
      (q : ℕ)
      → q < nproc
      → (k.proc q).state ≡ embryo
      → k.locked ≡ false
      → publish k q ≡ some k'
      → Step k k'
  rank :
      (pid : ℕ) (v : ℤ)
      → k.locked ≡ false
      → ((p : ℕ) → last_pid nproc 0 k pid none ≡ some p → OnLevel k p)
      → arrange_queue pid v k ≡ some k'
      → Step k k'
  slay : (pid : ℕ) (b : Bool) → k.locked ≡ false → kill pid k ≡ some (b, k') → Step k k'
  lock :
      (pw : ℤ) (c p : ℕ) (b : Bool)
      → k.cpu c ≡ some p
      → k.locked ≡ false
      → scheduler_lock pw c k ≡ some (b, k')
      → Step k k'
  unlock :
      (pw : ℤ) (c p : ℕ) (b : Bool)
      → k.cpu c ≡ some p
      → k.locked ≡ false
      → scheduler_unlock pw c k ≡ some (b, k')
      → Step k k'

pub data Reach (k : Kernel) : Kernel → Type 0 where
  here : Reach k k
  next : {l m : Kernel} → Reach k l → Step l m → Reach k m

-- Some queues and homes for which the kernel is well formed.
abbrev pub IsSound : Kernel → Type 0
IsSound k = (home : Home) × (view : View) × Inv k home view

ended : {r : Option Kernel} {k' : Kernel} → EndsIn r → r ≡ some k' → IsSound k'
ended (k₁, home, view, e, inv) f =
    (home, view, subst (λ k. Inv k home view) (some-injective _ _ (sym e ∙ f)) inv)

-- The kernel that a call with a result leaves.
settled :
    {A : Type 0} {r : Option (A × Kernel)} {a b : A} {k₁ k' : Kernel} (home : Home) (view : View)
    → r ≡ some (a, k₁)
    → Inv k₁ home view
    → r ≡ some (b, k')
    → IsSound k'
settled home view e inv f =
    (home, view, subst (λ x. Inv x home view) (ap (λ t. t.1) (some-injective _ _ (sym e ∙ f))) inv)

guarded :
    {right init : Bool} {P : Kernel → Type 0} {r : Option (Bool × Kernel)} {b : Bool} {k' : Kernel}
    → Guarded right init P r
    → r ≡ some (b, k')
    → IsSound k'
guarded (inl (k₁, home, view, y, e, inv, _)) f = settled home view e inv f
guarded (inr (inl (k₁, home, view, n, o, e, inv))) f = settled home view e inv f
guarded (inr (inr (n, i, e))) f = absurd (none≢some_pair (sym e ∙ f))
  where
    none≢some_pair : {x : Bool × Kernel} → none ≢ some x
    none≢some_pair h = cc

allot-IsSound :
    (k : Kernel) (home : Home) (view : View)
    → Inv k home view
    → k.locked ≡ false
    → {r : Ptr} {k' : Kernel} → take_slot k ≡ some (r, k')
    → IsSound k'
allot-IsSound k home view inv free f = elim (List-cases (view unused_queue)) [
  | inl e ↦ let (g, i) = take_slot-nil k home view inv free e in settled home view g i f
  | inr (q, xs, e) ↦
      let (on, was, (k₁, home', view', g, i, grown)) = take_slot-cons k home view inv free q xs e in
      settled home' view' g i f
]

embryo-Embryo :
    (k : Kernel) (home : Home) (view : View)
    → Inv k home view
    → (q : ℕ) → q < nproc
    → (k.proc q).state ≡ embryo
    → Embryo k home q
embryo-Embryo k home view inv q lt st = record {
  below = lt;
  away = elim (Option-cases (home q)) [
    | inl e ↦ e
    | inr (i, e) ↦ let s = inv.live.states q in absurd (stuck i (rw (e, st) at s))
  ];
  idle = st;
}
  where
    stuck : (i : QueueId) → state_fits (some i) embryo ≡ true → ⊥
    stuck i h = cc

resume-IsSound : (k k' : Kernel) → IsSound k → resume k ≡ some k' → IsSound k'
unfolding resume release
resume-IsSound k k' (home, view, inv) e = elim (Bool-cases k.locked) [
  | inl h ↦
      let k₁ = record k { locked = false } in
      let same : k₁ ≡ k' = some-injective _ _ (sym (rw h refl) ∙ e) in
      (
        home,
        view,
        subst (λ x. Inv x home view) same (Inv-same k k₁ home view refl refl refl inv.ticks inv),
      )
  | inr h ↦ ground arith
]

waited :
    (k : Kernel) (c p : ℕ) (home : Home) (view : View)
    → Inv k home view
    → k.cpu c ≡ some p
    → k.locked ≡ true
    → {w : Waited} {k' : Kernel} → wait_round c k ≡ some (w, k')
    → IsSound k'
waited k c p home view inv on held f =
    let (w, k₁, home', view', e, inv', r) = wait_round_lem k c p home view inv on held in
    (
      home',
      view',
      subst (λ x. Inv x home' view') (ap (λ t. t.1) (some-injective _ _ (sym e ∙ f))) inv',
    )

fit_out-eq :
    (a q : ℕ) (k : Kernel)
    → fit_out (some a) (some q, k) ≡ some (some q, modify k q (λ r. record r { kstack = some a }))
unfolding fit_out
fit_out-eq a q k = refl

inherit-Inv :
    (d p q : ℕ) (k : Kernel) (home : Home) (view : View)
    → Inv k home view
    → Inv (inherit d p q k) home view
unfolding inherit
inherit-Inv d p q k home view inv =
    calm-Inv k home view q (copied p (k.proc p) d)
      (record { prev = refl; next = refl; queuelevel = refl; priority = refl }) refl inv

-- Every step keeps the kernel well formed.
pub Step-IsSound : {k k' : Kernel} → Step k k' → IsSound k → IsSound k'
Step-IsSound {k} (pick c idle free e) (home, view, inv) =
    ended (scheduler_pick-Inv k c home view inv idle free) e
Step-IsSound {k} {k'} (run e) s = resume-IsSound k k' s e
Step-IsSound {k} (give_up c p on free e) (home, view, inv) =
    ended (yield-Inv k c p home view inv on free) e
Step-IsSound {k} (doze c p ch own on held e) (home, view, inv) =
    ended (sleep-Inv k c p ch own home view inv on held) e
Step-IsSound {k} (wake ch free e) (home, view, inv) = ended (wakeup-Inv k ch home view inv free) e
Step-IsSound {k} (tidy c p own on held e) (home, view, inv) =
    ended (resume_sleep-Inv k c p own home view inv on held) e
Step-IsSound {k} (quit c p on other free e) (home, view, inv) =
    ended (exit-Inv k c p home view inv on other free) e
Step-IsSound {k} (await c p w on free e) (home, view, inv) =
    let k₁ = record k { locked = true } in
    let inv₁ = Inv-same k k₁ home view refl refl refl inv.ticks inv in
    waited k₁ c p home view inv₁ on refl (sym (wait-eq k c free) ∙ e)
Step-IsSound {k} (await_more c p w on held e) (home, view, inv) =
    waited k c p home view inv on held e
Step-IsSound {k} (allot r free e) (home, view, inv) = allot-IsSound k home view inv free e
Step-IsSound {k} (provide a q lt st e) (home, view, inv) =
    settled home view (fit_out-eq a q k)
      (calm-Inv k home view q (λ r. record r { kstack = some a })
        (record { prev = refl; next = refl; queuelevel = refl; priority = refl }) refl inv)
      e
Step-IsSound {k} (copy d c p q on lt st e) (home, view, inv) =
    subst IsSound e (home, view, inherit-Inv d p q k home view inv)
Step-IsSound {k} (bear q lt st free e) (home, view, inv) =
    let (k', home', view', g, i, _, _, _) =
      publish-Inv k home view inv q (embryo-Embryo k home view inv q lt st) free in
    ended (k', home', view', g, i) e
Step-IsSound {k} (rank pid v free place e) (home, view, inv) =
    ended
      (arrange_queue-Inv k home view inv pid v free (λ p f two run.
        let (xs, is, m) = place p f two run in home_of_IsQueue k home view inv 2 p xs is m))
      e
Step-IsSound {k} (slay pid b free e) (home, view, inv) =
    let (b', k₁, home', view', f, inv', r) = kill_lem pid k home view inv free in
    settled home' view' f inv' e
Step-IsSound {k} (lock pw c p b on free e) (home, view, inv) =
    guarded (scheduler_lock-Inv pw k c p home view inv on free) e
Step-IsSound {k} (unlock pw c p b on free e) (home, view, inv) =
    guarded (scheduler_unlock-Inv pw k c p home view inv on free) e

pub Reach-IsSound : {k k' : Kernel} → IsSound k → Reach k k' → IsSound k'
Reach-IsSound s here = s
Reach-IsSound s (next r st) = Step-IsSound st (Reach-IsSound s r)

-- `p` is on a well-formed queue whose number satisfies `P`.
abbrev pub On : Kernel → ℕ → (QueueId → Type 0) → Type 0
On k p P = (i : QueueId) × (xs : List ℕ) × P i × IsQueue k.proc (k.queue i) xs × In p xs

found :
    (k : Kernel) (home : Home) (view : View)
    → Inv k home view
    → (p : ℕ) (P : QueueId → Type 0) → ((i : QueueId) × (home p ≡ some i) × P i)
    → On k p P
found k home view inv p P (i, e, h) =
    let t = inv.live.queued.threaded in (i, view i, h, t.queues i, t.In_of_home i p e)

fits_runnable :
    (h : Option QueueId) (st : ProcState)
    → st ≡ runnable
    → state_fits h st ≡ true
    → (i : QueueId) × (h ≡ some i) × (i ≤ 2)
fits_runnable none st e f = absurd (let g = rw e at f in false≢true g)
fits_runnable (some i) st e f = let g : leb i 2 ≡ true = rw e at f in (i, refl, ground arith)

fits_sleeping :
    (h : Option QueueId) (st : ProcState)
    → st ≡ sleeping
    → state_fits h st ≡ true
    → (i : QueueId) × (h ≡ some i) × (i ≡ sleep_queue)
fits_sleeping none st e f = absurd (let g = rw e at f in false≢true g)
fits_sleeping (some i) st e f = let g : (i == 3) ≡ true = rw e at f in (i, refl, ground arith)

fits_unused :
    (h : Option QueueId) (st : ProcState)
    → st ≡ unused
    → state_fits h st ≡ true
    → (i : QueueId) × (h ≡ some i) × (i ≡ unused_queue)
fits_unused none st e f = absurd (let g = rw e at f in false≢true g)
fits_unused (some i) st e f = let g : (i == 4) ≡ true = rw e at f in (i, refl, ground arith)

module _ {k₀ k : Kernel} (start : IsSound k₀) (r : Reach k₀ k) where
  reached : IsSound k
  reached = Reach-IsSound start r

  -- In every kernel that the steps reach from a well-formed one, where no `fork` fails for want of a
  -- page and `setPriority` finds a runnable process of level 2 only on the lowest queue, no process
  -- is the current one of two CPUs.
  pub one_cpu : (c d p : ℕ) → k.cpu c ≡ some p → k.cpu d ≡ some p → c ≡ d
  one_cpu = let (home, view, inv) = reached in inv.one_cpu

  -- In every kernel that the steps reach from a well-formed one, where no `fork` fails for want of a
  -- page and `setPriority` finds a runnable process of level 2 only on the lowest queue, the tick
  -- count is below 100.
  pub ticks_bounded : k.global_ticks < 100
  ticks_bounded = let (home, view, inv) = reached in inv.ticks

  -- In every kernel that the steps reach from a well-formed one, where no `fork` fails for want of a
  -- page and `setPriority` finds a runnable process of level 2 only on the lowest queue, a runnable
  -- process is on one of the three level queues, a sleeping one on the sleep queue and an unused
  -- slot on the unused queue, each queue a well-formed list.
  pub placed :
      (p : ℕ)
      → ((k.proc p).state ≡ runnable → On k p (λ i. i ≤ 2))
        × ((k.proc p).state ≡ sleeping → On k p (λ i. i ≡ sleep_queue))
        × ((k.proc p).state ≡ unused → On k p (λ i. i ≡ unused_queue))
  placed p =
      let (home, view, inv) = reached in
      (
        λ e. found k home view inv p (λ i. i ≤ 2) (fits_runnable (home p) _ e (inv.live.states p)),
        λ e.
            found k home view inv p (λ i. i ≡ sleep_queue)
              (fits_sleeping (home p) _ e (inv.live.states p)),
        λ e.
            found k home view inv p (λ i. i ≡ unused_queue)
              (fits_unused (home p) _ e (inv.live.states p)),
      )

  -- In every kernel that the steps reach from a well-formed one, where no `fork` fails for want of a
  -- page and `setPriority` finds a runnable process of level 2 only on the lowest queue, the lowest
  -- queue is a well-formed list, sorted by priority with the smallest number in front.
  pub lowest_sorted :
      (xs : List ℕ) × IsQueue k.proc (k.queue 2) xs × Ascending (priority_of k.proc) xs
  lowest_sorted =
      let (home, view, inv) = reached in
      (view 2, inv.live.queued.threaded.queues 2, inv.live.queued.sorted)
