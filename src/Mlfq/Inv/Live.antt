-- ===== src/Mlfq/Inv/Live.antt =====
-- The invariant of the scheduler, and the end of its round.
use mathlib.Core.Option.{some-injective}
use hyu_os.Prelude.{
  ℕ, ◌≤◌, ◌<◌, ◌≡◌, refl, ◌∙◌, ap, ◌≢◌, ◌⊎◌, inl, inr, true, false, Option, none, some, arith,
  eq-cases, update, if◌then◌else◌, ◌==◌, leb, Option-cases,
}
use hyu_os.Mlfq.State.{ProcState, running, Proc, QueueId, nproc, sleep_queue}
use hyu_os.Mlfq.Queue.Chain.{unlinked}
use hyu_os.Mlfq.Kernel.{Kernel, release}
use hyu_os.Mlfq.Sched.{boosted, priority_boosting, releasemlfq, boost_check, scheduler_return}
use hyu_os.Mlfq.Inv.Threaded.{Home, View}
use hyu_os.Mlfq.Inv.Level.{Queued, level_fits, state_fits}
use hyu_os.Mlfq.Inv.Merging.{redirect}
use hyu_os.Mlfq.Inv.Boost.{lifted, lifted_view, Boosted, priority_boosting_lem}

-- Queues, levels and states agree.
pub record Live (k : Kernel) (home : Home) (view : View) : Type 0 where
  pub queued : Queued k home view
  pub states : (p : ℕ) → state_fits (home p) (k.proc p).state ≡ true

-- What holds of the kernel between the steps of the CPUs: the queues are well formed, every
-- process is where its state says, a process on a CPU is running, and on no other CPU.
pub record Inv (k : Kernel) (home : Home) (view : View) : Type 0 where
  pub live : Live k home view
  pub on_cpu : (c p : ℕ) → k.cpu c ≡ some p → (k.proc p).state ≡ running
  pub slots : (c p : ℕ) → k.cpu c ≡ some p → p < nproc
  pub one_cpu : (c d p : ℕ) → k.cpu c ≡ some p → k.cpu d ≡ some p → c ≡ d
  pub ticks : k.global_ticks < 100

-- The kernel when the process of CPU `c` has called `sched` and no longer runs.
pub record Leaving (k : Kernel) (c : ℕ) (home : Home) (view : View) : Type 0 where
  pub live : Live k home view
  pub on_cpu : (d p : ℕ) → d ≢ c → k.cpu d ≡ some p → (k.proc p).state ≡ running
  pub slots : (d p : ℕ) → k.cpu d ≡ some p → p < nproc
  pub one_cpu : (d e p : ℕ) → k.cpu d ≡ some p → k.cpu e ≡ some p → d ≡ e
  pub ticks : k.global_ticks ≤ 100
  pub locked : k.locked ≡ true

-- A process that is on no queue has one of three states.
pub away_of_running :
    {k : Kernel} {home : Home} {view : View} (p : ℕ)
    → Live k home view
    → (k.proc p).state ≡ running
    → home p ≡ none
away_of_running {k} {home} p live r = elim (Option-cases (home p)) [
  | inl e ↦ e
  | inr (i, e) ↦ let s = live.states p in absurd (stuck i (rw (e, r) at s))
]
  where
    stuck : (i : QueueId) → state_fits (some i) running ≡ true → ⊥
    stuck i h = cc

lifted-some : (i : QueueId) → lifted (some i) ≡ (if leb i 2 then some 0 else some i)
unfolding lifted redirect
lifted-some i = elim (eq-cases i 2) [
  | inl e ↦ rw e refl
  | inr n ↦ let f : (i == 2) ≡ false = ground arith in rw f (ground arith)
]

lifted_state :
    (h : Option QueueId) (st : ProcState) → state_fits h st ≡ true → state_fits (lifted h) st ≡ true
lifted_state none st e = unfold lifted redirect in e
lifted_state (some i) ProcState.runnable e = rw (lifted-some i) (ground arith)
lifted_state (some i) ProcState.sleeping e = rw (lifted-some i) (ground arith)
lifted_state (some i) ProcState.unused e = rw (lifted-some i) (ground arith)
lifted_state (some i) ProcState.embryo e = cc
lifted_state (some i) ProcState.running e = cc
lifted_state (some i) ProcState.zombie e = cc

lifted_level : (h : Option QueueId) (l : ℕ) → level_fits h l ≡ true → level_fits (lifted h) l ≡ true
lifted_level none l e = unfold lifted redirect in e
lifted_level (some i) l e = rw (lifted-some i) (ground arith)

is_home : (h : Option QueueId) (i : QueueId) → (h ≡ some i) ⊎ (h ≢ some i)
is_home none i = inr (λ e. cc)
is_home (some x) i = elim (eq-cases x i) [
  | inl e ↦ inl (ap some e)
  | inr n ↦ inr (λ e. n (some-injective _ _ e))
]

module _ {k k' : Kernel} {home : Home} (b : Boosted k k' home) (j : ℕ) where
  -- Boosting gives a process fresh counters or leaves it alone.
  boosted-cases :
      (unlinked (k'.proc j) ≡ unlinked (boosted (k.proc j)))
      ⊎ (unlinked (k'.proc j) ≡ unlinked (k.proc j))
  boosted-cases = elim (is_home (lifted (home j)) 0) [
    | inl e ↦ inl (b.queued j (inl e))
    | inr m ↦ elim (is_home (lifted (home j)) sleep_queue) [
      | inl e ↦ inl (b.queued j (inr e))
      | inr n ↦ inr (b.others j m n)
    ]
  ]

  pub boosted-state : (k'.proc j).state ≡ (k.proc j).state
  boosted-state = elim boosted-cases [
    | inl e ↦ ap (λ (r : Proc). r.state) e
    | inr e ↦ ap (λ (r : Proc). r.state) e
  ]

  pub boosted-parent : (k'.proc j).parent ≡ (k.proc j).parent
  boosted-parent = elim boosted-cases [
    | inl e ↦ ap (λ (r : Proc). r.parent) e
    | inr e ↦ ap (λ (r : Proc). r.parent) e
  ]

  boosted-level : ((k'.proc j).queuelevel ≡ 0) ⊎ ((k'.proc j).queuelevel ≡ (k.proc j).queuelevel)
  boosted-level = elim boosted-cases [
    | inl e ↦ inl (ap (λ (r : Proc). r.queuelevel) e)
    | inr e ↦ inr (ap (λ (r : Proc). r.queuelevel) e)
  ]

lifted_zero : (h : Option QueueId) (l : ℕ) → level_fits h l ≡ true → level_fits (lifted h) 0 ≡ true
lifted_zero none l e = unfold lifted redirect in refl
lifted_zero (some i) l e = rw (lifted-some i) (ground arith)

-- Boosting never faults on a well-formed kernel and leaves it well formed.
pub boost-Live :
    (k : Kernel) (home : Home) (view : View)
    → Live k home view
    → (k' : Kernel) × (priority_boosting k ≡ some k')
      × Live k' (λ p. lifted (home p)) (lifted_view view)
      × Boosted k k' home
boost-Live k home view live =
    let (k', e, t, b) = priority_boosting_lem k home view live.queued.threaded in
    (
      k',
      e,
      record {
        queued = record {
          threaded = t;
          levels = λ j. elim (boosted-level b j) [
            | inl z ↦ rw z (lifted_zero (home j) _ (live.queued.levels j))
            | inr s ↦ rw s (lifted_level (home j) _ (live.queued.levels j))
          ];
          sorted = tt;
        };
        states = λ j. rw (boosted-state b j) (lifted_state (home j) _ (live.states j));
      },
      b,
    )

-- Whoever holds the scheduler lock loses it.
pub releasemlfq_lem : (k : Kernel) → releasemlfq k ≡ record k { lockproc = none }
unfolding releasemlfq
releasemlfq_lem k = ground arith

-- The scheduler's own fields do not matter to the queues.
pub Live-same :
    (k k' : Kernel) (home : Home) (view : View)
    → k'.proc ≡ k.proc
    → k'.queue ≡ k.queue
    → Live k home view
    → Live k' home view
Live-same k k' home view e f live = record {
  queued = record {
    threaded = rw (e, f) live.queued.threaded;
    levels = rw e live.queued.levels;
    sorted = rw e live.queued.sorted;
  };
  states = rw e live.states;
}

-- What the end of a round keeps: boosting changes no state and no parent, and only CPU `c` loses
-- its process.
pub record Settled (k k' : Kernel) (c : ℕ) : Type 0 where
  pub states : (j : ℕ) → (k'.proc j).state ≡ (k.proc j).state
  pub parents : (j : ℕ) → (k'.proc j).parent ≡ (k.proc j).parent
  pub cpu : k'.cpu ≡ update k.cpu c none
  pub unheld : k.lockproc ≡ none → k'.lockproc ≡ none
  pub free : k'.locked ≡ false

module _ (k : Kernel) (c : ℕ) (home : Home) (view : View) (l : Leaving k c home view) where
  -- The kernel after the check of the ticks, which may have boosted.
  checked :
      (k' : Kernel) (home' : Home) (view' : View)
      → Live k' home' view'
      → ((j : ℕ) → (k'.proc j).state ≡ (k.proc j).state)
      → ((j : ℕ) → (k'.proc j).parent ≡ (k.proc j).parent)
      → (k.lockproc ≡ none → k'.lockproc ≡ none)
      → k'.cpu ≡ k.cpu
      → k'.locked ≡ k.locked
      → k'.global_ticks < 100
      → (k₂ : Kernel) × (release (record k' { cpu = update k'.cpu c none }) ≡ some k₂)
        × Inv k₂ home' view'
        × Settled k k₂ c
  unfolding release
  checked k' home' view' live st par un cpu lk ticks = (
    record k' { cpu = update k'.cpu c none; locked = false },
    rw (lk, l.locked) refl,
    record {
      live = Live-same k' _ home' view' refl refl live;
      on_cpu = λ d p. rw cpu (λ e. st p ∙ runs d p e);
      slots = λ d p. rw cpu (λ e. l.slots d p (was d p e));
      one_cpu = λ d e p. rw cpu (λ f g. l.one_cpu d e p (was d p f) (was e p g));
      ticks = ticks;
    },
    record {
      states = st;
      parents = par;
      cpu = ap (λ f. update f c none) cpu;
      unheld = un;
      free = refl;
    },
  )
    where
      was : (d p : ℕ) → update k.cpu c none d ≡ some p → k.cpu d ≡ some p
      was d p e = ground arith

      runs : (d p : ℕ) → update k.cpu c none d ≡ some p → (k.proc p).state ≡ running
      runs d p e = elim (eq-cases d c) [
        | inl h ↦ absurd (ground arith)
        | inr n ↦ l.on_cpu d p n (was d p e)
      ]

  -- The end of a round of the scheduler.
  pub scheduler_return_lem :
      (k' : Kernel) × (home' : Home) × (view' : View) × (scheduler_return c k ≡ some k')
      × Inv k' home' view'
      × Settled k k' c
  unfolding scheduler_return boost_check
  scheduler_return_lem = elim (eq-cases k.global_ticks 100) [
    | inl full ↦
        let due : (k.global_ticks == 100) ≡ true = ground arith in
        let k₀ = record k { global_ticks = 0 } in
        let (k₁, e, live, b) =
          boost-Live k₀ home view (Live-same k k₀ home view refl refl l.live) in
        let k₂ = record k₁ { lockproc = none } in
        let (k₃, f, inv, s) =
          checked k₂ _ _ (Live-same k₁ k₂ _ _ refl refl live) (boosted-state b) (boosted-parent b)
            (λ _. refl) b.cpu b.locked (rw b.global_ticks (omega arith)) in
        (k₃, _, _, rw (due, e, releasemlfq_lem k₁) f, inv, s)
    | inr n ↦
        let due : (k.global_ticks == 100) ≡ false = ground arith in
        let (k₂, e, inv, s) =
          checked k home view l.live (λ j. refl) (λ j. refl) (λ e. e) refl refl
            (omega (arith, l.ticks)) in
        (k₂, home, view, rw due e, inv, s)
  ]

-- Other globals of the scheduler may change.
pub Inv-same :
    (k k' : Kernel) (home : Home) (view : View)
    → k'.proc ≡ k.proc
    → k'.queue ≡ k.queue
    → k'.cpu ≡ k.cpu
    → k'.global_ticks < 100
    → Inv k home view
    → Inv k' home view
Inv-same k k' home view e f g ticks inv = record {
  live = Live-same k k' home view e f inv.live;
  on_cpu = rw (e, g) inv.on_cpu;
  slots = rw g inv.slots;
  one_cpu = rw g inv.one_cpu;
  ticks = ticks;
}
