-- ===== src/Mlfq/Inv/Held.antt =====
-- The kernel in the middle of a step, while a process of a CPU holds `ptable.lock`.
use hyu_os.Prelude.{
  ℕ, ◌≤◌, ◌<◌, ◌≡◌, refl, sym, ◌∙◌, ap, ◌≢◌, inl, inr, true, none, some, arith, eq-cases, update,
  update_self, update_ne, leb, In,
}
use hyu_os.Mlfq.State.{running, Proc, QueueId, nproc}
use hyu_os.Mlfq.Kernel.{Kernel, modify}
use hyu_os.Mlfq.Queue.Chain.{SameLinks}
use hyu_os.Mlfq.Inv.Threaded.{Home, View, SameGlobals, Threaded-same, none≢some}
use hyu_os.Mlfq.Inv.Sorted.{priority_of, Ascending-same}
use hyu_os.Mlfq.Inv.Level.{Queued, state_fits, same_state}
use hyu_os.Mlfq.Inv.Live.{Inv, Leaving, away_of_running}

-- The invariant with `p`, the process of CPU `c`, taken out: it is on no queue, and its state is
-- free.
pub record Held (k : Kernel) (c p : ℕ) (home : Home) (view : View) : Type 0 where
  pub queued : Queued k home view
  pub states : (j : ℕ) → j ≢ p → state_fits (home j) (k.proc j).state ≡ true
  pub away : home p ≡ none
  pub here : k.cpu c ≡ some p
  pub on_cpu : (d x : ℕ) → d ≢ c → k.cpu d ≡ some x → (k.proc x).state ≡ running
  pub slots : (d x : ℕ) → k.cpu d ≡ some x → x < nproc
  pub one_cpu : (d e x : ℕ) → k.cpu d ≡ some x → k.cpu e ≡ some x → d ≡ e
  pub ticks : k.global_ticks ≤ 100
  pub locked : k.locked ≡ true

-- A process of a CPU takes `ptable.lock`.
pub hold :
    (k : Kernel) (c p : ℕ) (home : Home) (view : View)
    → Inv k home view
    → k.cpu c ≡ some p
    → Held (record k { locked = true }) c p home view
hold k c p home view inv e = record {
  queued = record {
    threaded = inv.live.queued.threaded;
    levels = inv.live.queued.levels;
    sorted = inv.live.queued.sorted;
  };
  states = λ j n. inv.live.states j;
  away = away_of_running p inv.live (inv.on_cpu c p e);
  here = e;
  on_cpu = λ d x n. inv.on_cpu d x;
  slots = inv.slots;
  one_cpu = inv.one_cpu;
  ticks = omega (arith, inv.ticks);
  locked = refl;
}

-- The change leaves the links and the range of the level alone.
pub record IsMild (f : Proc → Proc) (r : Proc) : Type 0 where
  pub prev : (f r).prev ≡ r.prev
  pub next : (f r).next ≡ r.next
  pub level : leb (f r).queuelevel 2 ≡ true

module _ (k : Kernel) (home : Home) (view : View) (p : ℕ) (f : Proc → Proc)
    (m : IsMild f (k.proc p)) where
  modify-links : (j : ℕ) → SameLinks k.proc (modify k p f).proc j
  modify-links j = elim (eq-cases p j) [
    | inl e ↦ rw (← e, update_self k.proc p (f (k.proc p))) (m.prev, m.next)
    | inr n ↦ rw (update_ne k.proc (f (k.proc p)) n) (refl, refl)
  ]

  -- A mild change to a process that is on no queue leaves the queues well formed.
  pub modify-Queued : home p ≡ none → Queued k home view → Queued (modify k p f) home view
  modify-Queued away q = record {
    threaded = Threaded-same k.proc k.queue home view q.threaded (modify k p f).proc modify-links;
    levels = λ j. elim (eq-cases p j) [
      | inl e ↦ rw (← e, update_self k.proc p (f (k.proc p)), away) m.level
      | inr n ↦ rw (update_ne k.proc (f (k.proc p)) n) (q.levels j)
    ];
    sorted =
        Ascending-same (priority_of k.proc) (priority_of (modify k p f).proc) (view 2) kept
          q.sorted;
  }
    where
      kept : (j : ℕ) → In j (view 2) → priority_of (modify k p f).proc j ≡ priority_of k.proc j
      kept j i = elim (eq-cases p j) [
        | inl e ↦ absurd (none≢some (sym away ∙ ap home e ∙ q.threaded.home_of_In 2 j i))
        | inr n ↦ ap (λ (r : Proc). r.priority) (update_ne k.proc (f (k.proc p)) n)
      ]

module _ (k : Kernel) (c p : ℕ) (home : Home) (view : View) (h : Held k c p home view) where
  pub Held-modify : (f : Proc → Proc) → IsMild f (k.proc p) → Held (modify k p f) c p home view
  Held-modify f m = record {
    queued = modify-Queued k home view p f m h.away h.queued;
    states = λ j n. rw (update_ne k.proc (f (k.proc p)) (λ e. n (sym e))) (h.states j n);
    away = h.away;
    here = h.here;
    on_cpu =
        λ d x n e. rw (update_ne k.proc (f (k.proc p)) (λ g. n (other d x e g))) (h.on_cpu d x n e);
    slots = h.slots;
    one_cpu = h.one_cpu;
    ticks = h.ticks;
    locked = h.locked;
  }
    where
      other : (d x : ℕ) → k.cpu d ≡ some x → p ≡ x → d ≡ c
      other d x e g = h.one_cpu d c x e (h.here ∙ ap some g)

  -- The level of a process in range.
  pub small_level : leb (k.proc p).queuelevel 2 ≡ true
  small_level = let fits = h.queued.levels p in rw h.away at fits

  pub in_table : p < nproc
  in_table = h.slots c p h.here

  -- Other globals of the scheduler may change.
  pub Held-same :
      (k' : Kernel)
      → k'.proc ≡ k.proc
      → k'.queue ≡ k.queue
      → k'.cpu ≡ k.cpu
      → k'.locked ≡ k.locked
      → k'.global_ticks ≤ 100
      → Held k' c p home view
  Held-same k' e f g l ticks = record {
    queued = record {
      threaded = rw (e, f) h.queued.threaded;
      levels = rw e h.queued.levels;
      sorted = rw e h.queued.sorted;
    };
    states = rw e h.states;
    away = h.away;
    here = rw g h.here;
    on_cpu = rw (e, g) h.on_cpu;
    slots = rw g h.slots;
    one_cpu = rw g h.one_cpu;
    ticks = ticks;
    locked = l ∙ h.locked;
  }

  -- The process has come on the queue `i`, and its state fits.
  pub leave :
      (k' : Kernel) (i : QueueId) (view' : View)
      → SameGlobals k k'
      → Queued k' (update home p (some i)) view'
      → state_fits (some i) (k.proc p).state ≡ true
      → Leaving k' c (update home p (some i)) view'
  leave k' i view' same q f = record {
    live = record {
      queued = q;
      states = λ j. rw (same_state same j) (elim (eq-cases p j) [
        | inl e ↦ rw (← e, update_self home p (some i)) f
        | inr n ↦ rw (update_ne home (some i) n) (h.states j (λ e. n (sym e)))
      ]);
    };
    on_cpu = λ d x n. rw same.cpu (λ e. same_state same x ∙ h.on_cpu d x n e);
    slots = λ d x. rw same.cpu (h.slots d x);
    one_cpu = λ d e x. rw same.cpu (h.one_cpu d e x);
    ticks = rw same.global_ticks h.ticks;
    locked = same.locked ∙ h.locked;
  }

  -- The process stays on no queue.
  pub leave_away : state_fits none (k.proc p).state ≡ true → Leaving k c home view
  leave_away f = record {
    live = record {
      queued = h.queued;
      states = λ j. elim (eq-cases p j) [
        | inl e ↦ rw (← e, h.away) f
        | inr n ↦ h.states j (λ e. n (sym e))
      ];
    };
    on_cpu = h.on_cpu;
    slots = h.slots;
    one_cpu = h.one_cpu;
    ticks = h.ticks;
    locked = h.locked;
  }
