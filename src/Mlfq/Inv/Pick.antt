-- ===== src/Mlfq/Inv/Pick.antt =====
-- The choice of the scheduler: the first process of the first level that has one.
use mathlib.Core.Option.{some-injective}
use hyu_os.Prelude.{
  ℕ, ◌≤◌, ◌<◌, ◌≡◌, refl, sym, ◌∙◌, ap, ◌≢◌, ◌⊎◌, inl, inr, true, false, Option, none, some, List,
  [], ◌∷◌, arith, erase, eq-cases, List-cases, update, update_self, update_ne, leb,
}
use hyu_os.Mlfq.State.{ProcState, running, runnable, Proc, QueueId}
use hyu_os.Mlfq.Kernel.{Kernel, acquire, release, set_state, take_first}
use hyu_os.Mlfq.Queue.{queue_is_empty}
use hyu_os.Mlfq.Sched.{choose, dispatch, scheduler_pick}
use hyu_os.Mlfq.Inv.Threaded.{Home, View, Unqueued, take_first_lem}
use hyu_os.Mlfq.Inv.Level.{Queued, level_fits, state_fits, same_state, same_level, Queued-Unqueued}
use hyu_os.Mlfq.Inv.Live.{Live, Inv, Inv-same}
use hyu_os.Mlfq.Inv.Held.{modify-Queued}
use hyu_os.Mlfq.Inv.Yield.{EndsIn}

-- What the levels hold, and whom `choose` takes.
abbrev pub Choice : Kernel → View → Type 0
Choice k view =
    ((view 0 ≡ []) × (view 1 ≡ []) × (view 2 ≡ []) × (choose k ≡ (none, k)))
    ⊎ ((i : QueueId) × (p : ℕ) × (xs : List ℕ) × (i ≤ 2)
        × ((j : QueueId) → j < i → view j ≡ [])
        × (view i ≡ p ∷ xs)
        × (choose k ≡ take_first k i))

below_two : (view : View) → view 0 ≡ [] → view 1 ≡ [] → (j : QueueId) → j < 2 → view j ≡ []
below_two view a b j h = elim (eq-cases j 0) [
  | inl e ↦ rw e a
  | inr n ↦ let one : j ≡ 1 = omega arith in rw one b
]

module _ (k : Kernel) (home : Home) (view : View) (q : Queued k home view) where
  empty_of_nil : (i : QueueId) → view i ≡ [] → queue_is_empty (k.queue i) ≡ true
  empty_of_nil i e = let head = (q.threaded.queues i).head in rw (head, e) refl

  full_of_cons :
      (i : QueueId) (x : ℕ) (xs : List ℕ) → view i ≡ x ∷ xs → queue_is_empty (k.queue i) ≡ false
  full_of_cons i x xs e = let head = (q.threaded.queues i).head in rw (head, e) refl

  -- Where the queues thread the processes without overlap, the scheduler dequeues from the first
  -- level that holds a process, and leaves the kernel as it is only if all three are empty.
  pub choose_lem : Choice k view
  unfolding choose
  choose_lem = elim (List-cases (view 0)) [
    | inr (p, xs, e) ↦
        inr
          (0, p, xs, omega arith, (λ j h. absurd (omega arith)), e, rw (full_of_cons 0 p xs e) refl)
    | inl a ↦ elim (List-cases (view 1)) [
      | inr (p, xs, e) ↦ inr (
        1,
        p,
        xs,
        omega arith,
        (λ j h. let z : j ≡ 0 = omega arith in rw z a),
        e,
        rw (empty_of_nil 0 a, full_of_cons 1 p xs e) refl,
      )
      | inl b ↦ elim (List-cases (view 2)) [
        | inr (p, xs, e) ↦ inr (
          2,
          p,
          xs,
          omega arith,
          below_two view a b,
          e,
          rw (empty_of_nil 0 a, empty_of_nil 1 b, full_of_cons 2 p xs e) refl,
        )
        | inl c ↦ inl (a, b, c, rw (empty_of_nil 0 a, empty_of_nil 1 b, empty_of_nil 2 c) refl)
      ]
    ]
  ]

runnable_of_fits :
    (i : QueueId) (st : ProcState) → i ≤ 2 → state_fits (some i) st ≡ true → st ≡ runnable
runnable_of_fits i ProcState.runnable h e = refl
runnable_of_fits i ProcState.unused h e = absurd (ground arith)
runnable_of_fits i ProcState.sleeping h e = absurd (ground arith)
runnable_of_fits i ProcState.embryo h e = cc
runnable_of_fits i ProcState.running h e = cc
runnable_of_fits i ProcState.zombie h e = cc

runnable≢running : ◌≡◌ {A = ProcState} runnable running → ⊥
runnable≢running e = cc

pub level_small : (h : Option QueueId) (l : ℕ) → level_fits h l ≡ true → leb l 2 ≡ true
level_small none l e = e
level_small (some i) l e = ground arith

-- The kernel with `p`, off its queue, running on CPU `c`.
module _ (k : Kernel) (c p : ℕ) (i : QueueId) (home : Home) (view : View) (inv : Inv k home view)
    (idle : k.cpu c ≡ none) (on : home p ≡ some i) (low : i ≤ 2) (k₁ : Kernel)
    (u : Unqueued k k₁ home view i p) where
  abbrev dispatched : Kernel
  dispatched = set_state (record k₁ { cpu = update k₁.cpu c (some p) }) p running

  was_runnable : (k.proc p).state ≡ runnable
  was_runnable = let s = inv.live.states p in runnable_of_fits i (k.proc p).state low (rw on at s)

  -- Nobody else runs `p`.
  not_elsewhere : (d x : ℕ) → k.cpu d ≡ some x → p ≢ x
  not_elsewhere d x e h =
      runnable≢running (sym was_runnable ∙ ap (λ y. (k.proc y).state) h ∙ inv.on_cpu d x e)

  cpu_same : k₁.cpu ≡ k.cpu
  cpu_same = u.same.cpu

  -- Who is on a CPU now.
  on_now :
      (d x : ℕ)
      → update k.cpu c (some p) d ≡ some x
      → ((d ≡ c) × (x ≡ p)) ⊎ ((d ≢ c) × (k.cpu d ≡ some x))
  on_now d x e = elim (eq-cases c d) [
    | inl h ↦ inl (
      sym h,
      sym (
          some-injective _ _
            (sym (update_self k.cpu c (some p)) ∙ ap (update k.cpu c (some p)) h ∙ e)),
    )
    | inr n ↦ inr ((λ h. n (sym h)), (rw (update_ne k.cpu (some p) n) at e))
  ]

  dispatched-Live : Live dispatched (update home p none) (update view i (erase p (view i)))
  dispatched-Live =
      let k₂ = record k₁ { cpu = update k₁.cpu c (some p) } in
      let q = Queued-Unqueued k home view inv.live.queued p i k₁ u on in
      let q₂ : Queued k₂ (update home p none) (update view i (erase p (view i))) = record {
        threaded = q.threaded;
        levels = q.levels;
        sorted = q.sorted;
      } in
      let fits = inv.live.queued.levels p in
      record {
        queued =
            modify-Queued k₂ (update home p none) (update view i (erase p (view i))) p
              (λ r. record r { state = running })
              (record {
                prev = refl;
                next = refl;
                level = rw (same_level u.same p) (level_small (home p) _ fits);
              })
              (update_self home p none) q₂;
        states = λ j. elim (eq-cases p j) [
          | inl e ↦
              rw
                (
                  ← e,
                  update_self home p none,
                  update_self k₁.proc p (record (k₁.proc p) { state = running }),
                )
                refl
          | inr n ↦
              rw
                (
                  update_ne home none n,
                  update_ne k₁.proc (record (k₁.proc p) { state = running }) n,
                  same_state u.same j,
                )
                (inv.live.states j)
        ];
      }

  dispatched-Inv : Inv dispatched (update home p none) (update view i (erase p (view i)))
  dispatched-Inv = record {
    live = dispatched-Live;
    on_cpu = λ d x. rw cpu_same (λ e. elim (on_now d x e) [
      | inl (h, g) ↦ rw (g, update_self k₁.proc p (record (k₁.proc p) { state = running })) refl
      | inr (h, g) ↦
          ap (λ (r : Proc). r.state)
            (update_ne k₁.proc (record (k₁.proc p) { state = running }) (not_elsewhere d x g))
          ∙ same_state u.same x
          ∙ inv.on_cpu d x g
    ]);
    slots = λ d x. rw cpu_same (λ e. elim (on_now d x e) [
      | inl (h, g) ↦ rw g (inv.live.queued.threaded.in_table i p on)
      | inr (h, g) ↦ inv.slots d x g
    ]);
    one_cpu = λ d e x. rw cpu_same (λ f g. alone d e x (on_now d x f) (on_now e x g));
    ticks = rw u.same.global_ticks inv.ticks;
  }
    where
      alone :
          (d e x : ℕ)
          → ((d ≡ c) × (x ≡ p)) ⊎ ((d ≢ c) × (k.cpu d ≡ some x))
          → ((e ≡ c) × (x ≡ p)) ⊎ ((e ≢ c) × (k.cpu e ≡ some x))
          → d ≡ e
      alone d e x (inl (a, b)) (inl (a', b')) = a ∙ sym a'
      alone d e x (inl (a, b)) (inr (a', b')) = absurd (not_elsewhere e x b' (sym b))
      alone d e x (inr (a, b)) (inl (a', b')) = absurd (not_elsewhere d x b (sym b'))
      alone d e x (inr (a, b)) (inr (a', b')) = inv.one_cpu d e x b b'

scheduler_pick-eq :
    (c : ℕ) (k : Kernel)
    → k.locked ≡ false
    → scheduler_pick c k ≡ dispatch c (choose (record k { locked = true }))
unfolding scheduler_pick acquire
scheduler_pick-eq c k f = ground arith

-- On a well-formed kernel with `ptable.lock` free, a round of the scheduler on an idle CPU never
-- faults and leaves a well-formed kernel, whether it finds a process or not.
pub scheduler_pick-Inv :
    (k : Kernel) (c : ℕ) (home : Home) (view : View)
    → Inv k home view
    → k.cpu c ≡ none
    → k.locked ≡ false
    → EndsIn (scheduler_pick c k)
unfolding dispatch release
scheduler_pick-Inv k c home view inv idle free =
    let k₀ = record k { locked = true } in
    let inv₀ = Inv-same k k₀ home view refl refl refl inv.ticks inv in
    elim (choose_lem k₀ home view inv₀.live.queued) [
      | inl (a, b, c', e) ↦ (
        record k { locked = false },
        home,
        view,
        scheduler_pick-eq c k free ∙ ap (dispatch c) e,
        Inv-same k _ home view refl refl refl inv.ticks inv,
      )
      | inr (i, p, xs, low, above, v, e) ↦
          let (f, u) = take_first_lem k₀ home view inv₀.live.queued.threaded i p xs v in
          let on = inv₀.live.queued.threaded.home_of_In i p (rw v (inl refl)) in
          (
            _,
            _,
            _,
            scheduler_pick-eq c k free ∙ ap (dispatch c) (e ∙ ap (λ t. (t, (take_first k₀ i).1)) f),
            dispatched-Inv k₀ c p i home view inv₀ idle on low (take_first k₀ i).1 u,
          )
    ]
