-- ===== src/Mlfq/Inv/Exiting.antt =====
-- `exit` and the end of `sleep`.
use hyu_os.Prelude.{
  ℕ, ◌<◌, ◌≡◌, refl, sym, ◌∙◌, ap, subst, ◌≢◌, ◌⊎◌, inl, inr, Bool, true, false, Option, none, some,
  arith, Bool-cases, update, update_self, update_ne,
}
use hyu_os.Mlfq.State.{zombie, sleeping, running, runnable, Proc, nproc, Chan, no_chan}
use hyu_os.Mlfq.Kernel.{Kernel, acquire, modify, set_state}
use hyu_os.Mlfq.Queue.{points_to}
use hyu_os.Mlfq.Sched.{releasemlfq, sched}
use hyu_os.Mlfq.Sleep.{chan_eq, wakeup1, resume_sleep}
use hyu_os.Mlfq.Life.{ptr_chan, is_zombie, closed, adopt_loop, exit_locked, exit}
use hyu_os.Mlfq.Inv.Threaded.{Home, View}
use hyu_os.Mlfq.Inv.Live.{Inv, Inv-same, Settled, releasemlfq_lem}
use hyu_os.Mlfq.Inv.Calm.{modify_keeps}
use hyu_os.Mlfq.Inv.Placing.{calm-Inv}
use hyu_os.Mlfq.Inv.Doom.{running≢sleeping}
use hyu_os.Mlfq.Inv.Stirring.{
  Stirs, Stirs-trans, Stirs-zombie, Wakes, Wakes-then, then-Wakes, wakeup1-GoesOn,
}
use hyu_os.Mlfq.Inv.Reaping.{is_child}
use hyu_os.Mlfq.Inv.Adopting.{Orphaned, adopt_loop-GoesOn}
use hyu_os.Mlfq.Inv.Wake.{release_lem}
use hyu_os.Mlfq.Inv.Held.{Held, hold, Held-modify, Held-same, small_level, leave_away}
use hyu_os.Mlfq.Inv.Yield.{EndsIn, sched-Settled}

-- A process of a CPU under the lock becomes a zombie and gives the CPU up.
abbrev gone : Kernel → ℕ → Kernel
gone k p = record (set_state k p zombie) { lockproc = none }

die :
    (k : Kernel) (c p : ℕ) (home : Home) (view : View)
    → Inv k home view
    → k.cpu c ≡ some p
    → k.locked ≡ true
    → (k' : Kernel) × (home' : Home) × (view' : View) × (sched c p
          (releasemlfq (set_state k p zombie))
        ≡ some k')
      × Inv k' home' view'
      × Settled (gone k p) k' c
die k c p home view inv e l =
    let h = hold k c p home view inv e in
    let h₀ : Held k c p home view =
      Held-same (record k { locked = true }) c p home view h k refl refl refl l h.ticks in
    let dead : Proc → Proc = λ r. record r { state = zombie } in
    let k₁ = set_state k p zombie in
    let h₁ : Held k₁ c p home view =
      Held-modify k c p home view h₀ dead
        (record { prev = refl; next = refl; level = small_level k c p home view h₀ }) in
    let k₂ = gone k p in
    let h₂ = Held-same k₁ c p home view h₁ k₂ refl refl refl refl h₁.ticks in
    let st : (k₂.proc p).state ≡ zombie =
      ap (λ (r : Proc). r.state) (update_self k.proc p (dead (k.proc p))) in
    rw (releasemlfq_lem k₁)
      (sched-Settled k₂ c p home view (leave_away k₂ c p home view h₂ (rw st refl)) (rw st refl))

exit_locked-eq :
    (k : Kernel) (c p : ℕ) (k₂ k₃ : Kernel)
    → k.locked ≡ false
    → wakeup1 (record k { locked = true }) (ptr_chan (k.proc p).parent) ≡ some k₂
    → adopt_loop nproc 0 k₂ p ≡ some k₃
    → exit_locked c p k ≡ sched c p (releasemlfq (set_state k₃ p zombie))
unfolding exit_locked acquire
exit_locked-eq k c p k₂ k₃ free e₂ e₃ = rw (free, e₂, e₃) refl

-- What `exit` of the process `p` of CPU `c` leaves.
pub record Exits (k k' : Kernel) (c p : ℕ) : Type 0 where
  pub dead : (k'.proc p).state ≡ zombie
  pub cpu : k'.cpu ≡ update k.cpu c none
  pub unheld : k'.lockproc ≡ none
  pub free : k'.locked ≡ false
  pub states :
      (j : ℕ)
      → p ≢ j
      → ((k'.proc j).state ≡ (k.proc j).state)
        ⊎ (((k.proc j).state ≡ sleeping) × ((k'.proc j).state ≡ runnable))
  pub parent_woken : Wakes k k' (ptr_chan (k.proc p).parent)
  pub children : (j : ℕ) → j < nproc → is_child k p j ≡ true → (k'.proc j).parent ≡ k.initproc
  pub strangers : (j : ℕ) → is_child k p j ≡ false → (k'.proc j).parent ≡ (k.proc j).parent
  pub init_woken :
      (z : ℕ)
      → z < nproc
      → is_child k p z ≡ true
      → is_zombie (k.proc z).state ≡ true
      → Wakes k k' (ptr_chan k.initproc)

-- The end of `exit` after the table has been gone through.
module _ (k k₂ k₃ k' : Kernel) (c p : ℕ) (run : (k.proc p).state ≡ running) (s : Stirs k k₂)
    (par : (j : ℕ) → (k₂.proc j).parent ≡ (k.proc j).parent)
    (w : Wakes k k₂ (ptr_chan (k.proc p).parent)) (t : Stirs k₂ k₃) (o : Orphaned k₂ k₃ p 0 nproc)
    (d : Settled (gone k₃ p) k' c) where
  awake_other : (j : ℕ) → (k.proc j).state ≡ sleeping → p ≢ j
  awake_other j e h = running≢sleeping (sym run ∙ ap (λ x. (k.proc x).state) h ∙ e)

  last_state : (j : ℕ) → p ≢ j → (k'.proc j).state ≡ (k₃.proc j).state
  last_state j n =
      d.states j
      ∙ ap (λ (r : Proc). r.state) (update_ne k₃.proc (record (k₃.proc p) { state = zombie }) n)

  last_parent : (j : ℕ) → (k'.proc j).parent ≡ (k₃.proc j).parent
  last_parent j =
      d.parents j ∙ modify_keeps k₃ p (λ r. record r { state = zombie }) (λ r. r.parent) refl j

  last_Wakes : (ch : Chan) → Wakes k k₃ ch → Wakes k k' ch
  last_Wakes ch v j e m = last_state j (awake_other j e) ∙ v j e m

  child_same : (j : ℕ) → is_child k₂ p j ≡ is_child k p j
  child_same j = ap (λ x. points_to x p) (par j)

  exit-Exits : Exits k k' c p
  exit-Exits = record {
    dead =
        d.states p
        ∙ ap (λ (r : Proc). r.state)
            (update_self k₃.proc p (record (k₃.proc p) { state = zombie }));
    cpu = d.cpu ∙ ap (λ f. update f c none) (t.cpu ∙ s.cpu);
    unheld = d.unheld refl;
    free = d.free;
    states = λ j n. elim ((Stirs-trans s t).states j) [
      | inl e ↦ inl (last_state j n ∙ e)
      | inr (e, f) ↦ inr (e, last_state j n ∙ f)
    ];
    parent_woken = last_Wakes _ (Wakes-then k k₂ k₃ (ptr_chan (k.proc p).parent) w t);
    children = λ j lt y.
        last_parent j ∙ o.children j (omega arith) (omega arith) (child_same j ∙ y) ∙ s.initproc;
    strangers = λ j y. last_parent j ∙ o.strangers j (child_same j ∙ y) ∙ par j;
    init_woken = λ z lt y dead. last_Wakes _ (
        then-Wakes k k₂ k₃ (ptr_chan k.initproc) s
          (subst (λ x. Wakes k₂ k₃ (ptr_chan x)) s.initproc
            (o.woken z (omega arith) (omega arith) (child_same z ∙ y) (Stirs-zombie s z dead)))
          t);
  }

exit_locked_lem :
    (k : Kernel) (c p : ℕ) (home : Home) (view : View)
    → Inv k home view
    → k.cpu c ≡ some p
    → k.locked ≡ false
    → (k' : Kernel) × (home' : Home) × (view' : View) × (exit_locked c p k ≡ some k')
      × Inv k' home' view'
      × Exits k k' c p
exit_locked_lem k c p home view inv e free =
    let k₁ = record k { locked = true } in
    let inv₁ = Inv-same k k₁ home view refl refl refl inv.ticks inv in
    let (k₂, home₂, view₂, e₂, inv₂, s₂, (w, par)) =
      wakeup1-GoesOn k₁ home view (ptr_chan (k.proc p).parent) inv₁ in
    let (k₃, home₃, view₃, e₃, inv₃, s₃, o) = adopt_loop-GoesOn nproc 0 k₂ home₂ view₂ p inv₂ in
    let (k', home', view', e', inv', d) =
      die k₃ c p home₃ view₃ inv₃ (ap (λ (f : ℕ → Option ℕ). f c) (s₃.cpu ∙ s₂.cpu) ∙ e)
        (s₃.locked ∙ s₂.locked) in
    let x = exit-Exits k₁ k₂ k₃ k' c p (inv.on_cpu c p e) s₂ par w s₃ o d in
    (
      k',
      home',
      view',
      exit_locked-eq k c p k₂ k₃ free e₂ e₃ ∙ e',
      inv',
      record {
        dead = x.dead;
        cpu = x.cpu;
        unheld = x.unheld;
        free = x.free;
        states = x.states;
        parent_woken = x.parent_woken;
        children = x.children;
        strangers = x.strangers;
        init_woken = x.init_woken;
      },
    )

-- Closing the files of `p` first makes no difference to this.
module _ (k k' : Kernel) (c p : ℕ) (x : Exits (modify k p closed) k' c p) where
  closed-state : (j : ℕ) → ((modify k p closed).proc j).state ≡ (k.proc j).state
  closed-state = modify_keeps k p closed (λ r. r.state) refl

  closed-parent : (j : ℕ) → ((modify k p closed).proc j).parent ≡ (k.proc j).parent
  closed-parent = modify_keeps k p closed (λ r. r.parent) refl

  closed-chan : (j : ℕ) → ((modify k p closed).proc j).chan ≡ (k.proc j).chan
  closed-chan = modify_keeps k p closed (λ r. r.chan) refl

  closed-child : (j : ℕ) → is_child (modify k p closed) p j ≡ is_child k p j
  closed-child j = ap (λ y. points_to y p) (closed-parent j)

  closed-Wakes : (ch : Chan) → Wakes (modify k p closed) k' ch → Wakes k k' ch
  closed-Wakes ch w j e m = w j (closed-state j ∙ e) (ap (λ y. chan_eq y ch) (closed-chan j) ∙ m)

  closed-Exits : Exits k k' c p
  closed-Exits = record {
    dead = x.dead;
    cpu = x.cpu;
    unheld = x.unheld;
    free = x.free;
    states = λ j n. elim (x.states j n) [
      | inl e ↦ inl (e ∙ closed-state j)
      | inr (e, f) ↦ inr (sym (closed-state j) ∙ e, f)
    ];
    parent_woken =
        subst (λ y. Wakes k k' (ptr_chan y)) (closed-parent p) (closed-Wakes _ x.parent_woken);
    children = λ j lt y. x.children j lt (closed-child j ∙ y);
    strangers = λ j y. x.strangers j (closed-child j ∙ y) ∙ closed-parent j;
    init_woken = λ z lt y dead.
        closed-Wakes _
          (x.init_woken z lt (closed-child z ∙ y) (ap is_zombie (closed-state z) ∙ dead));
  }

-- On a well-formed kernel with `ptable.lock` free, `exit` of the process `p` that CPU `c` runs,
-- which is not init, never faults and leaves a well-formed kernel with `ptable.lock` free: `p` is
-- a zombie and CPU `c` idle, nobody holds the scheduler lock, whoever slept on the parent of `p` is
-- runnable, every child of `p` in the table has init as its parent and no other process has
-- another parent, and where one of these children is a zombie, whoever slept on init is runnable.
-- No other state changes but from sleeping to runnable.
pub exit_lem :
    (k : Kernel) (c p : ℕ) (home : Home) (view : View)
    → Inv k home view
    → k.cpu c ≡ some p
    → points_to k.initproc p ≡ false
    → k.locked ≡ false
    → (k' : Kernel) × (home' : Home) × (view' : View) × (exit c k ≡ some k')
      × Inv k' home' view'
      × Exits k k' c p
unfolding exit
exit_lem k c p home view inv e other free =
    let k₁ = modify k p closed in
    let inv₁ =
      calm-Inv k home view p closed
        (record { prev = refl; next = refl; queuelevel = refl; priority = refl }) refl inv in
    let (k', home', view', f, inv', x) = exit_locked_lem k₁ c p home view inv₁ e free in
    (k', home', view', rw (e, other) f, inv', closed-Exits k k' c p x)

pub exit-Inv :
    (k : Kernel) (c p : ℕ) (home : Home) (view : View)
    → Inv k home view
    → k.cpu c ≡ some p
    → points_to k.initproc p ≡ false
    → k.locked ≡ false
    → EndsIn (exit c k)
exit-Inv k c p home view inv e other free =
    let (k', home', view', f, inv', x) = exit_lem k c p home view inv e other free in
    (k', home', view', f, inv')

-- The end of `sleep`, when the process runs again, keeps the invariant.
pub resume_sleep-Inv :
    (k : Kernel) (c p : ℕ) (own : Bool) (home : Home) (view : View)
    → Inv k home view
    → k.cpu c ≡ some p
    → k.locked ≡ true
    → EndsIn (resume_sleep c own k)
unfolding resume_sleep
resume_sleep-Inv k c p own home view inv e l =
    let k₁ = modify k p (λ r. record r { chan = no_chan }) in
    let inv₁ : Inv k₁ home view =
      calm-Inv k home view p (λ r. record r { chan = no_chan })
        (record { prev = refl; next = refl; queuelevel = refl; priority = refl }) refl inv in
    elim (Bool-cases own) [
      | inl y ↦ (k₁, home, view, rw (e, y) refl, inv₁)
      | inr n ↦ (
        record k₁ { locked = false },
        home,
        view,
        rw (e, n) (release_lem k₁ l),
        Inv-same k₁ _ home view refl refl refl inv₁.ticks inv₁,
      )
    ]
