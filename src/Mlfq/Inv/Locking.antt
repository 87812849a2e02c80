-- ===== src/Mlfq/Inv/Locking.antt =====
-- `schedulerLock` and `schedulerUnlock` keep the invariant.
use hyu_os.Prelude.{
  ℕ, ◌≡◌, ◌≢◌, refl, sym, ◌∙◌, ap, ◌⊎◌, inl, inr, Bool-cases, Bool, true, false, Option, none, some,
  ◌>>=◌, arith, eq-cases, update, update_self, update_ne,
}
use hyu_os.Prelude.Int.{ℤ}
use hyu_os.Mlfq.State.{running, Proc, Ptr}
use hyu_os.Mlfq.Kernel.{Kernel, acquire, release, modify}
use hyu_os.Mlfq.Sched.{boosted}
use hyu_os.Mlfq.Lock.{
  lock_over, unlock_over, mlfqlock, mlfqunlock, is_password, scheduler_lock, scheduler_unlock,
}
use hyu_os.Mlfq.Queue.{points_to}
use hyu_os.Mlfq.Life.{exit}
use hyu_os.Mlfq.Inv.Threaded.{Home, View, none≢some}
use hyu_os.Mlfq.Inv.Exiting.{exit-Inv}
use hyu_os.Mlfq.Inv.Live.{Inv, Inv-same, away_of_running}
use hyu_os.Mlfq.Inv.Held.{IsMild, modify-Queued}
use hyu_os.Mlfq.Inv.Wake.{release_lem}

-- A mild change to a process that runs, which leaves it running.
pub modify-Inv :
    (k : Kernel) (home : Home) (view : View) (p : ℕ) (f : Proc → Proc)
    → IsMild f (k.proc p)
    → (f (k.proc p)).state ≡ (k.proc p).state
    → (k.proc p).state ≡ running
    → Inv k home view
    → Inv (modify k p f) home view
modify-Inv k home view p f m st r inv = record {
  live = record {
    queued = modify-Queued k home view p f m (away_of_running p inv.live r) inv.live.queued;
    states = λ j. rw (same j) (inv.live.states j);
  };
  on_cpu = λ c x e. same x ∙ inv.on_cpu c x e;
  slots = inv.slots;
  one_cpu = inv.one_cpu;
  ticks = inv.ticks;
}
  where
    same : (j : ℕ) → ((modify k p f).proc j).state ≡ (k.proc j).state
    same j = elim (eq-cases p j) [
      | inl e ↦
          ap (λ (x : Proc). x.state)
            (ap (update k.proc p (f (k.proc p))) (sym e) ∙ update_self k.proc p (f (k.proc p)))
          ∙ st
          ∙ ap (λ x. (k.proc x).state) e
      | inr n ↦ ap (λ (x : Proc). x.state) (update_ne k.proc (f (k.proc p)) n)
    ]

module _ (k : Kernel) (p : ℕ) (home : Home) (view : View) (inv : Inv k home view)
    (r : (k.proc p).state ≡ running) where
  lock_over-Inv : (q : Ptr) → Inv (lock_over k p q) home view
  unfolding lock_over
  lock_over-Inv none = Inv-same k _ home view refl refl refl (omega arith) inv
  lock_over-Inv (some x) = inv

  unlock_over-Inv : (q : Ptr) → Inv (unlock_over k p q) home view
  unfolding unlock_over
  unlock_over-Inv none = inv
  unlock_over-Inv (some x) =
      let k₁ = record k { lockproc = none; unlockproc = some p } in
      modify-Inv k₁ home view p boosted (record { prev = refl; next = refl; level = refl }) refl r
        (Inv-same k k₁ home view refl refl refl inv.ticks inv)

lock_over-locked : (k : Kernel) (p : ℕ) (q : Ptr) → (lock_over k p q).locked ≡ k.locked
unfolding lock_over
lock_over-locked k p none = refl
lock_over-locked k p (some x) = refl

unlock_over-locked : (k : Kernel) (p : ℕ) (q : Ptr) → (unlock_over k p q).locked ≡ k.locked
unfolding unlock_over
unlock_over-locked k p none = refl
unlock_over-locked k p (some x) = refl

-- The scheduler lock after `mlfqlock` of `p`.
abbrev pub taken_by : ℕ → Ptr → Ptr
taken_by p none = some p
taken_by p (some x) = some x

lock_over-taken :
    (k : Kernel) (p : ℕ) (q : Ptr)
    → k.lockproc ≡ q
    → ((lock_over k p q).lockproc ≡ taken_by p q)
      × (q ≡ none → (lock_over k p q).global_ticks ≡ 0)
      × ((lock_over k p q).proc ≡ k.proc)
unfolding lock_over
lock_over-taken k p none e = (refl, (λ _. refl), refl)
lock_over-taken k p (some x) e = (e, (λ h. absurd (none≢some (sym h))), refl)

unlock_over-given :
    (k : Kernel) (p : ℕ) (q : Ptr)
    → k.lockproc ≡ q
    → ((unlock_over k p q).lockproc ≡ none)
      × (q ≢ none
          → ((unlock_over k p q).unlockproc ≡ some p)
            × ((unlock_over k p q).proc p ≡ boosted (k.proc p)))
unfolding unlock_over
unlock_over-given k p none e = (e, λ n. absurd (n refl))
unlock_over-given k p (some x) e = (refl, λ n. (refl, update_self k.proc p (boosted (k.proc p))))

abbrev and_true : Option Kernel → Option (Bool × Kernel)
and_true m = m >>= λ k'. some (true, k')

-- The password is right and the call returns a kernel with `P`, or it is wrong: then init
-- panics, and any other process has left by `exit`.
abbrev pub Guarded : Bool → Bool → (Kernel → Type 0) → Option (Bool × Kernel) → Type 0
Guarded right init P r =
    ((k' : Kernel) × (home' : Home) × (view' : View) × (right ≡ true)
      × (r ≡ some (true, k'))
      × Inv k' home' view'
      × P k')
    ⊎ ((k' : Kernel) × (home' : Home) × (view' : View) × (right ≡ false)
        × (init ≡ false)
        × (r ≡ some (false, k'))
        × Inv k' home' view')
    ⊎ ((right ≡ false) × (init ≡ true) × (r ≡ none))

lock-eq :
    (pw : ℤ) (k : Kernel) (c p : ℕ)
    → is_password pw ≡ true
    → k.cpu c ≡ some p
    → k.locked ≡ false
    → scheduler_lock pw c k
      ≡ (release (lock_over (record k { locked = true }) p k.lockproc) >>= λ k'. some (true, k'))
unfolding scheduler_lock mlfqlock acquire
lock-eq pw k c p g e f = rw (e, g, f) refl

unlock-eq :
    (pw : ℤ) (k : Kernel) (c p : ℕ)
    → is_password pw ≡ true
    → k.cpu c ≡ some p
    → k.locked ≡ false
    → scheduler_unlock pw c k
      ≡ (release (unlock_over (record k { locked = true }) p k.lockproc) >>= λ k'. some (true, k'))
unfolding scheduler_unlock mlfqunlock acquire
unlock-eq pw k c p g e f = rw (e, g, f) refl

abbrev and_false : Option Kernel → Option (Bool × Kernel)
and_false m = m >>= λ k'. some (false, k')

lock_wrong :
    (pw : ℤ) (k : Kernel) (c p : ℕ)
    → is_password pw ≡ false
    → k.cpu c ≡ some p
    → scheduler_lock pw c k ≡ (exit c k >>= λ k'. some (false, k'))
unfolding scheduler_lock
lock_wrong pw k c p g e = rw (e, g) refl

unlock_wrong :
    (pw : ℤ) (k : Kernel) (c p : ℕ)
    → is_password pw ≡ false
    → k.cpu c ≡ some p
    → scheduler_unlock pw c k ≡ (exit c k >>= λ k'. some (false, k'))
unfolding scheduler_unlock
unlock_wrong pw k c p g e = rw (e, g) refl

init_panics :
    (k : Kernel) (c p : ℕ) → k.cpu c ≡ some p → points_to k.initproc p ≡ true → exit c k ≡ none
unfolding exit
init_panics k c p e f = rw (e, f) refl

module _ (pw : ℤ) (k : Kernel) (c p : ℕ) (home : Home) (view : View) (inv : Inv k home view)
    (e : k.cpu c ≡ some p) (free : k.locked ≡ false) where
  abbrev held : Kernel
  held = record k { locked = true }

  held-Inv : Inv held home view
  held-Inv = Inv-same k held home view refl refl refl inv.ticks inv

  freed : (k₁ : Kernel) → Inv k₁ home view → Inv (record k₁ { locked = false }) home view
  freed k₁ i = Inv-same k₁ _ home view refl refl refl i.ticks i

  leaves :
      points_to k.initproc p ≡ false
      → (k' : Kernel) × (home' : Home) × (view' : View) × (and_false (exit c k) ≡ some (false, k'))
        × Inv k' home' view'
  leaves other =
      let (k', home', view', f, inv') = exit-Inv k c p home view inv e other free in
      (k', home', view', ap and_false f, inv')

  -- What `schedulerLock` leaves for `p` with the right password.
  abbrev pub Locks : Kernel → Type 0
  Locks k' =
      (k'.lockproc ≡ taken_by p k.lockproc)
      × (k.lockproc ≡ none → k'.global_ticks ≡ 0)
      × (k'.proc ≡ k.proc)

  -- What `schedulerUnlock` leaves for `p` with the right password.
  abbrev pub Unlocks : Kernel → Type 0
  Unlocks k' =
      (k'.lockproc ≡ none)
      × (k.lockproc ≢ none → (k'.unlockproc ≡ some p) × (k'.proc p ≡ boosted (k.proc p)))

  pub scheduler_lock-Inv :
      Guarded (is_password pw) (points_to k.initproc p) Locks (scheduler_lock pw c k)
  scheduler_lock-Inv = elim (Bool-cases (is_password pw)) [
    | inl g ↦
        let l = lock_over held p k.lockproc in
        inl (
          record l { locked = false },
          home,
          view,
          g,
          lock-eq pw k c p g e free
              ∙ ap and_true (release_lem l (lock_over-locked held p k.lockproc)),
          freed l (lock_over-Inv held p home view held-Inv (inv.on_cpu c p e) k.lockproc),
          lock_over-taken held p k.lockproc refl,
        )
    | inr g ↦ elim (Bool-cases (points_to k.initproc p)) [
      | inl init ↦
          inr (inr (g, init, lock_wrong pw k c p g e ∙ ap and_false (init_panics k c p e init)))
      | inr other ↦
          let (k', home', view', f, inv') = leaves other in
          inr (inl (k', home', view', g, other, lock_wrong pw k c p g e ∙ f, inv'))
    ]
  ]

  pub scheduler_unlock-Inv :
      Guarded (is_password pw) (points_to k.initproc p) Unlocks (scheduler_unlock pw c k)
  scheduler_unlock-Inv = elim (Bool-cases (is_password pw)) [
    | inl g ↦
        let l = unlock_over held p k.lockproc in
        inl (
          record l { locked = false },
          home,
          view,
          g,
          unlock-eq pw k c p g e free
              ∙ ap and_true (release_lem l (unlock_over-locked held p k.lockproc)),
          freed l (unlock_over-Inv held p home view held-Inv (inv.on_cpu c p e) k.lockproc),
          unlock_over-given held p k.lockproc refl,
        )
    | inr g ↦ elim (Bool-cases (points_to k.initproc p)) [
      | inl init ↦
          inr (inr (g, init, unlock_wrong pw k c p g e ∙ ap and_false (init_panics k c p e init)))
      | inr other ↦
          let (k', home', view', f, inv') = leaves other in
          inr (inl (k', home', view', g, other, unlock_wrong pw k c p g e ∙ f, inv'))
    ]
  ]
