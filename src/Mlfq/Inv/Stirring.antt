-- ===== src/Mlfq/Inv/Stirring.antt =====
-- What `wakeup1` and the loop of `exit` over the table leave of other processes.
use hyu_os.Prelude.{
  ℕ, ◌≡◌, refl, sym, ◌∙◌, ap, ◌≢◌, ◌⊎◌, inl, inr, true, false, Option, some, In, Bool-cases,
}
use hyu_os.Mlfq.State.{ProcState, sleeping, runnable, Proc, Chan, sleep_queue}
use hyu_os.Mlfq.Kernel.{Kernel}
use hyu_os.Mlfq.Queue.Chain.{unlinked}
use hyu_os.Mlfq.Sleep.{chan_eq, is_sleeping, wakeup1}
use hyu_os.Mlfq.Life.{is_zombie}
use hyu_os.Mlfq.Inv.Threaded.{Home, View}
use hyu_os.Mlfq.Inv.Level.{state_fits}
use hyu_os.Mlfq.Inv.Live.{Inv}
use hyu_os.Mlfq.Inv.Doom.{home_sleeping, sleeping-eq}
use hyu_os.Mlfq.Inv.Wakeup.{Woke, awake, wakeup1_lem}
use hyu_os.Mlfq.Inv.Wake.{Woke-Inv}

-- Sleepers may have become runnable; no other state and no channel has changed.
pub record Stirs (k k' : Kernel) : Type 0 where
  pub chan : (j : ℕ) → (k'.proc j).chan ≡ (k.proc j).chan
  pub states :
      (j : ℕ)
      → ((k'.proc j).state ≡ (k.proc j).state)
        ⊎ (((k.proc j).state ≡ sleeping) × ((k'.proc j).state ≡ runnable))
  pub initproc : k'.initproc ≡ k.initproc
  pub cpu : k'.cpu ≡ k.cpu
  pub locked : k'.locked ≡ k.locked

pub Stirs-refl : (k : Kernel) → Stirs k k
Stirs-refl k = record {
  chan = λ j. refl;
  states = λ j. inl refl;
  initproc = refl;
  cpu = refl;
  locked = refl;
}

pub Stirs-trans : {k l m : Kernel} → Stirs k l → Stirs l m → Stirs k m
Stirs-trans a b = record {
  chan = λ j. b.chan j ∙ a.chan j;
  states = λ j. elim (a.states j) [
    | inl e ↦ elim (b.states j) [ inl f ↦ inl (f ∙ e) | inr (f, g) ↦ inr (sym e ∙ f, g) ]
    | inr (e, e') ↦ elim (b.states j) [ inl f ↦ inr (e, f ∙ e') | inr (f, g) ↦ inr (e, g) ]
  ];
  initproc = b.initproc ∙ a.initproc;
  cpu = b.cpu ∙ a.cpu;
  locked = b.locked ∙ a.locked;
}

pub runnable≢sleeping : runnable ≢ sleeping
runnable≢sleeping e = absurd (let g = ap is_sleeping e in cc)

-- A process that does not sleep keeps its state.
pub Stirs-keeps :
    {k k' : Kernel}
    → Stirs k k'
    → (j : ℕ) (st : ProcState) → (k.proc j).state ≡ st
    → st ≢ sleeping
    → (k'.proc j).state ≡ st
Stirs-keeps s j st e n = elim (s.states j) [ inl f ↦ f ∙ e | inr (f, g) ↦ absurd (n (sym e ∙ f)) ]

-- A zombie stays one.
pub Stirs-zombie :
    {k k' : Kernel}
    → Stirs k k'
    → (j : ℕ) → is_zombie (k.proc j).state ≡ true
    → is_zombie (k'.proc j).state ≡ true
Stirs-zombie s j z = elim (s.states j) [
  | inl f ↦ ap is_zombie f ∙ z
  | inr (f, g) ↦ absurd (let h = sym (ap is_zombie f) ∙ z in cc)
]

-- Every sleeper on the channel has become runnable.
abbrev pub Wakes : Kernel → Kernel → Chan → Type 0
Wakes k k' ch =
    (j : ℕ)
    → (k.proc j).state ≡ sleeping
    → chan_eq (k.proc j).chan ch ≡ true
    → (k'.proc j).state ≡ runnable

pub Wakes-then : (k l m : Kernel) (ch : Chan) → Wakes k l ch → Stirs l m → Wakes k m ch
Wakes-then k l m ch w s j e c = Stirs-keeps s j runnable (w j e c) runnable≢sleeping

pub then-Wakes : (k l m : Kernel) (ch : Chan) → Stirs k l → Wakes l m ch → Stirs l m → Wakes k m ch
then-Wakes k l m ch s w t j e c = elim (s.states j) [
  | inl f ↦ w j (f ∙ e) (ap (λ x. chan_eq x ch) (s.chan j) ∙ c)
  | inr (f, g) ↦ Stirs-keeps t j runnable g runnable≢sleeping
]

module _ (k : Kernel) (home : Home) (view : View) (inv : Inv k home view) (ch : Chan) where
  sleeps_in : (j : ℕ) → (k.proc j).state ≡ sleeping → In j (view sleep_queue)
  sleeps_in j e =
      let fit = inv.live.states j in
      inv.live.queued.threaded.In_of_home sleep_queue j (home_sleeping (home j) (rw e at fit))

  not_in : (j : ℕ) → is_sleeping (k.proc j).state ≡ false → In j (view sleep_queue) → ⊥
  not_in j n m =
      let fit = inv.live.states j in
      let on = inv.live.queued.threaded.home_of_In sleep_queue j m in
      fits (k.proc j).state (rw on at fit) n
    where
      fits : (st : ProcState) → state_fits (some 3) st ≡ true → is_sleeping st ≡ false → ⊥
      fits ProcState.sleeping e = cc
      fits ProcState.unused e = cc
      fits ProcState.embryo e = cc
      fits ProcState.runnable e = cc
      fits ProcState.running e = cc
      fits ProcState.zombie e = cc

  module _ (k' : Kernel) (w : Woke k k' ch (view sleep_queue)) where
    -- A field that waking leaves alone.
    Woke-keeps :
        {A : Type 0} (g : Proc → A)
        → ((r : Proc) → g (unlinked r) ≡ g r)
        → ((r : Proc) → g (unlinked (awake r)) ≡ g r)
        → (j : ℕ) → g (k'.proc j) ≡ g (k.proc j)
    Woke-keeps g u a j = elim (Bool-cases (is_sleeping (k.proc j).state)) [
      | inr n ↦ sym (u (k'.proc j)) ∙ ap g (w.others j (λ m. absurd (not_in j n m))) ∙ u (k.proc j)
      | inl y ↦ elim (Bool-cases (chan_eq (k.proc j).chan ch)) [
        | inr n ↦ sym (u (k'.proc j)) ∙ ap g (w.others j (λ m. n)) ∙ u (k.proc j)
        | inl c ↦
            sym (u (k'.proc j)) ∙ ap g (w.woken j (sleeps_in j (sleeping-eq _ y)) c) ∙ a (k.proc j)
      ]
    ]

    Woke-Wakes : Wakes k k' ch
    Woke-Wakes j e c = ap (λ (r : Proc). r.state) (w.woken j (sleeps_in j e) c)

    Woke-Stirs : Stirs k k'
    Woke-Stirs = record {
      chan = Woke-keeps (λ r. r.chan) (λ r. refl) (λ r. refl);
      states = λ j. elim (Bool-cases (is_sleeping (k.proc j).state)) [
        | inr n ↦ inl (ap (λ (r : Proc). r.state) (w.others j (λ m. absurd (not_in j n m))))
        | inl y ↦ elim (Bool-cases (chan_eq (k.proc j).chan ch)) [
          | inr n ↦ inl (ap (λ (r : Proc). r.state) (w.others j (λ m. n)))
          | inl c ↦ inr (sleeping-eq _ y, Woke-Wakes j (sleeping-eq _ y) c)
        ]
      ];
      initproc = w.globals.initproc;
      cpu = w.globals.cpu;
      locked = w.globals.locked;
    }

-- A kernel under the lock that is well formed again, where only sleepers have been woken, and in
-- which `P` holds.
abbrev pub GoesOn : Kernel → (Kernel → Type 0) → Option Kernel → Type 0
GoesOn k P r =
    (k' : Kernel) × (home' : Home) × (view' : View) × (r ≡ some k')
    × Inv k' home' view'
    × Stirs k k'
    × P k'

abbrev pub SameParent : Kernel → Kernel → ℕ → Type 0
SameParent k k' j = (k'.proc j).parent ≡ (k.proc j).parent

-- `wakeup1` under the lock.
pub wakeup1-GoesOn :
    (k : Kernel) (home : Home) (view : View) (ch : Chan)
    → Inv k home view
    → GoesOn k (λ k'. Wakes k k' ch × ((j : ℕ) → SameParent k k' j)) (wakeup1 k ch)
wakeup1-GoesOn k home view ch inv =
    let (k', e, w) = wakeup1_lem ch k home view inv.live in
    (
      k',
      w.home',
      w.view',
      e,
      Woke-Inv k k' home view ch inv w,
      Woke-Stirs k home view inv ch k' w,
      (
        Woke-Wakes k home view inv ch k' w,
        Woke-keeps k home view inv ch k' w (λ r. r.parent) (λ r. refl) (λ r. refl),
      ),
    )
