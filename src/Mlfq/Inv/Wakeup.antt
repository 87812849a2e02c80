-- ===== src/Mlfq/Inv/Wakeup.antt =====
-- `wakeup1` wakes every process that sleeps on the channel, and no other.
use hyu_os.Prelude.{
  ℕ, zero, suc, ◌+◌, ◌<◌, ◌≡◌, refl, sym, ◌∙◌, ap, ◌≢◌, inl, inr, Bool, true, false, none, some,
  List, [], ◌∷◌, ◌++◌, append_assoc, arith, length, first, Fresh, In, erase, eq-cases, Bool-cases,
  update, update_self, update_ne, leb,
}
use hyu_os.Mlfq.State.{ProcState, runnable, Proc, Chan, nproc, sleep_queue}
use hyu_os.Mlfq.Kernel.{Kernel, set_state, unqueue}
use hyu_os.Mlfq.Queue.Chain.{unlinked, Chain-split, In-middle, Fresh-not_In, Distinct-middle}
use hyu_os.Mlfq.Queue.Delete.{erase-middle}
use hyu_os.Mlfq.Sleep.{chan_eq, rouse, wakeup_loop, wakeup1}
use hyu_os.Mlfq.Inv.Threaded.{Home, View, SameGlobals, length-view}
use hyu_os.Mlfq.Inv.Level.{
  Queued, state_fits, same_state, same_level, insert_level_lem, level_list, unqueue-Queued,
}
use hyu_os.Mlfq.Inv.Live.{Live}
use hyu_os.Mlfq.Inv.Held.{modify-Queued}
use hyu_os.Mlfq.Inv.Pick.{level_small}

abbrev pub awake : Proc → Proc
awake r = record r { state = runnable }

-- The globals of the scheduler that waking leaves alone.
pub record SameCpu (k k' : Kernel) : Type 0 where
  pub lockproc : k'.lockproc ≡ k.lockproc
  pub unlockproc : k'.unlockproc ≡ k.unlockproc
  pub global_ticks : k'.global_ticks ≡ k.global_ticks
  pub initproc : k'.initproc ≡ k.initproc
  pub cpu : k'.cpu ≡ k.cpu
  pub locked : k'.locked ≡ k.locked

not_sleep_queue : (l : ℕ) → leb l 2 ≡ true → l ≢ sleep_queue
not_sleep_queue l e = ground arith

fits_runnable :
    (l : ℕ) (st : ProcState) → leb l 2 ≡ true → st ≡ runnable → state_fits (some l) st ≡ true
fits_runnable l st h e = rw e h

-- One process has been woken.
pub record Roused (k k' : Kernel) (home : Home) (view : View) (p : ℕ) : Type 0 where
  pub home' : Home
  pub view' : View
  pub live : Live k' home' view'
  pub globals : SameCpu k k'
  pub woken : unlinked (k'.proc p) ≡ unlinked (awake (k.proc p))
  pub others : (j : ℕ) → j ≢ p → unlinked (k'.proc j) ≡ unlinked (k.proc j)
  pub placed : home' p ≡ some (k.proc p).queuelevel
  pub kept : (j : ℕ) → j ≢ p → home' j ≡ home j
  pub sleepers : view' sleep_queue ≡ erase p (view sleep_queue)

module _ (k : Kernel) (home : Home) (view : View) (live : Live k home view) (p : ℕ)
    (on : home p ≡ some sleep_queue) where
  abbrev off_queue : Kernel
  off_queue = unqueue k sleep_queue p

  abbrev ready : Kernel
  ready = set_state off_queue p runnable

  abbrev home₁ : Home
  home₁ = update home p none

  abbrev view₁ : View
  view₁ = update view sleep_queue (erase p (view sleep_queue))

  p-level : leb (k.proc p).queuelevel 2 ≡ true
  p-level = level_small (home p) _ (live.queued.levels p)

  off : SameGlobals k off_queue × Queued off_queue home₁ view₁
  off = unqueue-Queued k home view live.queued p sleep_queue on

  ready-proc : ready.proc p ≡ awake (off_queue.proc p)
  ready-proc = update_self off_queue.proc p (awake (off_queue.proc p))

  ready-other : (j : ℕ) → j ≢ p → ready.proc j ≡ off_queue.proc j
  ready-other j n = update_ne off_queue.proc (awake (off_queue.proc p)) (λ e. n (sym e))

  ready-level : (ready.proc p).queuelevel ≡ (k.proc p).queuelevel
  ready-level = ap (λ (r : Proc). r.queuelevel) ready-proc ∙ same_level off.0 p

  ready-level_small : leb (ready.proc p).queuelevel 2 ≡ true
  ready-level_small = ap (λ l. leb l 2) ready-level ∙ p-level

  ready-Queued : Queued ready home₁ view₁
  ready-Queued =
      modify-Queued off_queue home₁ view₁ p awake
        (record { prev = refl; next = refl; level = rw (same_level off.0 p) p-level })
        (update_self home p none) off.1

  ready_fits : state_fits (some (ready.proc p).queuelevel) (ready.proc p).state ≡ true
  ready_fits =
      fits_runnable (ready.proc p).queuelevel (ready.proc p).state (ready-level_small)
        (ap (λ (r : Proc). r.state) ready-proc)

  pub rouse_lem : (k' : Kernel) × (rouse k p ≡ some k') × Roused k k' home view p
  unfolding rouse
  rouse_lem =
      let (k', e, r) =
        insert_level_lem ready home₁ view₁ ready-Queued p (update_self home p none)
          (live.queued.threaded.in_table sleep_queue p on) in
      let l = (ready.proc p).queuelevel in
      (
        k',
        e,
        record {
          home' = update home₁ p (some l);
          view' = update view₁ l (
              level_list ready home₁ view₁ ready-Queued p (update_self home p none)
                (live.queued.threaded.in_table sleep_queue p on) l);
          live = record {
            queued = r.queued;
            states = λ j. rw (same_state r.same j) (elim (eq-cases p j) [
              | inl h ↦ rw (← h, update_self home₁ p (some l)) ready_fits
              | inr n ↦
                  rw
                    (
                      update_ne home₁ (some l) n,
                      update_ne home none n,
                      ready-other j (λ h. n (sym h)),
                      same_state off.0 j,
                    )
                    (live.states j)
            ]);
          };
          globals = record {
            lockproc = r.same.lockproc ∙ off.0.lockproc;
            unlockproc = r.same.unlockproc ∙ off.0.unlockproc;
            global_ticks = r.same.global_ticks ∙ off.0.global_ticks;
            initproc = r.same.initproc ∙ off.0.initproc;
            cpu = r.same.cpu ∙ off.0.cpu;
            locked = r.same.locked ∙ off.0.locked;
          };
          woken = r.same.contents p ∙ ap unlinked ready-proc ∙ ap awake (off.0.contents p);
          others = λ j n. r.same.contents j ∙ ap unlinked (ready-other j n) ∙ off.0.contents j;
          placed = update_self home₁ p (some l) ∙ ap some ready-level;
          kept = λ j n.
              update_ne home₁ (some l) (λ e. n (sym e)) ∙ update_ne home none (λ e. n (sym e));
          sleepers =
              update_ne view₁ _ (not_sleep_queue l ready-level_small)
              ∙ update_self view sleep_queue (erase p (view sleep_queue));
        },
      )

-- The sleepers `xs` have been gone through: those on the channel are awake, and no other process
-- has changed.
pub record Woke (k k' : Kernel) (ch : Chan) (xs : List ℕ) : Type 0 where
  pub home' : Home
  pub view' : View
  pub live : Live k' home' view'
  pub globals : SameCpu k k'
  pub woken :
      (j : ℕ)
      → In j xs
      → chan_eq (k.proc j).chan ch ≡ true
      → unlinked (k'.proc j) ≡ unlinked (awake (k.proc j))
  pub others :
      (j : ℕ)
      → (In j xs → chan_eq (k.proc j).chan ch ≡ false)
      → unlinked (k'.proc j) ≡ unlinked (k.proc j)

SameCpu-refl : (k : Kernel) → SameCpu k k
SameCpu-refl k = record {
  lockproc = refl;
  unlockproc = refl;
  global_ticks = refl;
  initproc = refl;
  cpu = refl;
  locked = refl;
}

SameCpu-trans : {k l m : Kernel} → SameCpu k l → SameCpu l m → SameCpu k m
SameCpu-trans a b = record {
  lockproc = b.lockproc ∙ a.lockproc;
  unlockproc = b.unlockproc ∙ a.unlockproc;
  global_ticks = b.global_ticks ∙ a.global_ticks;
  initproc = b.initproc ∙ a.initproc;
  cpu = b.cpu ∙ a.cpu;
  locked = b.locked ∙ a.locked;
}

same_chan : (a b : Proc) → unlinked a ≡ unlinked b → a.chan ≡ b.chan
same_chan a b e = ap (λ (r : Proc). r.chan) e

true≢false : (b : Bool) → b ≡ true → b ≡ false → ⊥
true≢false b e f = cc

module _ (k : Kernel) (home : Home) (view : View) (ch : Chan) (p : ℕ) (xs : List ℕ)
    (fresh : Fresh p xs) where
  Woke-hit :
      (k₁ k' : Kernel)
      → chan_eq (k.proc p).chan ch ≡ true
      → Roused k k₁ home view p
      → Woke k₁ k' ch xs
      → Woke k k' ch (p ∷ xs)
  Woke-hit k₁ k' hit r w = record {
    home' = w.home';
    view' = w.view';
    live = w.live;
    globals = SameCpu-trans r.globals w.globals;
    woken = λ j m c. elim (eq-cases j p) [
      | inl e ↦ rw e (w.others p (λ i. absurd (Fresh-not_In p xs fresh i)) ∙ r.woken)
      | inr n ↦
          let same = r.others j n in
          w.woken j (elim m [ inl e ↦ absurd (n e) | inr i ↦ i ])
            (ap (λ x. chan_eq x ch) (same_chan (k₁.proc j) (k.proc j) same) ∙ c)
          ∙ ap awake same
    ];
    others = λ j h. elim (eq-cases j p) [
      | inl e ↦ absurd (true≢false _ hit (rw e at (h (inl e))))
      | inr n ↦
          let same = r.others j n in
          w.others j
            (λ i. ap (λ x. chan_eq x ch) (same_chan (k₁.proc j) (k.proc j) same) ∙ h (inr i))
          ∙ same
    ];
  }

  Woke-miss :
      (k' : Kernel) → chan_eq (k.proc p).chan ch ≡ false → Woke k k' ch xs → Woke k k' ch (p ∷ xs)
  Woke-miss k' miss w = record {
    home' = w.home';
    view' = w.view';
    live = w.live;
    globals = w.globals;
    woken = λ j m c. elim m [
      | inl e ↦ absurd (true≢false _ c (ap (λ x. chan_eq (k.proc x).chan ch) e ∙ miss))
      | inr i ↦ w.woken j i c
    ];
    others = λ j h. w.others j (λ i. h (inr i));
  }

module _ (ch : Chan) where
  -- The walk of `wakeup1` over the sleepers ends within its rounds.
  wakeup_loop_lem :
      (f : ℕ) (k : Kernel) (home : Home) (view : View) (ys xs : List ℕ)
      → Live k home view
      → view sleep_queue ≡ ys ++ xs
      → length xs < f
      → (k' : Kernel) × (wakeup_loop f k ch (first xs none) ≡ some k') × Woke k k' ch xs
  unfolding wakeup_loop
  wakeup_loop_lem zero k home view ys xs live v h = absurd (omega arith)
  wakeup_loop_lem (suc f) k home view ys [] live v h = (
    k,
    refl,
    record {
      home' = home;
      view' = view;
      live = live;
      globals = SameCpu-refl k;
      woken = λ j m c. absurd m;
      others = λ j c. refl;
    },
  )
  wakeup_loop_lem (suc f) k home view ys (p ∷ xs) live v h =
      let is = live.queued.threaded.queues sleep_queue in
      let chain = (Chain-split k.proc none ys (p ∷ xs) none (rw v at is.chain)).1 in
      let (fy, fx, d) = Distinct-middle ys p xs (rw v at is.distinct) in
      let on = live.queued.threaded.home_of_In sleep_queue p (rw v (In-middle ys p xs)) in
      elim (Bool-cases (chan_eq (k.proc p).chan ch)) [
        | inl hit ↦
            let (k₁, e, r) = rouse_lem k home view live p on in
            let left : r.view' sleep_queue ≡ ys ++ xs =
              r.sleepers ∙ ap (erase p) v ∙ erase-middle p ys xs fy in
            let (k', g, w) = wakeup_loop_lem f k₁ r.home' r.view' ys xs r.live left (omega arith) in
            (k', rw (hit, e, chain.1) g, Woke-hit k home view ch p xs fx k₁ k' hit r w)
        | inr miss ↦
            let (k', g, w) =
              wakeup_loop_lem f k home view (ys ++ (p ∷ [])) xs live
                (rw (append_assoc ys (p ∷ []) xs) v) (omega arith) in
            (k', rw (miss, chain.1) g, Woke-miss k home view ch p xs fx k' miss w)
      ]

  -- `wakeup1` never faults on a well-formed kernel. Every process of the sleep queue that sleeps
  -- on the channel becomes runnable and keeps every other field but its links, every other
  -- process keeps every field but its links, and the kernel stays well formed.
  pub wakeup1_lem :
      (k : Kernel) (home : Home) (view : View)
      → Live k home view
      → (k' : Kernel) × (wakeup1 k ch ≡ some k') × Woke k k' ch (view sleep_queue)
  unfolding wakeup1
  wakeup1_lem k home view live =
      let is = live.queued.threaded.queues sleep_queue in
      let short = length-view k.proc k.queue home view live.queued.threaded sleep_queue in
      rw is.head
        (wakeup_loop_lem (nproc + 1) k home view [] (view sleep_queue) live refl (omega arith))
