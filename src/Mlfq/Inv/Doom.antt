-- ===== src/Mlfq/Inv/Doom.antt =====
-- What `kill` does to the process that it finds.
use hyu_os.Prelude.{
  ℕ, ◌≡◌, refl, sym, ◌∙◌, ap, ◌≢◌, inl, inr, true, false, Option, none, some, arith, Bool-cases,
  update_self, update_ne, if◌then◌else◌,
}
use hyu_os.Mlfq.State.{ProcState, runnable, sleeping, running, Proc, sleep_queue}
use hyu_os.Mlfq.Kernel.{Kernel, modify, set_state}
use hyu_os.Mlfq.Sleep.{is_sleeping, kill_proc}
use hyu_os.Mlfq.Queue.Chain.{unlinked}
use hyu_os.Mlfq.Inv.Threaded.{Home, View}
use hyu_os.Mlfq.Inv.Level.{Queued, state_fits, same_state}
use hyu_os.Mlfq.Inv.Live.{Inv}
use hyu_os.Mlfq.Inv.Calm.{modify_keeps, calm-Queued, transfer_lem}

abbrev pub dying : Proc → Proc
dying r = record r { killed = true }

-- What `kill` makes of the process: it is marked, and runnable where it slept.
abbrev pub doomed : Proc → Proc
doomed r = if is_sleeping r.state then record r { killed = true; state = runnable } else dying r

-- Only `p` has changed, but for links, and only as `kill` changes it.
pub record Doomed (k k' : Kernel) (p : ℕ) : Type 0 where
  pub marked : unlinked (k'.proc p) ≡ unlinked (doomed (k.proc p))
  pub others : (j : ℕ) → p ≢ j → unlinked (k'.proc j) ≡ unlinked (k.proc j)
  pub cpu : k'.cpu ≡ k.cpu
  pub global_ticks : k'.global_ticks ≡ k.global_ticks
  pub locked : k'.locked ≡ k.locked

pub sleeping-eq : (st : ProcState) → is_sleeping st ≡ true → st ≡ sleeping
sleeping-eq ProcState.sleeping e = refl
sleeping-eq ProcState.unused e = cc
sleeping-eq ProcState.embryo e = cc
sleeping-eq ProcState.runnable e = cc
sleeping-eq ProcState.running e = cc
sleeping-eq ProcState.zombie e = cc

pub home_sleeping : (h : Option ℕ) → state_fits h sleeping ≡ true → h ≡ some sleep_queue
home_sleeping none e = cc
home_sleeping (some i) e = ap some (ground arith)

pub running≢sleeping : running ≢ sleeping
running≢sleeping e = absurd (let g = ap is_sleeping e in cc)

module _ (k : Kernel) (home : Home) (view : View) (inv : Inv k home view) (p : ℕ) where
  abbrev marked : Kernel
  marked = modify k p dying

  abbrev woken : Kernel
  woken = set_state marked p runnable

  -- What is to be shown of `kill_proc`.
  abbrev pub DoomsIn : Option Kernel → Type 0
  DoomsIn r =
      (k' : Kernel) × (home' : Home) × (view' : View) × (r ≡ some k')
      × Inv k' home' view'
      × Doomed k k' p

  marked-Queued : Queued marked home view
  marked-Queued =
      calm-Queued k home view p dying
        (record { prev = refl; next = refl; queuelevel = refl; priority = refl }) inv.live.queued

  marked_state : (j : ℕ) → (marked.proc j).state ≡ (k.proc j).state
  marked_state = modify_keeps k p dying (λ r. r.state) refl

  woken-Queued : Queued woken home view
  woken-Queued =
      calm-Queued marked home view p (λ r. record r { state = runnable })
        (record { prev = refl; next = refl; queuelevel = refl; priority = refl }) marked-Queued

  woken_self : woken.proc p ≡ record (k.proc p) { killed = true; state = runnable }
  woken_self =
      update_self marked.proc p (record (marked.proc p) { state = runnable })
      ∙ ap (λ (r : Proc). record r { state = runnable }) (update_self k.proc p (dying (k.proc p)))

  woken_other : (j : ℕ) → p ≢ j → woken.proc j ≡ k.proc j
  woken_other j n =
      update_ne marked.proc (record (marked.proc p) { state = runnable }) n
      ∙ update_ne k.proc (dying (k.proc p)) n

  -- A process that does not sleep is only marked.
  doom_awake : is_sleeping (k.proc p).state ≡ false → DoomsIn (kill_proc k p)
  unfolding kill_proc
  doom_awake s = (
    marked,
    home,
    view,
    rw s refl,
    record {
      live = record {
        queued = marked-Queued;
        states = λ j. rw (marked_state j) (inv.live.states j);
      };
      on_cpu = λ c x e. marked_state x ∙ inv.on_cpu c x e;
      slots = inv.slots;
      one_cpu = inv.one_cpu;
      ticks = inv.ticks;
    },
    record {
      marked = rw s (ap unlinked (update_self k.proc p (dying (k.proc p))));
      others = λ j n. ap unlinked (update_ne k.proc (dying (k.proc p)) n);
      cpu = refl;
      global_ticks = refl;
      locked = refl;
    },
  )

  -- A process that sleeps is also moved to the queue of its level.
  doom_asleep : is_sleeping (k.proc p).state ≡ true → DoomsIn (kill_proc k p)
  unfolding kill_proc
  doom_asleep s =
      let st : (k.proc p).state ≡ sleeping = sleeping-eq (k.proc p).state s in
      let fit = inv.live.states p in
      let on : home p ≡ some sleep_queue = home_sleeping (home p) (rw st at fit) in
      let (k', home', view', e, live, same) =
        transfer_lem woken home view woken-Queued p on (ap (λ (r : Proc). r.state) woken_self)
          (λ j n. rw (woken_other j n) (inv.live.states j)) in
      (
        k',
        home',
        view',
        rw s e,
        record {
          live = live;
          on_cpu = λ c x. rw same.cpu (λ g.
              let run = inv.on_cpu c x g in
              same_state same x
              ∙ ap (λ (r : Proc). r.state)
                  (woken_other x
                    (λ h. running≢sleeping (sym run ∙ ap (λ y. (k.proc y).state) (sym h) ∙ st)))
              ∙ run);
          slots = rw same.cpu inv.slots;
          one_cpu = rw same.cpu inv.one_cpu;
          ticks = rw same.global_ticks inv.ticks;
        },
        record {
          marked = rw s (same.contents p ∙ ap unlinked woken_self);
          others = λ j n. same.contents j ∙ ap unlinked (woken_other j n);
          cpu = same.cpu;
          global_ticks = same.global_ticks;
          locked = same.locked;
        },
      )

  pub kill_proc_lem : DoomsIn (kill_proc k p)
  kill_proc_lem = elim (Bool-cases (is_sleeping (k.proc p).state)) [
    | inl s ↦ doom_asleep s
    | inr s ↦ doom_awake s
  ]
