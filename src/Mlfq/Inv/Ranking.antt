-- ===== src/Mlfq/Inv/Ranking.antt =====
-- `setPriority` of a process that is on the queue of its level.
use mathlib.Core.Bool.{false≢true}
use mathlib.Core.Option.{some-injective}
use hyu_os.Prelude.{
  ℕ, zero, suc, ◌+◌, ◌<◌, ◌≡◌, refl, sym, ◌∙◌, ap, ◌≢◌, inl, inr, Bool, true, false, ◌&&◌, Option,
  none, some, List, [], ◌∷◌, arith, first, In, erase, eq-cases, Bool-cases, Option-cases, leb,
  subst, update, update_self, update_ne, if◌then◌else◌, ◌==◌,
}
use hyu_os.Prelude.Int.{ℤ, ltb_ℤ}
use hyu_os.Mlfq.State.{ProcState, runnable, Procs, Proc, Ptr, nproc}
use hyu_os.Mlfq.Kernel.{Kernel, acquire, modify, unqueue}
use hyu_os.Mlfq.Queue.Chain.{Chain, IsQueue, unlinked}
use hyu_os.Mlfq.Priority.{higher_loop, higherpriority_proc, insert_level}
use hyu_os.Mlfq.Lock.{last_pid, is_runnable, is_unused, rearrange, set_priority, arrange_queue}
use hyu_os.Mlfq.Inv.Members.{not_In-erase}
use hyu_os.Mlfq.Inv.Threaded.{
  Home, View, Threaded, Threaded-same, SameGlobals, unqueue_lem, length-view, none≢some,
}
use hyu_os.Mlfq.Inv.Sorted.{
  first_higher, Ascending-same, erase-Ascending, priority_of, higher_loop_lem,
}
use hyu_os.Mlfq.Inv.Level.{
  Queued, level_fits, state_fits, same_state, same_level, same_priority, higherpriority_proc_lem,
  enqueue_sorted-Entered,
}
use hyu_os.Mlfq.Inv.Live.{Inv, Inv-same}
use hyu_os.Mlfq.Inv.Calm.{modify_keeps}
use hyu_os.Mlfq.Inv.Wake.{release_lem}
use hyu_os.Mlfq.Inv.Yield.{EndsIn}

-- The same walk, with `p` left out.
first_higher-erase :
    (pr : ℕ → ℤ) (p : ℕ) (xs : List ℕ)
    → first_higher pr (pr p) xs ≡ first_higher pr (pr p) (erase p xs)
unfolding first_higher erase
first_higher-erase pr p [] = refl
first_higher-erase pr p (x ∷ xs) = elim (eq-cases x p) [
  | inl e ↦
      let y : (x == p) ≡ true = ground arith in
      let n : ltb_ℤ (pr p) (pr x) ≡ false = rw e (not_below (pr p)) in rw (y, n) refl
  | inr m ↦
      let n : (x == p) ≡ false = ground arith in
      rw n (ap (λ r. if ltb_ℤ (pr p) (pr x) then some x else r) (first_higher-erase pr p xs))
]
  where
    not_below : (v : ℤ) → ltb_ℤ v v ≡ false
    not_below v = ground arith

abbrev pub ranked : ℤ → Proc → Proc
ranked v r = record r { priority = v }

module _ (k : Kernel) (home : Home) (view : View) (inv : Inv k home view) (p : ℕ) (v : ℤ) where
  abbrev k₁ : Kernel
  k₁ = modify k p (ranked v)

  keeps :
      {A : Type 0} (g : Proc → A)
      → (g (ranked v (k.proc p)) ≡ g (k.proc p))
      → (j : ℕ) → g (k₁.proc j) ≡ g (k.proc j)
  keeps g e = modify_keeps k p (ranked v) g e

  k₁-Threaded : Threaded k₁.proc k₁.queue home view
  k₁-Threaded =
      Threaded-same k.proc k.queue home view inv.live.queued.threaded k₁.proc
        (λ j. (keeps (λ r. r.prev) refl j, keeps (λ r. r.next) refl j))

  k₁-levels : (j : ℕ) → level_fits (home j) (k₁.proc j).queuelevel ≡ true
  k₁-levels j = rw (keeps (λ r. r.queuelevel) refl j) (inv.live.queued.levels j)

  k₁-states : (j : ℕ) → state_fits (home j) (k₁.proc j).state ≡ true
  k₁-states j = rw (keeps (λ r. r.state) refl j) (inv.live.states j)

  k₁-priority : (j : ℕ) → p ≢ j → priority_of k₁.proc j ≡ priority_of k.proc j
  k₁-priority j n = ap (λ (r : Proc). r.priority) (update_ne k.proc (ranked v (k.proc p)) n)

  -- A process that is not on the lowest queue.
  elsewhere : home p ≢ some 2 → Inv k₁ home view
  elsewhere n = record {
    live = record {
      queued = record {
        threaded = k₁-Threaded;
        levels = k₁-levels;
        sorted =
            Ascending-same (priority_of k.proc) (priority_of k₁.proc) (view 2)
              (λ j m.
                k₁-priority j (λ h. n (ap home h ∙ inv.live.queued.threaded.home_of_In 2 j m)))
              inv.live.queued.sorted;
      };
      states = k₁-states;
    };
    on_cpu = λ c x e. keeps (λ r. r.state) refl x ∙ inv.on_cpu c x e;
    slots = inv.slots;
    one_cpu = inv.one_cpu;
    ticks = inv.ticks;
  }

  -- A well-formed kernel with the processes of `m`, but for links.
  abbrev pub RanksTo : Kernel → Option Kernel → Type 0
  RanksTo m r =
      (k' : Kernel) × (home' : Home) × (view' : View) × (r ≡ some k')
      × Inv k' home' view'
      × ((j : ℕ) → unlinked (k'.proc j) ≡ unlinked (m.proc j))
      × (k'.locked ≡ k.locked)

  -- A runnable process on the lowest queue.
  module _ (on : home p ≡ some 2) (two : (k.proc p).queuelevel ≡ 2) where
    abbrev k₂ : Kernel
    k₂ = unqueue k₁ 2 p

    abbrev home₂ : Home
    home₂ = update home p none

    abbrev view₂ : View
    view₂ = update view 2 (erase p (view 2))

    off : SameGlobals k₁ k₂ × Threaded k₂.proc k₂.queue home₂ view₂
    off = let u = unqueue_lem k₁ home view k₁-Threaded 2 p on in (u.same, u.threaded)

    rest-priority : (j : ℕ) → In j (erase p (view 2)) → priority_of k₂.proc j ≡ priority_of k.proc j
    rest-priority j m =
        same_priority off.0 j
        ∙ k₁-priority j (λ h.
          not_In-erase p (view 2) (inv.live.queued.threaded.queues 2).distinct
            (subst (λ x. In x (erase p (view 2))) (sym h) m))

    k₂-Queued : Queued k₂ home₂ view₂
    k₂-Queued = record {
      threaded = off.1;
      levels = λ j. rw (same_level off.0 j) (elim (eq-cases p j) [
        | inl h ↦
            let low : leb (k₁.proc p).queuelevel 2 ≡ true =
              rw (keeps (λ r. r.queuelevel) refl p, two) refl in
            rw (← h, update_self home p none) low
        | inr n ↦ rw (update_ne home none n) (k₁-levels j)
      ]);
      sorted = rw (update_self view 2 (erase p (view 2))) (
          Ascending-same (priority_of k.proc) (priority_of k₂.proc) (erase p (view 2)) rest-priority
            (erase-Ascending (priority_of k.proc) p (view 2) inv.live.queued.sorted));
    }

    below : p < nproc
    below = inv.live.queued.threaded.in_table 2 p on

    k₂-level : (k₂.proc p).queuelevel ≡ 2
    k₂-level = same_level off.0 p ∙ keeps (λ r. r.queuelevel) refl p ∙ two

    base_before :
        higherpriority_proc k₁ p
        ≡ some (first_higher (priority_of k₁.proc) (priority_of k₁.proc p) (view 2))
    unfolding higherpriority_proc
    base_before =
        let is = k₁-Threaded.queues 2 in
        let short = length-view k₁.proc k₁.queue home view k₁-Threaded 2 in
        ap (higher_loop (nproc + 1) k₁.proc (priority_of k₁.proc p)) is.head
        ∙ higher_loop_lem (nproc + 1) k₁.proc (priority_of k₁.proc p) none (view 2) (omega arith)
            is.chain

    same_priorities : priority_of k₂.proc ≡ priority_of k₁.proc
    same_priorities = λ i j. same_priority off.0 j i

    -- The base that is found before `p` is taken off is the one that would be found after.
    same_base : higherpriority_proc k₁ p ≡ higherpriority_proc k₂ p
    same_base =
        base_before
        ∙ ap some (first_higher-erase (priority_of k₁.proc) p (view 2))
        ∙ sym
            (λ i. some (first_higher (same_priorities i) (same_priorities i p) (erase p (view 2))))
        ∙ sym (higherpriority_proc_lem k₂ home₂ view₂ k₂-Queued p (update_self home p none) below)

    rearrange-eq : rearrange k₁ p ≡ insert_level k₂ p
    unfolding rearrange insert_level
    rearrange-eq =
        let low : ((k₂.proc p).queuelevel == 2) ≡ true = ground (arith, k₂-level) in
        rw (low, same_base) refl

    rearranged : RanksTo k₁ (rearrange k₁ p)
    rearranged =
        let (k', e, r) =
          enqueue_sorted-Entered k₂ home₂ view₂ k₂-Queued p (update_self home p none) below
            k₂-level in
        let same_cpu : k'.cpu ≡ k.cpu = r.same.cpu ∙ off.0.cpu in
        let still : (j : ℕ) → (k'.proc j).state ≡ (k.proc j).state =
          λ j. same_state r.same j ∙ same_state off.0 j ∙ keeps (λ x. x.state) refl j in
        (
          k',
          update home₂ p (some 2),
          _,
          rearrange-eq ∙ e,
          record {
            live = record {
              queued = r.queued;
              states = λ j. rw (still j) (elim (eq-cases p j) [
                | inl h ↦
                    rw (← h, update_self home₂ p (some 2))
                      (let fit = inv.live.states p in rw on at fit)
                | inr n ↦ rw (update_ne home₂ (some 2) n, update_ne home none n) (inv.live.states j)
              ]);
            };
            on_cpu = λ c x. rw same_cpu (λ g. still x ∙ inv.on_cpu c x g);
            slots = rw same_cpu inv.slots;
            one_cpu = rw same_cpu inv.one_cpu;
            ticks = rw (r.same.global_ticks ∙ off.0.global_ticks) inv.ticks;
          },
          λ j. r.same.contents j ∙ off.0.contents j,
          r.same.locked ∙ off.0.locked,
        )

  -- A runnable process of level 2 is on the lowest queue.
  abbrev pub InPlace : Type 0
  InPlace = (k.proc p).queuelevel ≡ 2 → (k.proc p).state ≡ runnable → home p ≡ some 2

  -- What `setPriority` makes of the slot: nothing where it is unused.
  abbrev pub given : Kernel
  given = if is_unused (k.proc p).state then k else k₁

  fits_lowest :
      (l : ℕ) (st : ProcState)
      → level_fits (some 2) l ≡ true
      → state_fits (some 2) st ≡ true
      → (l ≡ 2) × (st ≡ runnable)
  fits_lowest l ProcState.runnable e f = (ground arith, refl)
  fits_lowest l ProcState.unused e f = cc
  fits_lowest l ProcState.embryo e f = cc
  fits_lowest l ProcState.sleeping e f = cc
  fits_lowest l ProcState.running e f = cc
  fits_lowest l ProcState.zombie e f = cc

  runnable-eq : (st : ProcState) → is_runnable st ≡ true → st ≡ runnable
  runnable-eq ProcState.runnable e = refl
  runnable-eq ProcState.unused e = cc
  runnable-eq ProcState.embryo e = cc
  runnable-eq ProcState.sleeping e = cc
  runnable-eq ProcState.running e = cc
  runnable-eq ProcState.zombie e = cc

  abbrev moves : Bool
  moves = (k.proc p).queuelevel == 2 && is_runnable (k.proc p).state

  -- Where the slot is not moved it is not on the lowest queue.
  unmoved : moves ≡ false → home p ≢ some 2
  unmoved e on =
      let l = inv.live.queued.levels p in
      let s = inv.live.states p in
      let (two, run) =
        fits_lowest (k.proc p).queuelevel (k.proc p).state (rw on at l) (rw on at s) in
      absurd (false≢true (sym e ∙ rw (two, run) refl))

  moved : moves ≡ true → ((k.proc p).queuelevel ≡ 2) × ((k.proc p).state ≡ runnable)
  moved e = (ground arith, runnable-eq (k.proc p).state (ground arith))

  ranked_on : InPlace → is_unused (k.proc p).state ≡ false → RanksTo k₁ (set_priority k p v)
  unfolding set_priority
  ranked_on place used = elim (Bool-cases moves) [
    | inl m ↦
        let (two, run) = moved m in
        let (k', home', view', e, i, c, l) = rearranged (place two run) two in
        (k', home', view', rw (used, m) e, i, c, l)
    | inr m ↦ (k₁, home, view, rw (used, m) refl, elsewhere (unmoved m), (λ j. refl), refl)
  ]

  unranked : is_unused (k.proc p).state ≡ true → RanksTo k (set_priority k p v)
  unfolding set_priority
  unranked u = (k, home, view, rw u refl, inv, (λ j. refl), refl)

  -- `setPriority` of a slot of a well-formed kernel that is on the lowest queue if it holds a
  -- runnable process of level 2 never faults and leaves a well-formed kernel, whose lowest queue
  -- is thus sorted again: the process gets the priority and no other field but links changes; an
  -- unused slot is left as it is.
  pub set_priority_lem : InPlace → RanksTo given (set_priority k p v)
  set_priority_lem place = elim (Bool-cases (is_unused (k.proc p).state)) [
    | inl u ↦ rw u (unranked u)
    | inr u ↦ rw u (ranked_on place u)
  ]

-- A list is determined by its head and its links.
Chain-unique :
    (s : Procs) (pr pr' : Ptr) (xs ys : List ℕ)
    → Chain s pr xs none
    → Chain s pr' ys none
    → first xs none ≡ first ys none
    → xs ≡ ys
Chain-unique s pr pr' [] [] c d e = refl
Chain-unique s pr pr' [] (y ∷ ys) c d e = absurd (none≢some e)
Chain-unique s pr pr' (x ∷ xs) [] c d e = absurd (none≢some (sym e))
Chain-unique s pr pr' (x ∷ xs) (y ∷ ys) c d e =
    let h : x ≡ y = some-injective _ _ e in
    let next = sym c.1 ∙ ap (λ z. (s z).next) h ∙ d.1 in
    λ i. h i ∷ Chain-unique s (some x) (some y) xs ys c.2 d.2 next i

-- A process on the list of a queue has that queue as its home.
pub home_of_IsQueue :
    (k : Kernel) (home : Home) (view : View)
    → Inv k home view
    → (i p : ℕ) (xs : List ℕ) → IsQueue k.proc (k.queue i) xs
    → In p xs
    → home p ≡ some i
home_of_IsQueue k home view inv i p xs is m =
    let t = inv.live.queued.threaded in
    let same =
      Chain-unique k.proc none none xs (view i) is.chain (t.queues i).chain
        (sym is.head ∙ (t.queues i).head) in
    t.home_of_In i p (subst (λ l. In p l) same m)

last_pid-same :
    (f i : ℕ) (k : Kernel) (b : Bool) (pid : ℕ) (o : Ptr)
    → last_pid f i (record k { locked = b }) pid o ≡ last_pid f i k pid o
unfolding last_pid
last_pid-same zero i k b pid o = refl
last_pid-same (suc f) i k b pid o = last_pid-same f (i + 1) k b pid _

module _ (k : Kernel) (home : Home) (view : View) (inv : Inv k home view) (pid : ℕ) (v : ℤ)
    (free : k.locked ≡ false)
    (place : (p : ℕ) → last_pid nproc 0 k pid none ≡ some p → InPlace k home view inv p v) where
  abbrev held : Kernel
  held = record k { locked = true }

  held-Inv : Inv held home view
  held-Inv = Inv-same k held home view refl refl refl inv.ticks inv

  arrange-eq_none :
      last_pid nproc 0 held pid none ≡ none
      → arrange_queue pid v k ≡ some (record k { locked = false })
  unfolding arrange_queue acquire
  arrange-eq_none e = rw (free, e) (release_lem held refl)

  arrange-eq_some :
      (p : ℕ) (k' : Kernel)
      → last_pid nproc 0 held pid none ≡ some p
      → set_priority held p v ≡ some k'
      → k'.locked ≡ true
      → arrange_queue pid v k ≡ some (record k' { locked = false })
  unfolding arrange_queue acquire
  arrange-eq_some p k' e f l = rw (free, e, f) (release_lem k' l)

  -- The system call under the lock, for a number whose last slot is in place.
  pub arrange_queue-Inv : EndsIn (arrange_queue pid v k)
  arrange_queue-Inv = elim (Option-cases (last_pid nproc 0 held pid none)) [
    | inl e ↦ (
      record k { locked = false },
      home,
      view,
      arrange-eq_none e,
      Inv-same k _ home view refl refl refl inv.ticks inv,
    )
    | inr (p, e) ↦
        let (k', home', view', f, i, c, l) =
          set_priority_lem held home view held-Inv p v
            (place p (sym (last_pid-same nproc 0 k true pid none) ∙ e)) in
        (
          record k' { locked = false },
          home',
          view',
          arrange-eq_some p k' e f l,
          Inv-same k' _ home' view' refl refl refl i.ticks i,
        )
  ]
