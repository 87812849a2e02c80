-- ===== src/Mlfq/Inv/Level.antt =====
-- Queues that are well formed, with levels that fit them, and `insert` by level.
use hyu_os.Prelude.{
  ℕ, ◌+◌, ◌<◌, ◌≡◌, sym, ap, ◌≢◌, inl, inr, Bool, true, false, ◌&&◌, ◌||◌, Option, none, some, List,
  arith, erase, eq-cases, subst, ltb, leb, update, update_self, update_ne, if◌then◌else◌, ◌==◌,
}
use hyu_os.Mlfq.State.{ProcState, Proc, Ptr, QueueId, nproc}
use hyu_os.Mlfq.Queue.Insert.{insert_before, BaseIn}
use hyu_os.Mlfq.Kernel.{Kernel, l_queue, enqueue, unqueue}
use hyu_os.Mlfq.Priority.{higherpriority_proc, insert_level}
use hyu_os.Mlfq.Inv.Threaded.{
  Home, View, Threaded, SameGlobals, Unqueued, enqueue_lem, unqueue_lem, length-view,
}
use hyu_os.Mlfq.Inv.Sorted.{
  first_higher, sorted_insert, Ascending, priority_of, higher_loop_lem, BaseIn-first_higher,
  insert_before-first_higher, sorted_insert-Ascending, erase-Ascending, Ascending-same,
}

-- A level is in range, and a process on `l_queue[1]` or `l_queue[2]` has that level. On
-- `l_queue[0]` the holder of the scheduler lock keeps the level that it had.
abbrev pub level_fits : Option QueueId → ℕ → Bool
level_fits none l = leb l 2
level_fits (some i) l = leb l 2 && ((i == 0) || (leb 3 i || (l == i)))

-- What the queue of a process says of its state.
abbrev pub state_fits : Option QueueId → ProcState → Bool
state_fits none ProcState.embryo = true
state_fits none ProcState.running = true
state_fits none ProcState.zombie = true
state_fits (some i) ProcState.runnable = leb i 2
state_fits (some i) ProcState.sleeping = i == 3
state_fits (some i) ProcState.unused = i == 4
state_fits _ _ = false

pub record Queued (k : Kernel) (home : Home) (view : View) : Type 0 where
  pub threaded : Threaded k.proc k.queue home view
  pub levels : (p : ℕ) → level_fits (home p) (k.proc p).queuelevel ≡ true
  pub sorted : Ascending (priority_of k.proc) (view 2)

module _ {k k' : Kernel} (same : SameGlobals k k') (j : ℕ) where
  pub same_state : (k'.proc j).state ≡ (k.proc j).state
  same_state = ap (λ (r : Proc). r.state) (same.contents j)

  pub same_level : (k'.proc j).queuelevel ≡ (k.proc j).queuelevel
  same_level = ap (λ (r : Proc). r.queuelevel) (same.contents j)

  pub same_priority : (k'.proc j).priority ≡ (k.proc j).priority
  same_priority = ap (λ (r : Proc). r.priority) (same.contents j)

-- The kernel after `p` has come on the queue `i`, which then holds `xs`.
pub record Entered (k k' : Kernel) (home : Home) (view : View) (i : QueueId) (p : ℕ) (xs : List ℕ)
    : Type 0 where
  pub same : SameGlobals k k'
  pub queued : Queued k' (update home p (some i)) (update view i xs)

module _ (k : Kernel) (home : Home) (view : View) (q : Queued k home view) (p : ℕ) where
  sorted-same :
      (k' : Kernel) (xs : List ℕ)
      → SameGlobals k k'
      → Ascending (priority_of k.proc) xs
      → Ascending (priority_of k'.proc) xs
  sorted-same k' xs same a =
      Ascending-same (priority_of k.proc) (priority_of k'.proc) xs (λ j m. same_priority same j) a

  levels-update :
      (k' : Kernel) (h : Option QueueId)
      → SameGlobals k k'
      → level_fits h (k.proc p).queuelevel ≡ true
      → (x : ℕ) → level_fits (update home p h x) (k'.proc x).queuelevel ≡ true
  levels-update k' h same f x = rw (same_level same x) (elim (eq-cases p x) [
    | inl e ↦ rw (← e, update_self home p h) f
    | inr n ↦ rw (update_ne home h n) (q.levels x)
  ])

  module _ (away : home p ≡ none) (lt : p < nproc) where
    -- `insert` into another queue than the lowest.
    pub enqueue-Entered :
        (i : QueueId) (base : Ptr)
        → i ≢ 2
        → BaseIn base (view i)
        → level_fits (some i) (k.proc p).queuelevel ≡ true
        → (k' : Kernel) × (enqueue k i p base ≡ some k')
          × Entered k k' home view i p (insert_before base p (view i))
    enqueue-Entered i base ne m f =
        let (k', e, r) = enqueue_lem k home view q.threaded i p base away lt m in
        (
          k',
          e,
          record {
            same = r.same;
            queued = record {
              threaded = r.threaded;
              levels = levels-update k' (some i) r.same f;
              sorted =
                  rw (update_ne view (insert_before base p (view i)) ne)
                    (sorted-same k' (view 2) r.same q.sorted);
            };
          },
        )

    pub higherpriority_proc_lem :
        higherpriority_proc k p
        ≡ some (first_higher (priority_of k.proc) (k.proc p).priority (view 2))
    unfolding higherpriority_proc
    higherpriority_proc_lem =
        let is = q.threaded.queues 2 in
        let short = length-view k.proc k.queue home view q.threaded 2 in
        rw is.head (
          higher_loop_lem (nproc + 1) k.proc (k.proc p).priority none (view 2) (omega arith)
            is.chain)

    -- `insert` into the lowest queue, in front of the process that `higherpriority_proc` finds.
    pub enqueue_sorted-Entered :
        (k.proc p).queuelevel ≡ 2
        → (k' : Kernel) × (insert_level k p ≡ some k')
          × Entered k k' home view 2 p (sorted_insert (priority_of k.proc) p (view 2))
    unfolding insert_level
    enqueue_sorted-Entered two =
        let pr = priority_of k.proc in
        let base = first_higher pr (pr p) (view 2) in
        let (k', e, r) =
          enqueue_lem k home view q.threaded 2 p base away lt
            (BaseIn-first_higher pr (pr p) (view 2)) in
        let same_list = insert_before-first_higher pr p (view 2) (q.threaded.queues 2).distinct in
        (
          k',
          (let low : ((k.proc p).queuelevel == 2) ≡ true = ground arith in
              rw (low, higherpriority_proc_lem) e),
          record {
            same = r.same;
            queued = record {
              threaded = rw (← same_list) r.threaded;
              levels = levels-update k' (some 2) r.same (ground arith);
              sorted =
                  rw (update_self view 2 (sorted_insert pr p (view 2)))
                    (sorted-same k' _ r.same (sorted_insert-Ascending pr p (view 2) q.sorted));
            };
          },
        )

    -- Where a process goes by its level.
    abbrev pub level_list : ℕ → List ℕ
    level_list l =
        if l == 2
        then sorted_insert (priority_of k.proc) p (view 2)
        else insert_before none p (view l)

    -- Inserting a process that is on no queue into the queue of its level never faults: in the
    -- lowest queue it goes before the first process of a larger priority number, in the other
    -- two to the end, and the queues stay threaded without overlap.
    pub insert_level_lem :
        (k' : Kernel) × (insert_level k p ≡ some k')
        × Entered k k' home view (k.proc p).queuelevel p (level_list (k.proc p).queuelevel)
    unfolding insert_level l_queue
    insert_level_lem = elim (eq-cases (k.proc p).queuelevel 2) [
      | inl two ↦
          let (k', e, r) = enqueue_sorted-Entered two in
          let low : ((k.proc p).queuelevel == 2) ≡ true = ground arith in
          (
            k',
            e,
            rw low (
                subst
                  (λ l. Entered k k' home view l p (sorted_insert (priority_of k.proc) p (view 2)))
                  (sym two) r),
          )
      | inr n ↦
          let fits = q.levels p in
          let small : leb (k.proc p).queuelevel 2 ≡ true = rw away at fits in
          let high : ((k.proc p).queuelevel == 2) ≡ false = ground arith in
          let inside : ltb (k.proc p).queuelevel 3 ≡ true = ground arith in
          let (k', e, r) = enqueue-Entered (k.proc p).queuelevel none n tt (ground arith) in
          (k', rw (high, inside) e, rw high r)
    ]

  pub Queued-Unqueued :
      (i : QueueId) (k' : Kernel)
      → Unqueued k k' home view i p
      → home p ≡ some i
      → Queued k' (update home p none) (update view i (erase p (view i)))
  Queued-Unqueued i k' r e = record {
    threaded = r.threaded;
    levels = levels-update k' none r.same (ground (arith, q.levels p));
    sorted = elim (eq-cases i 2) [
      | inl h ↦
          rw (h, update_self view 2 (erase p (view 2)))
            (sorted-same k' _ r.same (erase-Ascending (priority_of k.proc) p (view 2) q.sorted))
      | inr n ↦ rw (update_ne view (erase p (view i)) n) (sorted-same k' (view 2) r.same q.sorted)
    ];
  }

  -- `delete` of a process that is on a queue.
  pub unqueue-Queued :
      (i : QueueId)
      → home p ≡ some i
      → SameGlobals k (unqueue k i p)
        × Queued (unqueue k i p) (update home p none) (update view i (erase p (view i)))
  unqueue-Queued i e =
      let r = unqueue_lem k home view q.threaded i p e in
      (r.same, Queued-Unqueued i (unqueue k i p) r e)
