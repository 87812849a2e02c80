-- ===== src/Mlfq/Inv/Threaded.antt =====
-- Every queue of the kernel is well formed, and `home` says which one a process is on.
use mathlib.Core.Option.{some-injective}
use hyu_os.Prelude.{
  ℕ, ◌≤◌, ◌<◌, ◌≡◌, refl, sym, ◌∙◌, ap, ◌≢◌, inl, inr, Option, none, some, List, ◌∷◌, arith, length,
  Fresh, In, erase, eq-cases, update, update_self, update_ne, Below-of_In, length-le_of_Distinct,
}
use hyu_os.Mlfq.State.{Procs, Ptr, Queue, QueueId, nproc}
use hyu_os.Mlfq.Queue.Chain.{
  IsQueue, SameLinks, Relinks, Relinks-weaken, Chain-same, unlinked, Fresh-of-not_In,
}
use hyu_os.Mlfq.Queue.Insert.{insert_before, BaseIn, insert_lem}
use hyu_os.Mlfq.Queue.Delete.{delete_lem}
use hyu_os.Mlfq.Queue.Dequeue.{dequeue-cons}
use hyu_os.Mlfq.Kernel.{Kernel, enqueue, unqueue, take_first}
use hyu_os.Mlfq.Inv.Members.{
  In-insert_before_self, In-insert_before_old, In-of-insert_before, In-of-erase, In-erase,
  not_In-erase,
}

pub none≢some : {i : QueueId} → none ≢ some i
none≢some h = cc

abbrev pub Home : Type 0
Home = ℕ → Option QueueId

abbrev pub View : Type 0
View = QueueId → List ℕ

-- The queues hold the lists of `view`, and a process of the table is on the queue that `home`
-- names and on no other.
pub record Threaded (s : Procs) (qs : QueueId → Queue) (home : Home) (view : View) : Type 0 where
  pub queues : (i : QueueId) → IsQueue s (qs i) (view i)
  pub home_of_In : (i : QueueId) (p : ℕ) → In p (view i) → home p ≡ some i
  pub In_of_home : (i : QueueId) (p : ℕ) → home p ≡ some i → In p (view i)
  pub in_table : (i : QueueId) (p : ℕ) → home p ≡ some i → p < nproc

-- The links and the queues may change, and no other part of the kernel.
pub record SameGlobals (k k' : Kernel) : Type 0 where
  pub contents : (j : ℕ) → unlinked (k'.proc j) ≡ unlinked (k.proc j)
  pub lockproc : k'.lockproc ≡ k.lockproc
  pub unlockproc : k'.unlockproc ≡ k.unlockproc
  pub global_ticks : k'.global_ticks ≡ k.global_ticks
  pub nextpid : k'.nextpid ≡ k.nextpid
  pub initproc : k'.initproc ≡ k.initproc
  pub cpu : k'.cpu ≡ k.cpu
  pub locked : k'.locked ≡ k.locked

pub IsQueue-same :
    (s s' : Procs) (q : Queue) (xs : List ℕ)
    → ((j : ℕ) → In j xs → SameLinks s s' j)
    → IsQueue s q xs
    → IsQueue s' q xs
IsQueue-same s s' q xs same is = record {
  head = is.head;
  tail = is.tail;
  count = is.count;
  chain = Chain-same s s' none xs none same is.chain;
  distinct = is.distinct;
}

module _ (s : Procs) (qs : QueueId → Queue) (home : Home) (view : View)
    (t : Threaded s qs home view) where
  -- A process that is on no queue, or on another.
  pub Fresh-of-home : (i : QueueId) (p : ℕ) → home p ≢ some i → Fresh p (view i)
  Fresh-of-home i p n = Fresh-of-not_In p (view i) (λ k m e. n (ap home e ∙ t.home_of_In i k m))

  pub length-view : (i : QueueId) → length (view i) ≤ nproc
  length-view i =
      length-le_of_Distinct nproc (view i) (t.queues i).distinct
        (Below-of_In nproc (view i) (λ x m. t.in_table i x (t.home_of_In i x m)))

  -- Changes that leave the links alone leave the queues alone.
  pub Threaded-same : (s' : Procs) → ((j : ℕ) → SameLinks s s' j) → Threaded s' qs home view
  Threaded-same s' same = record {
    queues = λ i. IsQueue-same s s' (qs i) (view i) (λ j m. same j) (t.queues i);
    home_of_In = t.home_of_In;
    In_of_home = t.In_of_home;
    in_table = t.in_table;
  }

  -- A change at the processes of one queue leaves the other queues as they are.
  others :
      (i j : QueueId) (s' : Procs) (xs : List ℕ)
      → i ≢ j
      → ((p : ℕ) → In p xs → home p ≢ some j)
      → Relinks s s' xs
      → IsQueue s' (qs j) (view j)
  others i j s' xs n out r =
      IsQueue-same s s' (qs j) (view j)
        (λ p m.
          r.links p
            (Fresh-of-not_In p xs (λ k l e. out k l (ap home (sym e) ∙ t.home_of_In j p m))))
        (t.queues j)

  -- One queue gets the list `xs`, and the process `p` a new home.
  rehome :
      (i : QueueId) (p : ℕ) (s' : Procs) (q' : Queue) (xs : List ℕ) (h : Option QueueId)
      → p < nproc
      → IsQueue s' q' xs
      → Relinks s s' (p ∷ view i)
      → ((j : ℕ) → In j xs → update home p h j ≡ some i)
      → ((j : ℕ) → update home p h j ≡ some i → In j xs)
      → ((j : QueueId) → i ≢ j → home p ≢ some j)
      → ((j : QueueId) → i ≢ j → h ≢ some j)
      → Threaded s' (update qs i q') (update home p h) (update view i xs)
  rehome i p s' q' xs h lt is r to from old new = record {
    queues = λ j. elim (eq-cases i j) [
      | inl e ↦ rw (← e, update_self qs i q', update_self view i xs) is
      | inr n ↦
          rw (update_ne qs q' n, update_ne view xs n) (others i j s' (p ∷ view i) n (away j n) r)
    ];
    home_of_In = λ j x. elim (eq-cases i j) [
      | inl e ↦ rw (← e, update_self view i xs) (to x)
      | inr n ↦ rw (update_ne view xs n) (λ m. kept j x n (t.home_of_In j x m))
    ];
    In_of_home = λ j x. elim (eq-cases i j) [
      | inl e ↦ rw (← e, update_self view i xs) (from x)
      | inr n ↦ rw (update_ne view xs n) (λ e. t.In_of_home j x (known j x n e))
    ];
    in_table = λ j x e. elim (eq-cases p x) [
      | inl h ↦ rw (← h) lt
      | inr n ↦ t.in_table j x (rw (update_ne home h n) at e)
    ];
  }
    where
      away : (j : QueueId) → i ≢ j → (x : ℕ) → In x (p ∷ view i) → home x ≢ some j
      away j n x (inl e) = rw e (old j n)
      away j n x (inr m) = λ e. n (some-injective _ _ (sym (t.home_of_In i x m) ∙ e))

      kept : (j : QueueId) (x : ℕ) → i ≢ j → home x ≡ some j → update home p h x ≡ some j
      kept j x n e = elim (eq-cases p x) [
        | inl k ↦ absurd (old j n (ap home k ∙ e))
        | inr k ↦ rw (update_ne home h k) e
      ]

      known : (j : QueueId) (x : ℕ) → i ≢ j → update home p h x ≡ some j → home x ≡ some j
      known j x n e = elim (eq-cases p x) [
        | inl k ↦ absurd (new j n (sym (update_self home p h) ∙ ap (update home p h) k ∙ e))
        | inr k ↦ rw (update_ne home h k) at e
      ]

-- The kernel after a process has come on the queue `i`.
pub record Enqueued (k k' : Kernel) (home : Home) (view : View) (i : QueueId) (p : ℕ) (base : Ptr)
    : Type 0 where
  pub same : SameGlobals k k'
  pub threaded :
      Threaded k'.proc k'.queue
        (update home p (some i))
        (update view i (insert_before base p (view i)))

-- The kernel after a process has come off the queue `i`.
pub record Unqueued (k k' : Kernel) (home : Home) (view : View) (i : QueueId) (p : ℕ) : Type 0 where
  pub same : SameGlobals k k'
  pub threaded : Threaded k'.proc k'.queue (update home p none) (update view i (erase p (view i)))

module _ (k : Kernel) (home : Home) (view : View) (t : Threaded k.proc k.queue home view)
    (i : QueueId) (p : ℕ) where
  pub relinked :
      (s' : Procs) (qs : QueueId → Queue) (xs : List ℕ)
      → Relinks k.proc s' xs
      → SameGlobals k (record k { proc = s'; queue = qs })
  relinked s' qs xs r = record {
    contents = r.contents;
    lockproc = refl;
    unlockproc = refl;
    global_ticks = refl;
    nextpid = refl;
    initproc = refl;
    cpu = refl;
    locked = refl;
  }

  -- `insert` of a process that is on no queue.
  pub enqueue_lem :
      (base : Ptr)
      → home p ≡ none
      → p < nproc
      → BaseIn base (view i)
      → (k' : Kernel) × (enqueue k i p base ≡ some k') × Enqueued k k' home view i p base
  unfolding enqueue
  enqueue_lem base away lt m =
      let fresh = Fresh-of-home k.proc k.queue home view t i p (rw away (λ e. cc)) in
      let (q', s', e, is, r) = insert_lem k.proc (k.queue i) p base (view i) (t.queues i) fresh m in
      (
        record k { proc = s'; queue = update k.queue i q' },
        rw e refl,
        record {
          same = relinked s' (update k.queue i q') _ r;
          threaded =
              rehome k.proc k.queue home view t i p s' q' (insert_before base p (view i)) (some i)
                lt is r joins leaves (λ j n. rw away (λ e. cc)) (λ j n e. n (some-injective _ _ e));
        },
      )
    where
      joins : (j : ℕ) → In j (insert_before base p (view i)) → update home p (some i) j ≡ some i
      joins j m = elim (In-of-insert_before base p j (view i) m) [
        | inl e ↦ rw (e, update_self home p (some i)) refl
        | inr l ↦ ground (arith, t.home_of_In i j l)
      ]

      leaves : (j : ℕ) → update home p (some i) j ≡ some i → In j (insert_before base p (view i))
      leaves j e = elim (eq-cases p j) [
        | inl k ↦ rw (← k) (In-insert_before_self base p (view i))
        | inr n ↦
            In-insert_before_old base p j (view i)
              (t.In_of_home i j (rw (update_ne home (some i) n) at e))
      ]

  -- What is left on the queue without `p`.
  stays : (j : ℕ) → In j (erase p (view i)) → update home p none j ≡ some i
  stays j m = elim (eq-cases p j) [
    | inl e ↦ absurd (not_In-erase p (view i) (t.queues i).distinct (rw (← e) at m))
    | inr n ↦ rw (update_ne home none n) (t.home_of_In i j (In-of-erase j p (view i) m))
  ]

  stayed : (j : ℕ) → update home p none j ≡ some i → In j (erase p (view i))
  stayed j e = elim (eq-cases p j) [
    | inl h ↦ absurd (none≢some (sym (update_self home p none) ∙ ap (update home p none) h ∙ e))
    | inr n ↦
        In-erase j p (view i) (λ h. n (sym h)) (t.In_of_home i j (rw (update_ne home none n) at e))
  ]

  -- The kernel with `p` off the queue, however the code takes it off.
  unqueued :
      (q' : Queue) (s' : Procs)
      → home p ≡ some i
      → IsQueue s' q' (erase p (view i))
      → Relinks k.proc s' (view i)
      → Unqueued k (record k { proc = s'; queue = update k.queue i q' }) home view i p
  unqueued q' s' e is r = record {
    same = relinked s' (update k.queue i q') (view i) r;
    threaded =
        rehome k.proc k.queue home view t i p s' q' (erase p (view i)) none (t.in_table i p e) is
          (Relinks-weaken k.proc s' (view i) (p ∷ view i) (λ j f. f.1) r) stays stayed
          (λ j n. rw e (λ h. n (some-injective _ _ h))) (λ j n. none≢some);
  }

  -- `delete` of a process that is on the queue.
  pub unqueue_lem : home p ≡ some i → Unqueued k (unqueue k i p) home view i p
  unfolding unqueue
  unqueue_lem e =
      let d = delete_lem k.proc (k.queue i) p (view i) (t.queues i) (t.In_of_home i p e) in
      unqueued _ _ e d.0 d.1

  -- `dequeue` of a queue whose first process is `p`.
  pub take_first_lem :
      (xs : List ℕ)
      → view i ≡ p ∷ xs
      → ((take_first k i).0 ≡ some p) × Unqueued k (take_first k i).1 home view i p
  unfolding take_first erase
  take_first_lem xs e =
      let is = t.queues i in
      let d = dequeue-cons k.proc (k.queue i) p xs (rw e at is) in
      let tail : erase p (view i) ≡ xs = rw e (ground arith) in
      let on : In p (view i) = rw e (inl refl) in
      (d.0, unqueued _ _ (t.home_of_In i p on) (rw tail d.1) (rw e d.2))

pub SameGlobals-trans : {k l m : Kernel} → SameGlobals k l → SameGlobals l m → SameGlobals k m
SameGlobals-trans a b = record {
  contents = λ j. b.contents j ∙ a.contents j;
  lockproc = b.lockproc ∙ a.lockproc;
  unlockproc = b.unlockproc ∙ a.unlockproc;
  global_ticks = b.global_ticks ∙ a.global_ticks;
  nextpid = b.nextpid ∙ a.nextpid;
  initproc = b.initproc ∙ a.initproc;
  cpu = b.cpu ∙ a.cpu;
  locked = b.locked ∙ a.locked;
}
