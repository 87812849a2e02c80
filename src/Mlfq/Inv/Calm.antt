-- ===== src/Mlfq/Inv/Calm.antt =====
-- Changes that the queues do not depend on, and a sleeper that becomes runnable.
use hyu_os.Prelude.{
  ℕ, ◌≡◌, ap, ◌≢◌, inl, inr, true, none, some, eq-cases, update, update_self, update_ne, leb, erase,
}
use hyu_os.Mlfq.State.{runnable, Proc, sleep_queue}
use hyu_os.Mlfq.Kernel.{Kernel, modify, unqueue}
use hyu_os.Mlfq.Priority.{insert_level}
use hyu_os.Mlfq.Inv.Threaded.{Home, View, SameGlobals, SameGlobals-trans, Threaded-same}
use hyu_os.Mlfq.Inv.Sorted.{Ascending-same, priority_of}
use hyu_os.Mlfq.Inv.Level.{
  Queued, state_fits, same_state, same_level, insert_level_lem, unqueue-Queued,
}
use hyu_os.Mlfq.Inv.Live.{Live}
use hyu_os.Mlfq.Inv.Pick.{level_small}

-- The change keeps all that the queues depend on.
pub record IsCalm (f : Proc → Proc) (r : Proc) : Type 0 where
  pub prev : (f r).prev ≡ r.prev
  pub next : (f r).next ≡ r.next
  pub queuelevel : (f r).queuelevel ≡ r.queuelevel
  pub priority : (f r).priority ≡ r.priority

-- A field of every process after a change to one that keeps it.
pub modify_keeps :
    {A : Type 0} (k : Kernel) (p : ℕ) (f : Proc → Proc) (g : Proc → A)
    → g (f (k.proc p)) ≡ g (k.proc p)
    → (j : ℕ) → g ((modify k p f).proc j) ≡ g (k.proc j)
modify_keeps k p f g e j = elim (eq-cases p j) [
  | inl h ↦ rw (← h, update_self k.proc p (f (k.proc p))) e
  | inr n ↦ ap g (update_ne k.proc (f (k.proc p)) n)
]

-- A calm change to any process leaves the queues well formed.
pub calm-Queued :
    (k : Kernel) (home : Home) (view : View) (p : ℕ) (f : Proc → Proc)
    → IsCalm f (k.proc p)
    → Queued k home view
    → Queued (modify k p f) home view
calm-Queued k home view p f c q = record {
  threaded =
      Threaded-same k.proc k.queue home view q.threaded (modify k p f).proc (λ j.
        (modify_keeps k p f (λ r. r.prev) c.prev j, modify_keeps k p f (λ r. r.next) c.next j));
  levels = λ j. rw (modify_keeps k p f (λ r. r.queuelevel) c.queuelevel j) (q.levels j);
  sorted =
      Ascending-same (priority_of k.proc) (priority_of (modify k p f).proc) (view 2)
        (λ j m. modify_keeps k p f (λ r. r.priority) c.priority j) q.sorted;
}

-- A sleeper that has been made runnable moves to the queue of its level.
module _ (k : Kernel) (home : Home) (view : View) (q : Queued k home view) (p : ℕ)
    (on : home p ≡ some sleep_queue) (st : (k.proc p).state ≡ runnable)
    (fits : (j : ℕ) → p ≢ j → state_fits (home j) (k.proc j).state ≡ true) where
  abbrev taken : Kernel
  taken = unqueue k sleep_queue p

  abbrev home₁ : Home
  home₁ = update home p none

  off :
      SameGlobals k taken
      × Queued taken home₁ (update view sleep_queue (erase p (view sleep_queue)))
  off = unqueue-Queued k home view q p sleep_queue on

  small : leb (k.proc p).queuelevel 2 ≡ true
  small = level_small (home p) _ (q.levels p)

  pub transfer_lem :
      (k' : Kernel) × (home' : Home) × (view' : View) × (insert_level taken p ≡ some k')
      × Live k' home' view'
      × SameGlobals k k'
  transfer_lem =
      let (k', e, r) =
        insert_level_lem taken home₁ _ off.1 p (update_self home p none)
          (q.threaded.in_table sleep_queue p on) in
      let l = (taken.proc p).queuelevel in
      let fine : state_fits (some l) (k.proc p).state ≡ true = rw (st, same_level off.0 p) small in
      (
        k',
        update home₁ p (some l),
        _,
        e,
        record {
          queued = r.queued;
          states = λ j.
              rw (same_state r.same j, same_state off.0 j)
                (elim (eq-cases p j) [
                  | inl h ↦ rw (← h, update_self home₁ p (some l)) fine
                  | inr n ↦ rw (update_ne home₁ (some l) n, update_ne home none n) (fits j n)
                ]);
        },
        SameGlobals-trans off.0 r.same,
      )
