-- ===== src/Mlfq/Inv/Setting.antt =====
-- `setPriority` of a process that is not on the queue of its level.
use mathlib.Core.Option.{some-injective}
use hyu_os.Prelude.{ℕ, ◌≡◌, refl, sym, ◌∙◌, inl, none, some, List, [], ◌∷◌, arith, In, update}
use hyu_os.Prelude.Int.{ℤ}
use hyu_os.Mlfq.State.{runnable, Procs, Queue}
use hyu_os.Mlfq.Kernel.{Kernel, modify, enqueue, unqueue}
use hyu_os.Mlfq.Queue.{delete, insert, insert_only}
use hyu_os.Mlfq.Queue.Chain.{IsQueue}
use hyu_os.Mlfq.Priority.{higherpriority_proc, higher_loop}
use hyu_os.Mlfq.Lock.{rearrange, set_priority}
use hyu_os.Mlfq.Inv.Threaded.{Home, View, Threaded}

-- Both the first queue and the lowest begin with `p`.
record Doubled (k : Kernel) (p : ℕ) : Type 0 where
  first_head : (k.queue 0).head ≡ some p
  lowest_head : (k.queue 2).head ≡ some p

In-of_head :
    (s : Procs) (q : Queue) (xs : List ℕ) (p : ℕ) → IsQueue s q xs → q.head ≡ some p → In p xs
In-of_head s q [] p is e = absurd (let h = is.head in ground arith)
In-of_head s q (x ∷ xs) p is e = let h = is.head in inl (some-injective _ _ (sym e ∙ h))

not_Threaded :
    (k : Kernel) (p : ℕ)
    → Doubled k p
    → (home : Home) (view : View) → Threaded k.proc k.queue home view
    → ⊥
not_Threaded k p d home view t =
    let a = t.home_of_In 0 p (In-of_head _ _ (view 0) p (t.queues 0) d.first_head) in
    let b = t.home_of_In 2 p (In-of_head _ _ (view 2) p (t.queues 2) d.lowest_head) in
    zero≢two (some-injective _ _ (sym a ∙ b))
  where
    zero≢two : ◌≡◌ {A = ℕ} 0 2 → ⊥
    zero≢two e = omega arith

set_priority-eq :
    (k : Kernel) (p : ℕ) (v : ℤ)
    → (k.proc p).state ≡ runnable
    → (k.proc p).queuelevel ≡ 2
    → set_priority k p v ≡ rearrange (modify k p (λ r. record r { priority = v })) p
unfolding set_priority
set_priority-eq k p v st two = rw (st, two) refl

module _ (k : Kernel) (p : ℕ) (v : ℤ) (e₀ : (k.queue 0).head ≡ some p)
    (e₂ : (k.queue 2).head ≡ none) where
  abbrev raised : Kernel
  raised = modify k p (λ r. record r { priority = v })

  base_null : higherpriority_proc raised p ≡ some none
  unfolding higherpriority_proc higher_loop
  base_null = rw e₂ refl

  abbrev untouched : Kernel
  untouched = record raised { queue = update k.queue 2 (k.queue 2) }

  delete_nothing : unqueue raised 2 p ≡ untouched
  unfolding unqueue delete
  delete_nothing = rw e₂ refl

  abbrev doubled : Kernel
  doubled =
      let r = insert_only raised.proc (k.queue 2) p in
      record untouched { proc = r.1; queue = update untouched.queue 2 r.0 }

  insert_again : enqueue untouched 2 p none ≡ some doubled
  unfolding enqueue insert insert_only
  insert_again = rw e₂ refl

  rearrange-eq : rearrange raised p ≡ some doubled
  unfolding rearrange
  rearrange-eq = rw (base_null, delete_nothing) insert_again

  doubled-Doubled : Doubled doubled p
  unfolding insert_only
  doubled-Doubled = record { first_head = e₀; lowest_head = refl }

  -- Where a runnable process of level 2 stands at the head of the first queue, as the holder of
  -- the scheduler lock does, and the lowest queue is empty, `setPriority` links it into the lowest
  -- queue too: it leaves no well-formed queues.
  pub set_priority-Doubled :
      (k.proc p).state ≡ runnable
      → (k.proc p).queuelevel ≡ 2
      → (k' : Kernel) × (set_priority k p v ≡ some k')
        × ((home : Home) (view : View) → ¬ Threaded k'.proc k'.queue home view)
  set_priority-Doubled st two =
      (doubled, set_priority-eq k p v st two ∙ rearrange-eq, not_Threaded doubled p doubled-Doubled)
