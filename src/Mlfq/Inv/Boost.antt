-- ===== src/Mlfq/Inv/Boost.antt =====
-- `priority_boosting`: every queued process moves to `l_queue[0]`, with fresh counters.
use hyu_os.Prelude.{
  ℕ, zero, suc, ◌+◌, ◌<◌, ◌≡◌, refl, sym, ◌∙◌, ap, ◌≢◌, ◌⊎◌, inl, inr, Option, none, some, List, [],
  ◌∷◌, ◌++◌, arith, length, first, Fresh, Distinct, In, update, update_self, update_ne,
}
use hyu_os.Mlfq.State.{Procs, Ptr, QueueId, nproc, sleep_queue}
use hyu_os.Mlfq.Queue.Chain.{Chain, SameLinks, Fresh-ne, Chain-same, unlinked}
use hyu_os.Mlfq.Kernel.{Kernel}
use hyu_os.Mlfq.Sched.{boosted, boost_loop, boost_queue, priority_boosting}
use hyu_os.Mlfq.Inv.Threaded.{Home, View, Threaded, Threaded-same, length-view, Fresh-of-home}
use hyu_os.Mlfq.Inv.Merging.{merge_lem, redirect}

-- The table after the processes of `xs` have been boosted.
pub record BoostedAll (s s' : Procs) (xs : List ℕ) : Type 0 where
  pub on : (j : ℕ) → In j xs → s' j ≡ boosted (s j)
  pub off : (j : ℕ) → Fresh j xs → s' j ≡ s j
  pub links : (j : ℕ) → SameLinks s s' j

module _ (s : Procs) (x : ℕ) (xs : List ℕ) (f : Fresh x xs) where
  abbrev bumped : Procs
  bumped = update s x (boosted (s x))

  bumped-links : (j : ℕ) → SameLinks s bumped j
  bumped-links j = ground arith

  BoostedAll-cons : (s' : Procs) → BoostedAll bumped s' xs → BoostedAll s s' (x ∷ xs)
  BoostedAll-cons s' b = record {
    on = λ j. elim [
      | inl e ↦ rw e (b.off x f ∙ update_self s x (boosted (s x)))
      | inr m ↦ b.on j m ∙ ap boosted (update_ne s (boosted (s x)) (Fresh-ne x j xs f m))
    ];
    off = λ j g. b.off j g.1 ∙ update_ne s (boosted (s x)) (λ e. g.0 (sym e));
    links = λ j. ground (arith, b.links j, bumped-links j);
  }

-- The loops of `priority_boosting` end within their rounds.
pub boost_loop_lem :
    (f : ℕ) (s : Procs) (pr : Ptr) (xs : List ℕ)
    → length xs < f
    → Chain s pr xs none
    → Distinct xs
    → (s' : Procs) × (boost_loop f s (first xs none) ≡ some s') × BoostedAll s s' xs
unfolding boost_loop
boost_loop_lem zero s pr xs h c d = absurd (omega arith)
boost_loop_lem (suc f) s pr [] h c d =
    (s, refl, record { on = λ j m. absurd m; off = λ j g. refl; links = λ j. (refl, refl) })
boost_loop_lem (suc f) s pr (x ∷ xs) h c d =
    let s₁ = update s x (boosted (s x)) in
    let next : (s₁ x).next ≡ first xs none = ground (arith, c.1) in
    let c' = Chain-same s s₁ (some x) xs none (λ j m. bumped-links s x xs d.0 j) c.2 in
    let (s', e, b) = boost_loop_lem f s₁ (some x) xs (omega arith) c' d.1 in
    (s', rw next e, BoostedAll-cons s x xs d.0 s' b)

-- One queue of the kernel boosted.
boost_queue_lem :
    (k : Kernel) (home : Home) (view : View)
    → Threaded k.proc k.queue home view
    → (i : QueueId)
    → (s' : Procs) × (boost_queue k i ≡ some (record k { proc = s' }))
      × BoostedAll k.proc s' (view i)
      × Threaded s' k.queue home view
unfolding boost_queue
boost_queue_lem k home view t i =
    let is = t.queues i in
    let short = length-view k.proc k.queue home view t i in
    let (s', e, b) =
      boost_loop_lem (nproc + 1) k.proc none (view i) (omega arith) is.chain is.distinct in
    (s', rw (is.head, e) refl, b, Threaded-same k.proc k.queue home view t s' b.links)

-- Where a process is after the boost.
unfoldable pub lifted : Option QueueId → Option QueueId
unfolding redirect
lifted h = redirect 0 1 (redirect 1 2 h)

-- The boosting of the sleeping processes and of those on the first queue.
pub record Boosted (k k' : Kernel) (home : Home) : Type 0 where
  pub queued :
      (j : ℕ)
      → ((lifted (home j) ≡ some 0) ⊎ (lifted (home j) ≡ some sleep_queue))
      → unlinked (k'.proc j) ≡ unlinked (boosted (k.proc j))
  pub others :
      (j : ℕ)
      → lifted (home j) ≢ some 0
      → lifted (home j) ≢ some sleep_queue
      → unlinked (k'.proc j) ≡ unlinked (k.proc j)
  pub lockproc : k'.lockproc ≡ k.lockproc
  pub unlockproc : k'.unlockproc ≡ k.unlockproc
  pub global_ticks : k'.global_ticks ≡ k.global_ticks
  pub cpu : k'.cpu ≡ k.cpu
  pub locked : k'.locked ≡ k.locked

module _ (k k₂ : Kernel) (same : (j : ℕ) → unlinked (k₂.proc j) ≡ unlinked (k.proc j)) (h : Home)
    (v : View) (t : Threaded k₂.proc k₂.queue h v) (s₃ s₄ : Procs)
    (b₃ : BoostedAll k₂.proc s₃ (v sleep_queue)) (b₄ : BoostedAll s₃ s₄ (v 0)) where
  away : (i : QueueId) (j : ℕ) → h j ≢ some i → Fresh j (v i)
  away = Fresh-of-home k₂.proc k₂.queue h v t

  boosted_once : (j : ℕ) → ((h j ≡ some 0) ⊎ (h j ≡ some sleep_queue)) → s₄ j ≡ boosted (k₂.proc j)
  boosted_once j (inl e) =
      b₄.on j (t.In_of_home 0 j e)
      ∙ ap boosted (b₃.off j (away sleep_queue j (rw e (λ g. ground arith))))
  boosted_once j (inr e) =
      b₄.off j (away 0 j (rw e (λ g. ground arith))) ∙ b₃.on j (t.In_of_home sleep_queue j e)

  boosted_queued :
      (j : ℕ)
      → ((h j ≡ some 0) ⊎ (h j ≡ some sleep_queue))
      → unlinked (s₄ j) ≡ unlinked (boosted (k.proc j))
  boosted_queued j e = ap unlinked (boosted_once j e) ∙ ap boosted (same j)

  boosted_others :
      (j : ℕ) → h j ≢ some 0 → h j ≢ some sleep_queue → unlinked (s₄ j) ≡ unlinked (k.proc j)
  boosted_others j m n =
      ap unlinked (b₄.off j (away 0 j m) ∙ b₃.off j (away sleep_queue j n)) ∙ same j

-- The lists after the boost.
abbrev pub lifted_view : View → View
lifted_view view =
    let v₁ = update (update view 1 (view 1 ++ view 2)) 2 [] in
    update (update v₁ 0 (v₁ 0 ++ v₁ 1)) 1 []

-- Where the queues thread the processes without overlap, `priority_boosting` never faults. It
-- moves the processes of levels 1 and 2 behind those of level 0, level 1 first, keeps the order
-- within each level, gives level 0, priority 3 and no ticks to every process of the three levels
-- and of the sleep queue, and changes no other process.
pub priority_boosting_lem :
    (k : Kernel) (home : Home) (view : View)
    → Threaded k.proc k.queue home view
    → (k' : Kernel) × (priority_boosting k ≡ some k')
      × Threaded k'.proc k'.queue (λ p. lifted (home p)) (lifted_view view)
      × Boosted k k' home
unfolding priority_boosting lifted
priority_boosting_lem k home view t =
    let (k₁, e₁, m₁) = merge_lem k home view t 1 2 (omega arith) in
    let (k₂, e₂, m₂) = merge_lem k₁ _ _ m₁.threaded 0 1 (omega arith) in
    let (s₃, e₃, b₃, t₃) = boost_queue_lem k₂ _ _ m₂.threaded sleep_queue in
    let (s₄, e₄, b₄, t₄) = boost_queue_lem (record k₂ { proc = s₃ }) _ _ t₃ 0 in
    (
      record k₂ { proc = s₄ },
      rw (e₁, e₂, e₃, e₄) refl,
      t₄,
      record {
        queued =
            boosted_queued k k₂ (λ j. m₂.same.contents j ∙ m₁.same.contents j) _ _ m₂.threaded s₃ s₄
              b₃ b₄;
        others =
            boosted_others k k₂ (λ j. m₂.same.contents j ∙ m₁.same.contents j) _ _ m₂.threaded s₃ s₄
              b₃ b₄;
        lockproc = m₂.same.lockproc ∙ m₁.same.lockproc;
        unlockproc = m₂.same.unlockproc ∙ m₁.same.unlockproc;
        global_ticks = m₂.same.global_ticks ∙ m₁.same.global_ticks;
        cpu = m₂.same.cpu ∙ m₁.same.cpu;
        locked = m₂.same.locked ∙ m₁.same.locked;
      },
    )
