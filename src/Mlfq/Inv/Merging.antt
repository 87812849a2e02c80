-- ===== src/Mlfq/Inv/Merging.antt =====
-- `merge_queue` on two queues of the kernel: the processes of the second move to the first.
use mathlib.Core.Option.{some-injective}
use hyu_os.Prelude.{
  ℕ, ◌≡◌, refl, sym, ◌∙◌, ap, ◌≢◌, ◌⊎◌, inl, inr, Option, none, some, List, [], ◌∷◌, ◌++◌, arith,
  Fresh, Distinct, In, eq-cases, update, update_self, update_ne, if◌then◌else◌, ◌==◌,
}
use hyu_os.Mlfq.State.{Procs, Queue, QueueId}
use hyu_os.Mlfq.Queue.Chain.{
  IsQueue, Relinks, In-append-left, In-append-right, Fresh-of-not_In, Fresh-append,
}
use hyu_os.Mlfq.Queue.Merge.{merge_queue_lem}
use hyu_os.Mlfq.Kernel.{Kernel, merge}
use hyu_os.Mlfq.Inv.Threaded.{Home, View, Threaded, SameGlobals, IsQueue-same, relinked}

-- Whoever was at home in `j` is at home in `i`.
unfoldable pub redirect : QueueId → QueueId → Option QueueId → Option QueueId
redirect i j none = none
redirect i j (some h) = if h == j then some i else some h

In-of-append : (x : ℕ) (xs ys : List ℕ) → In x (xs ++ ys) → In x xs ⊎ In x ys
In-of-append x [] ys m = inr m
In-of-append x (y ∷ xs) ys (inl e) = inl (inl e)
In-of-append x (y ∷ xs) ys (inr m) = elim (In-of-append x xs ys m) [
  | inl h ↦ inl (inr h)
  | inr h ↦ inr h
]

Distinct-append :
    (xs ys : List ℕ)
    → Distinct xs
    → Distinct ys
    → ((x : ℕ) → In x xs → Fresh x ys)
    → Distinct (xs ++ ys)
Distinct-append [] ys d e h = e
Distinct-append (x ∷ xs) ys d e h =
    (Fresh-append x xs ys d.0 (h x (inl refl)), Distinct-append xs ys d.1 e (λ y m. h y (inr m)))

-- The kernel after the merge.
pub record Merged (k k' : Kernel) (home : Home) (view : View) (i j : QueueId) : Type 0 where
  pub same : SameGlobals k k'
  pub threaded :
      Threaded k'.proc k'.queue
        (λ p. redirect i j (home p))
        (update (update view i (view i ++ view j)) j [])

module _ (k : Kernel) (home : Home) (view : View) (t : Threaded k.proc k.queue home view)
    (i j : QueueId) (ne : i ≢ j) where
  abbrev merged_view : View
  merged_view = update (update view i (view i ++ view j)) j []

  view_i : merged_view i ≡ view i ++ view j
  view_i =
      rw (update_ne (update view i (view i ++ view j)) [] (λ e. ne (sym e))) (update_self view i _)

  view_other : (l : QueueId) → i ≢ l → j ≢ l → merged_view l ≡ view l
  view_other l a b = rw (update_ne (update view i (view i ++ view j)) [] b) (update_ne view _ a)

  apart : (x : ℕ) → In x (view i) → Fresh x (view j)
  apart x m =
      Fresh-of-not_In x (view j) (λ y n e.
        ne (some-injective _ _ (sym (t.home_of_In i x m) ∙ ap home e ∙ t.home_of_In j y n)))

  arrives : (x : ℕ) → In x (view i ++ view j) → redirect i j (home x) ≡ some i
  unfolding redirect
  arrives x m = elim (In-of-append x (view i) (view j) m) [
    | inl h ↦ rw (t.home_of_In i x h) (ground arith)
    | inr h ↦ rw (t.home_of_In j x h) (ground arith)
  ]

  remains : (x : ℕ) (l : QueueId) → j ≢ l → home x ≡ some l → redirect i j (home x) ≡ some l
  unfolding redirect
  remains x l n e = rw e (ground arith)

  came :
      (x : ℕ) (l : QueueId)
      → redirect i j (home x) ≡ some l
      → (((home x ≡ some i) ⊎ (home x ≡ some j)) × (l ≡ i)) ⊎ ((home x ≡ some l) × (j ≢ l))
  unfolding redirect
  came x l e = ground arith

  elsewhere : (x : ℕ) (l : QueueId) → i ≢ l → j ≢ l → In x (view l) → Fresh x (view i ++ view j)
  elsewhere x l a b m =
      Fresh-append x (view i) (view j) (Fresh-of-not_In x (view i) (λ y n e. a (same_home i y n e)))
        (Fresh-of-not_In x (view j) (λ y n e. b (same_home j y n e)))
    where
      same_home : (h : QueueId) (y : ℕ) → In y (view h) → x ≡ y → h ≡ l
      same_home h y n e =
          some-injective _ _ (sym (t.home_of_In h y n) ∙ ap home (sym e) ∙ t.home_of_In l x m)

  module _ (q₁ q₂ : Queue) (s' : Procs) (is₁ : IsQueue s' q₁ (view i ++ view j))
      (is₂ : IsQueue s' q₂ []) (r : Relinks k.proc s' (view i ++ view j)) where
    merged_queues : (l : QueueId) → IsQueue s' (update (update k.queue i q₁) j q₂ l) (merged_view l)
    merged_queues l = elim (eq-cases j l) [
      | inl e ↦
          rw
            (
              ← e,
              update_self (update k.queue i q₁) j q₂,
              update_self (update view i (view i ++ view j)) j [],
            )
            is₂
      | inr n ↦
          rw
            (
              update_ne (update k.queue i q₁) q₂ n,
              update_ne (update view i (view i ++ view j)) [] n,
            )
            (elim (eq-cases i l) [
              | inl e ↦
                  rw (← e, update_self k.queue i q₁, update_self view i (view i ++ view j)) is₁
              | inr m ↦
                  rw (update_ne k.queue q₁ m, update_ne view (view i ++ view j) m)
                    (IsQueue-same k.proc s' (k.queue l) (view l)
                      (λ x h. r.links x (elsewhere x l m n h)) (t.queues l))
            ])
    ]

    merged_home : (l : QueueId) (x : ℕ) → In x (merged_view l) → redirect i j (home x) ≡ some l
    merged_home l x = elim (eq-cases j l) [
      | inl e ↦ rw (← e, update_self (update view i (view i ++ view j)) j []) (λ m. absurd m)
      | inr n ↦ rw (update_ne (update view i (view i ++ view j)) [] n) (elim (eq-cases i l) [
        | inl e ↦ rw (← e, update_self view i (view i ++ view j)) (arrives x)
        | inr m ↦ rw (update_ne view (view i ++ view j) m) (λ h. remains x l n (t.home_of_In l x h))
      ])
    ]

    merged_In : (l : QueueId) (x : ℕ) → redirect i j (home x) ≡ some l → In x (merged_view l)
    merged_In l x e = elim (came x l e) [
      | inl (h, q) ↦
          rw (q, view_i)
            (elim h [
              | inl a ↦ In-append-left x (view i) (view j) (t.In_of_home i x a)
              | inr a ↦ In-append-right x (view i) (view j) (t.In_of_home j x a)
            ])
      | inr (h, n) ↦ elim (eq-cases i l) [
        | inl a ↦ rw (← a, view_i) (In-append-left x (view i) (view j) (t.In_of_home i x (rw a h)))
        | inr a ↦ rw (view_other l a n) (t.In_of_home l x h)
      ]
    ]

    merged_Threaded :
        Threaded s' (update (update k.queue i q₁) j q₂) (λ p. redirect i j (home p)) merged_view
    merged_Threaded = record {
      queues = merged_queues;
      home_of_In = merged_home;
      In_of_home = merged_In;
      in_table = λ l x e. elim (came x l e) [
        | inl (h, q) ↦ elim h [ inl a ↦ t.in_table i x a | inr a ↦ t.in_table j x a ]
        | inr (h, n) ↦ t.in_table l x h
      ];
    }

  -- `merge_queue` on two queues of the kernel never faults, and moves every process of the second
  -- to the end of the first.
  pub merge_lem : (k' : Kernel) × (merge k i j ≡ some k') × Merged k k' home view i j
  unfolding merge
  merge_lem =
      let d = Distinct-append (view i) (view j) (t.queues i).distinct (t.queues j).distinct apart in
      let (q₁, q₂, s', e, is₁, is₂, r) =
        merge_queue_lem k.proc (k.queue i) (k.queue j) (view i) (view j) (t.queues i) (t.queues j)
          d in
      (
        record k { proc = s'; queue = update (update k.queue i q₁) j q₂ },
        rw e refl,
        record {
          same =
              relinked k home view t i i s' (update (update k.queue i q₁) j q₂) (view i ++ view j)
                r;
          threaded = merged_Threaded q₁ q₂ s' is₁ is₂ r;
        },
      )
