-- ===== src/Mlfq/Queue/Dequeue.antt =====
-- `dequeue` of Project1/proc.c takes the first slot of the list.
use hyu_os.Prelude.{ℕ, ◌≡◌, refl, none, some, List, [], ◌∷◌, arith}
use hyu_os.Mlfq.State.{Procs, Queue}
use hyu_os.Mlfq.Queue.{dequeue, dequeue_head}
use hyu_os.Mlfq.Queue.Chain.{IsQueue, Relinks, Chain-frame, SameBut}

-- `dequeue` returns `p`, leaves the queue `ys`, and touches the links of no other queue.
abbrev pub DequeuesTo : Procs → Queue → ℕ → List ℕ → Type 0
DequeuesTo s q p ys =
    let (r, q', s') = dequeue s q in
    (r ≡ some p)
    × IsQueue s' q' ys
    × Relinks s s' (p ∷ ys)
    × ((s' p).prev ≡ none)
    × ((s' p).next ≡ none)

module _ (s : Procs) (q : Queue) where
  -- On an empty queue `dequeue` returns null and changes nothing.
  pub dequeue-nil : IsQueue s q [] → dequeue s q ≡ (none, q, s)
  unfolding dequeue
  dequeue-nil is = let e : q.head ≡ none = is.head in ground arith

  -- `dequeue` of a well-formed queue that begins with `x` returns `x`, leaves a well-formed
  -- queue of the rest, clears the links of `x`, and changes no link of another queue and no
  -- other field.
  pub dequeue-cons : (x : ℕ) (xs : List ℕ) → IsQueue s q (x ∷ xs) → DequeuesTo s q x xs
  unfolding dequeue
  dequeue-cons x [] is =
      let e : q.head ≡ some x = is.head in
      let f : (s x).next ≡ none = is.chain.1 in
      rw (e, f)
        (
          refl,
          record {
            head = refl;
            tail = refl;
            count = omega (arith, is.count);
            chain = tt;
            distinct = tt;
          },
          record { contents = λ j. ground arith; links = λ j g. ground (arith, g.0) },
          ground arith,
          ground arith,
        )
  dequeue-cons x (y ∷ ys) is =
      let e : q.head ≡ some x = is.head in
      let f : (s x).next ≡ some y = is.chain.1 in
      let s' = (dequeue_head s q x (some y)).1 in
      let same : SameBut s s' x y y = λ j k l m. ground arith in
      let tail =
        Chain-frame s s' x y y (some y) ys none same is.distinct.0.1 is.distinct.1.0 is.distinct.1.0
          is.chain.2.2 in
      rw (e, f)
        (
          refl,
          record {
            head = refl;
            tail = is.tail;
            count = omega (arith, is.count);
            chain = (
              ground (arith, is.distinct.0.0),
              ground (arith, is.distinct.0.0, is.chain.2),
              tail,
            );
            distinct = is.distinct.1;
          },
          record { contents = λ j. ground arith; links = λ j g. same j g.0 g.1.0 g.1.0 },
          ground arith,
          ground arith,
        )
