-- ===== src/Mlfq/Queue/Merge.antt =====
-- `merge_queue` of Project1/proc.c appends the second list to the first.
use hyu_os.Prelude.{
  ℕ, ◌+◌, ◌≡◌, refl, sym, ◌∙◌, inl, inr, none, some, List, [], ◌∷◌, ◌++◌, arith, length-append,
  first-append, last-append, append-nil, append_assoc, snoc-cases, Distinct,
}
use hyu_os.Mlfq.State.{Procs, Queue}
use hyu_os.Mlfq.Queue.{merge_queue, join, initqueue}
use hyu_os.Mlfq.Queue.Chain.{
  Chain, IsQueue, Relinks, Chain-frame, Chain-append, Chain-split, SameBut, first-some,
  Distinct-middle, Fresh-split,
}

-- `merge_queue` succeeds, leaves `zs` in the first queue and nothing in the second.
abbrev pub MergesTo : Procs → Queue → Queue → List ℕ → Type 0
MergesTo s q₁ q₂ zs =
    (r₁ : Queue) × (r₂ : Queue) × (s' : Procs) × (merge_queue s q₁ q₂ ≡ some (r₁, r₂, s'))
    × IsQueue s' r₁ zs
    × IsQueue s' r₂ []
    × Relinks s s' zs

pub initqueue-IsQueue : (s : Procs) → IsQueue s initqueue []
unfolding initqueue
initqueue-IsQueue s = record { head = refl; tail = refl; count = refl; chain = tt; distinct = tt }

Relinks-refl : (s : Procs) (xs : List ℕ) → Relinks s s xs
Relinks-refl s xs = record { contents = λ j. refl; links = λ j f. (refl, refl) }

module _ (s : Procs) (q₁ q₂ : Queue) where
  merge_queue-nil_right :
      (xs : List ℕ) → IsQueue s q₁ xs → IsQueue s q₂ [] → MergesTo s q₁ q₂ (xs ++ [])
  unfolding merge_queue
  merge_queue-nil_right xs is is' =
      let e : q₂.head ≡ none = is'.head in
      (q₁, q₂, s, ground arith, rw append-nil is, is', Relinks-refl s _)

  merge_queue-nil_left :
      (y : ℕ) (ys : List ℕ) → IsQueue s q₁ [] → IsQueue s q₂ (y ∷ ys) → MergesTo s q₁ q₂ (y ∷ ys)
  unfolding merge_queue
  merge_queue-nil_left y ys is is' =
      let e : q₁.head ≡ none = is.head in
      let f : q₂.head ≡ some y = is'.head in
      (
        record { head = q₂.head; tail = q₂.tail; count = q₁.count + q₂.count },
        initqueue,
        s,
        ground arith,
        record {
          head = is'.head;
          tail = is'.tail;
          count = omega (arith, is.count, is'.count);
          chain = is'.chain;
          distinct = is'.distinct;
        },
        initqueue-IsQueue s,
        Relinks-refl s _,
      )

module _ (s : Procs) (q₁ q₂ : Queue) (xs : List ℕ) (t y : ℕ) (ys : List ℕ)
    (is : IsQueue s q₁ (xs ++ (t ∷ []))) (is' : IsQueue s q₂ (y ∷ ys))
    (d : Distinct (xs ++ (t ∷ y ∷ ys))) where
  abbrev joined : Procs
  joined = join s t y

  join-SameBut : SameBut s joined t y y
  unfolding join
  join-SameBut j k l m = ground arith

  join-Chain : Chain joined none (xs ++ (t ∷ y ∷ ys)) none
  unfolding join
  join-Chain =
      let (a, b, c) = Distinct-middle xs t (y ∷ ys) d in
      let (a', b', c') = Distinct-middle xs y ys c in
      let (k, l) = Chain-split s none xs (t ∷ []) none is.chain in
      Chain-append joined none xs (t ∷ y ∷ ys) none
        (Chain-frame s joined t y y none xs (some t) join-SameBut a a' a' k)
        (
          ground (arith, l.0, b.0),
          ground (arith, b.0),
          (
            ground (arith),
            ground (arith, is'.chain.1, b.0),
            Chain-frame s joined t y y (some y) ys none join-SameBut b.1 b' b' is'.chain.2,
          ),
        )

  join-Relinks : Relinks s joined (xs ++ (t ∷ y ∷ ys))
  unfolding join
  join-Relinks = record {
    contents = λ j. ground arith;
    links = λ j f. let (g, h) = Fresh-split j xs (t ∷ y ∷ ys) f in join-SameBut j h.0 h.1.0 h.1.0;
  }

  merge_queue-join : MergesTo s q₁ q₂ (xs ++ (t ∷ y ∷ ys))
  unfolding merge_queue
  merge_queue-join =
      let (h, e) = first-some xs t in
      let head : q₁.head ≡ some h = is.head ∙ first-append xs (t ∷ []) none ∙ e in
      let tail : q₁.tail ≡ some t = is.tail ∙ last-append none xs (t ∷ []) in
      let head' : q₂.head ≡ some y = is'.head in
      (
        record q₁ { tail = q₂.tail; count = q₁.count + q₂.count },
        initqueue,
        joined,
        ground arith,
        record {
          head = is.head ∙ first-append xs (t ∷ []) none ∙ sym (first-append xs (t ∷ y ∷ ys) none);
          tail = is'.tail ∙ sym (last-append none xs (t ∷ y ∷ ys));
          count = omega (
            arith,
            is.count,
            is'.count,
            length-append xs (t ∷ []),
            length-append xs (t ∷ y ∷ ys),
          );
          chain = join-Chain;
          distinct = d;
        },
        initqueue-IsQueue joined,
        join-Relinks,
      )

-- `merge_queue` of two well-formed queues that share no process never faults: the first gets the
-- processes of both, its own first, the second is left empty, and no other link or field changes.
pub merge_queue_lem :
    (s : Procs) (q₁ q₂ : Queue) (xs ys : List ℕ)
    → IsQueue s q₁ xs
    → IsQueue s q₂ ys
    → Distinct (xs ++ ys)
    → MergesTo s q₁ q₂ (xs ++ ys)
merge_queue_lem s q₁ q₂ xs [] is is' d = merge_queue-nil_right s q₁ q₂ xs is is'
merge_queue_lem s q₁ q₂ xs (y ∷ ys) is is' d = elim (snoc-cases xs) [
  | inl e ↦ rw e (merge_queue-nil_left s q₁ q₂ y ys (rw e at is) is')
  | inr (zs, t, e) ↦
      rw (e, append_assoc zs (t ∷ []) (y ∷ ys))
        (merge_queue-join s q₁ q₂ zs t y ys (rw e at is) is'
          (rw (e, append_assoc zs (t ∷ []) (y ∷ ys)) at d))
]
