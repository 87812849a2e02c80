-- ===== src/Mlfq/Queue/Delete.antt =====
-- `delete` of Project1/proc.c against removal from a list.
use mathlib.Core.Option.{some-injective}
use hyu_os.Prelude.{
  erase, ℕ, ◌≡◌, refl, sym, ◌∙◌, ◌≢◌, ◌⊎◌, inl, inr, none, some, List, [], ◌∷◌, ◌++◌, arith,
  length-append, first, first-append, last, last-append, snoc-cases, subst, ap, append-nil, false,
  Fresh, Distinct, In, if◌then◌else◌,
}
use hyu_os.Mlfq.State.{Procs, Ptr, Queue}
use hyu_os.Mlfq.Queue.{delete, bridge, unlink, drop_ends, points_to}
use hyu_os.Mlfq.Queue.Chain.{
  Chain, IsQueue, SameLinks, Relinks, unlinked, first-some, Chain-append, Chain-split, Fresh-split,
  Distinct-middle, Fresh-ne, In-middle, In-split, In-append-left, Chain-same, Distinct-left,
  Distinct-apart, Distinct-apart_right, first-ne, last-ne, Fresh-not_In,
}

pub erase-middle : (p : ℕ) (ys zs : List ℕ) → Fresh p ys → erase p (ys ++ (p ∷ zs)) ≡ ys ++ zs
unfolding erase
erase-middle p [] zs f = ground arith
erase-middle p (y ∷ ys) zs f = ground (arith, erase-middle p ys zs f.1)

-- The links after `unlink`: the neighbours of `p` meet.
record Bridged (s s' : Procs) (p : ℕ) (pr nx : Ptr) : Type 0 where
  kept : (bridge s p p).prev ≡ pr
  same : (j : ℕ) → j ≢ p → pr ≢ some j → nx ≢ some j → SameLinks s s' j
  contents : (j : ℕ) → unlinked (s' j) ≡ unlinked (s j)
  next_of_prev : (a : ℕ) → a ≢ p → pr ≡ some a → (s' a).next ≡ nx
  prev_of_prev : (a : ℕ) → a ≢ p → nx ≢ some a → (s' a).prev ≡ (s a).prev
  prev_of_next : (b : ℕ) → b ≢ p → nx ≡ some b → (s' b).prev ≡ pr
  next_of_next : (b : ℕ) → b ≢ p → pr ≢ some b → (s' b).next ≡ (s b).next

unlink-Bridged :
    (s : Procs) (p : ℕ) (pr nx : Ptr)
    → (s p).prev ≡ pr
    → (s p).next ≡ nx
    → pr ≢ some p
    → nx ≢ some p
    → Bridged s (unlink s p) p pr nx
unfolding unlink bridge
unlink-Bridged s p none none ep en np nn = record {
  kept = ground arith;
  same = λ j a b c. ground arith;
  contents = λ j. ground arith;
  next_of_prev = λ a h e. ground arith;
  prev_of_prev = λ a h e. ground arith;
  prev_of_next = λ a h e. ground arith;
  next_of_next = λ a h e. ground arith;
}
unlink-Bridged s p (some x) none ep en np nn = record {
  kept = ground arith;
  same = λ j a b c. ground arith;
  contents = λ j. ground arith;
  next_of_prev = λ a h e. ground arith;
  prev_of_prev = λ a h e. ground arith;
  prev_of_next = λ a h e. ground arith;
  next_of_next = λ a h e. ground arith;
}
unlink-Bridged s p none (some y) ep en np nn = record {
  kept = ground arith;
  same = λ j a b c. ground arith;
  contents = λ j. ground arith;
  next_of_prev = λ a h e. ground arith;
  prev_of_prev = λ a h e. ground arith;
  prev_of_next = λ a h e. ground arith;
  next_of_next = λ a h e. ground arith;
}
unlink-Bridged s p (some x) (some y) ep en np nn = record {
  kept = ground arith;
  same = λ j a b c. ground arith;
  contents = λ j. ground arith;
  next_of_prev = λ a h e. ground arith;
  prev_of_prev = λ a h e. ground arith;
  prev_of_next = λ a h e. ground arith;
  next_of_next = λ a h e. ground arith;
}

module _ (s s' : Procs) (p : ℕ) where
  snoc-Chain :
      (xs : List ℕ) (a : ℕ) (nx : Ptr)
      → Bridged s s' p (some a) nx
      → Fresh p (xs ++ (a ∷ []))
      → Distinct (xs ++ (a ∷ []))
      → ((j : ℕ) → In j (xs ++ (a ∷ [])) → nx ≢ some j)
      → Chain s none (xs ++ (a ∷ [])) (some p)
      → Chain s' none (xs ++ (a ∷ [])) nx
  snoc-Chain xs a nx br f d apart c =
      let (k, l) = Chain-split s none xs (a ∷ []) (some p) c in
      let (g, h) = Fresh-split p xs (a ∷ []) f in
      let ma = In-middle xs a [] in
      let na : a ≢ p = λ e. h.0 (sym e) in
      let front =
        Chain-same s s' none xs (some a)
          (λ j m.
            br.same j (λ e. Fresh-ne p j xs g m (sym e))
              (λ e.
                Fresh-not_In a xs (Distinct-middle xs a [] d).0
                  (subst (λ x. In x xs) (some-injective _ _ (sym e)) m))
              (apart j (In-append-left j xs (a ∷ []) m)))
          k in
      Chain-append s' none xs (a ∷ []) nx front
        (br.prev_of_prev a na (apart a ma) ∙ l.0, br.next_of_prev a na refl, tt)

  -- In front of `p` only the last slot changes, and then only its `next`.
  front-Chain :
      (ys zs : List ℕ)
      → (ys ≡ []) ⊎ ((xs : List ℕ) × (a : ℕ) × (ys ≡ xs ++ (a ∷ [])))
      → Bridged s s' p (last none ys) (first zs none)
      → Distinct (ys ++ (p ∷ zs))
      → Chain s none ys (some p)
      → Chain s' none ys (first zs none)
  front-Chain ys zs (inl e) br d c = rw e tt
  front-Chain ys zs (inr (xs, a, e)) br d c =
      let (f, g, h) = Distinct-middle ys p zs d in
      rw e (
        snoc-Chain xs a (first zs none)
          (subst (λ l. Bridged s s' p l (first zs none))
            (ap (last none) e ∙ last-append none xs (a ∷ [])) br)
          (rw e at f) (rw e at (Distinct-left ys (p ∷ zs) d))
          (λ j m. first-ne zs j (Distinct-apart ys (p ∷ zs) j d (rw (← e) at m)).1) (rw e at c))

  -- Behind `p` only the first slot changes, and then only its `prev`.
  back-Chain :
      (ys zs : List ℕ)
      → Bridged s s' p (last none ys) (first zs none)
      → Distinct (ys ++ (p ∷ zs))
      → Chain s (some p) zs none
      → Chain s' (last none ys) zs none
  back-Chain ys [] br d c = tt
  back-Chain ys (b ∷ zs) br d c =
      let (f, g, h) = Distinct-middle ys p (b ∷ zs) d in
      let (k, l, m) = Distinct-middle ys b zs h in
      let nb : b ≢ p = λ e. g.0 (sym e) in
      let apart = last-ne none ys b (λ e. cc) k in
      (
        br.prev_of_next b nb refl,
        br.next_of_next b nb apart ∙ c.1,
        Chain-same s s' (some b) zs none
            (λ j i.
              br.same j (λ e. Fresh-ne p j zs g.1 i (sym e))
                (last-ne none ys j (λ e. cc)
                  (Distinct-apart_right ys zs j (Distinct-middle ys b zs h).2 i))
                (λ e. Fresh-not_In b zs l (subst (λ x. In x zs) (some-injective _ _ (sym e)) i)))
            c.2,
      )

-- `delete` leaves the queue `ys`, and touches the links of no other queue.
abbrev pub DeletesTo : Procs → Queue → ℕ → List ℕ → List ℕ → Type 0
DeletesTo s q p xs ys =
    let (q', s') = delete s q p in
    IsQueue s' q' ys × Relinks s s' xs × ((s' p).prev ≡ none) × ((s' p).next ≡ none)

pick_head :
    (p : ℕ) (n : Ptr) (ys zs : List ℕ)
    → Fresh p ys
    → n ≡ first zs none
    → (let h = first (ys ++ (p ∷ zs)) none in if points_to h p then n else h)
      ≡ first (ys ++ zs) none
pick_head p n [] zs f e = ground arith
pick_head p n (y ∷ ys) zs f e = ground (arith, f.0)

not_points : (h : Ptr) (p : ℕ) → h ≢ some p → points_to h p ≡ false
not_points none p n = refl
not_points (some x) p n = ground arith

pick_tail :
    (p : ℕ) (ys zs : List ℕ)
    → Fresh p zs
    → (let h = last none (ys ++ (p ∷ zs)) in if points_to h p then last none ys else h)
      ≡ last none (ys ++ zs)
pick_tail p ys [] f = rw (last-append none ys (p ∷ []), append-nil) (ground arith)
pick_tail p ys (z ∷ zs) f = rw (
  last-append none ys (p ∷ z ∷ zs),
  last-append none ys (z ∷ zs),
  not_points (last (some z) zs) p (last-ne (some z) zs p (ground (arith, f.0)) f.1),
)

module _ (s : Procs) (q : Queue) (p : ℕ) (ys zs : List ℕ) (is : IsQueue s q (ys ++ (p ∷ zs))) where
  links : ((s p).prev ≡ last none ys) × ((s p).next ≡ first zs none)
  links = let (c, d) = Chain-split s none ys (p ∷ zs) none is.chain in (d.0, d.1)

  parts : Fresh p ys × Fresh p zs × Distinct (ys ++ zs)
  parts = Distinct-middle ys p zs is.distinct

  bridged : Bridged s (unlink s p) p (last none ys) (first zs none)
  bridged =
      unlink-Bridged s p (last none ys) (first zs none) links.0 links.1
        (last-ne none ys p (λ e. cc) parts.0) (first-ne zs p parts.1)

  delete-eq : delete s q p ≡ (drop_ends s q p, unlink s p)
  unfolding delete
  delete-eq =
      let (h, e) = first-some ys p in
      let nonempty : q.head ≡ some h = is.head ∙ first-append ys (p ∷ zs) none ∙ e in ground arith

  unlink-IsQueue : IsQueue (unlink s p) (drop_ends s q p) (ys ++ zs)
  unfolding drop_ends
  unlink-IsQueue = record {
    head = rw is.head (pick_head p (s p).next ys zs parts.0 links.1);
    tail = rw (bridged.kept, is.tail) (pick_tail p ys zs parts.1);
    count = omega (arith, is.count, length-append ys (p ∷ zs), length-append ys zs);
    chain =
        let (c, d) = Chain-split s none ys (p ∷ zs) none is.chain in
        Chain-append (unlink s p) none ys zs none
          (front-Chain s (unlink s p) p ys zs (snoc-cases ys) bridged is.distinct c)
          (back-Chain s (unlink s p) p ys zs bridged is.distinct d.2);
    distinct = parts.2;
  }

  unlink-Relinks : Relinks s (unlink s p) (ys ++ (p ∷ zs))
  unlink-Relinks = record {
    contents = bridged.contents;
    links = λ j f.
        let (g, h) = Fresh-split j ys (p ∷ zs) f in
        bridged.same j h.0 (last-ne none ys j (λ e. cc) g) (first-ne zs j h.1);
  }

  delete-split : DeletesTo s q p (ys ++ (p ∷ zs)) (ys ++ zs)
  unfolding unlink
  delete-split = rw delete-eq (unlink-IsQueue, unlink-Relinks, ground arith, ground arith)

-- `delete` of a process that is on a well-formed queue takes exactly it off, clears its links,
-- and touches the links of no other queue and no other field.
pub delete_lem :
    (s : Procs) (q : Queue) (p : ℕ) (xs : List ℕ)
    → IsQueue s q xs
    → In p xs
    → DeletesTo s q p xs (erase p xs)
delete_lem s q p xs is m =
    let (ys, zs, e, f) = In-split p xs m in
    subst (λ l. DeletesTo s q p l (erase p l)) (sym e)
      (rw (erase-middle p ys zs f) (delete-split s q p ys zs (rw e at is)))
