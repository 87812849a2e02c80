-- ===== src/Mlfq/Queue/Insert.antt =====
-- `insert` of Project1/proc.c against insertion into a list.
use hyu_os.Prelude.{
  ℕ, ◌≡◌, refl, sym, ap, ◌∙◌, ◌≢◌, ◌⊎◌, inl, inr, none, some, List, [], ◌∷◌, ◌++◌, arith,
  length-append, first-append, subst, append_assoc, last-append, snoc-cases, Fresh, Distinct, In,
  if◌then◌else◌,
}
use hyu_os.Mlfq.State.{Procs, Ptr, Queue}
use hyu_os.Mlfq.Queue.{insert, insert_only, insert_last, insert_first, insert_between, points_to}
use hyu_os.Mlfq.Queue.Chain.{
  Chain, IsQueue, SameBut, Relinks, first-some, Chain-append, Chain-split, Chain-frame, Fresh-split,
  Distinct-middle, Distinct-insert, Fresh-ne, In-middle, In-split,
}

-- The list with `new` in front of `base`, or at its end where there is no `base`.
unfoldable pub insert_before : Ptr → ℕ → List ℕ → List ℕ
insert_before base new [] = new ∷ []
insert_before base new (x ∷ xs) =
    if points_to base x then new ∷ x ∷ xs else x ∷ insert_before base new xs

-- `insert` succeeds, and leaves the queue `ys`.
abbrev pub InsertsTo : Procs → Queue → ℕ → Ptr → List ℕ → List ℕ → Type 0
InsertsTo s q new base xs ys =
    (q' : Queue) × (s' : Procs) × (insert s q new base ≡ some (q', s'))
    × IsQueue s' q' ys
    × Relinks s s' (new ∷ xs)

module _ (s : Procs) (q : Queue) (new : ℕ) where
  insert-nil :
      (base : Ptr) (xs : List ℕ)
      → xs ≡ []
      → IsQueue s q xs
      → InsertsTo s q new base xs (insert_before base new xs)
  unfolding insert insert_only insert_before
  insert-nil base xs e = rw e λ is. (
    (insert_only s q new).0,
    (insert_only s q new).1,
    rw is.head refl,
    record {
      head = refl;
      tail = refl;
      count = omega (arith, is.count);
      chain = ground arith;
      distinct = (tt, tt);
    },
    record { contents = λ j. ground arith; links = λ j f. ground arith },
  )

  insert-eq_last :
      {h t : ℕ}
      → q.head ≡ some h
      → q.tail ≡ some t
      → insert s q new none ≡ some (insert_last s q new t)
  unfolding insert
  insert-eq_last e f = ground arith

  insert-eq_first :
      {h : ℕ} (b : ℕ)
      → q.head ≡ some h
      → (s b).prev ≡ none
      → insert s q new (some b) ≡ some (insert_first s q new b)
  unfolding insert
  insert-eq_first b e f = ground arith

  insert-eq_between :
      {h : ℕ} (a b : ℕ)
      → q.head ≡ some h
      → (s b).prev ≡ some a
      → insert s q new (some b) ≡ some (insert_between s q new a b)
  unfolding insert
  insert-eq_between a b e f = ground arith

module _ (s : Procs) (q : Queue) (new : ℕ) (ys : List ℕ) (t : ℕ) (f : Fresh new (ys ++ (t ∷ [])))
    (is : IsQueue s q (ys ++ (t ∷ []))) where
  abbrev last_queue : Queue
  last_queue = (insert_last s q new t).0

  abbrev last_procs : Procs
  last_procs = (insert_last s q new t).1

  new-ne-last : new ≢ t
  new-ne-last = Fresh-ne new t _ f (In-middle ys t [])

  insert_last-SameBut : SameBut s last_procs new t t
  unfolding insert_last
  insert_last-SameBut j a b c = ground arith

  insert_last-Relinks : Relinks s last_procs (new ∷ (ys ++ (t ∷ [])))
  unfolding insert_last
  insert_last-Relinks = record {
    contents = λ j. ground arith;
    links = λ j g.
        insert_last-SameBut j g.0 (Fresh-ne j t _ g.1 (In-middle ys t []))
          (Fresh-ne j t _ g.1 (In-middle ys t []));
  }

  insert_last-Chain : Chain last_procs none (ys ++ (t ∷ new ∷ [])) none
  unfolding insert_last
  insert_last-Chain =
      let (fy, ft) = Fresh-split new ys (t ∷ []) f in
      let (c, d) = Chain-split s none ys (t ∷ []) none is.chain in
      let (ty, tz, dy) = Distinct-middle ys t [] is.distinct in
      Chain-append last_procs none ys (t ∷ new ∷ []) none
        (Chain-frame s last_procs new t t none ys (some t) insert_last-SameBut fy ty ty c)
        (ground (arith, new-ne-last))

  insert_last-IsQueue : IsQueue last_procs last_queue (ys ++ (t ∷ new ∷ []))
  unfolding insert_last
  insert_last-IsQueue = record {
    head = is.head ∙ first-append ys (t ∷ []) none ∙ sym (first-append ys (t ∷ new ∷ []) none);
    tail = sym (last-append none ys (t ∷ new ∷ []));
    count = omega (arith, is.count, length-append ys (t ∷ []), length-append ys (t ∷ new ∷ []));
    chain = insert_last-Chain;
    distinct =
        let (ty, tz, dy) = Distinct-middle ys t [] is.distinct in
        let (fy, ft) = Fresh-split new ys (t ∷ []) f in
        Distinct-insert ys t (new ∷ []) ty ((λ e. ft.0 (sym e)), tt)
          (Distinct-insert ys new [] fy tt dy);
  }

  insert-snoc : InsertsTo s q new none (ys ++ (t ∷ [])) (ys ++ (t ∷ new ∷ []))
  insert-snoc =
      let (h, e) = first-some ys t in
      (
        last_queue,
        last_procs,
        insert-eq_last s q new (is.head ∙ first-append ys (t ∷ []) none ∙ e)
            (is.tail ∙ last-append none ys (t ∷ [])),
        insert_last-IsQueue,
        insert_last-Relinks,
      )

module _ (s : Procs) (q : Queue) (new : ℕ) (b : ℕ) (zs : List ℕ) (f : Fresh new (b ∷ zs))
    (is : IsQueue s q (b ∷ zs)) where
  insert-first : InsertsTo s q new (some b) (b ∷ zs) (new ∷ b ∷ zs)
  unfolding insert_first
  insert-first =
      let s' = (insert_first s q new b).1 in
      let same : SameBut s s' new b b = λ j k l m. ground arith in
      let tail : Chain s' (some b) zs none =
        Chain-frame s s' new b b (some b) zs none same f.1 is.distinct.0 is.distinct.0 is.chain.2 in
      (
        (insert_first s q new b).0,
        s',
        insert-eq_first s q new b is.head is.chain.0,
        record {
          head = refl;
          tail = is.tail;
          count = omega (arith, is.count);
          chain = (
            ground arith,
            ground (arith, is.head),
            (ground arith, ground (arith, is.chain.1), tail),
          );
          distinct = (f, is.distinct);
        },
        record { contents = λ j. ground arith; links = λ j g. same j g.0 g.1.0 g.1.0 },
      )

-- What `new`, `a` and `b` are to the rest of the list.
record Apart (new : ℕ) (ys : List ℕ) (a b : ℕ) (zs : List ℕ) : Type 0 where
  new-ne-a : new ≢ a
  new-ne-b : new ≢ b
  a-ne-b : a ≢ b
  new_front : Fresh new ys
  a_front : Fresh a ys
  b_front : Fresh b ys
  new_back : Fresh new zs
  a_back : Fresh a zs
  b_back : Fresh b zs
  rest : Distinct (ys ++ zs)

Apart-middle :
    (new : ℕ) (ys : List ℕ) (a b : ℕ) (zs : List ℕ)
    → Fresh new (ys ++ (a ∷ b ∷ zs))
    → Distinct (ys ++ (a ∷ b ∷ zs))
    → Apart new ys a b zs
Apart-middle new ys a b zs f d =
    let (g, h) = Fresh-split new ys (a ∷ b ∷ zs) f in
    let (i, j, k) = Distinct-middle ys a (b ∷ zs) d in
    let (l, m, n) = Distinct-middle ys b zs k in
    record {
      new-ne-a = h.0;
      new-ne-b = h.1.0;
      a-ne-b = j.0;
      new_front = g;
      a_front = i;
      b_front = l;
      new_back = h.1.1;
      a_back = j.1;
      b_back = m;
      rest = n;
    }

module _ (s : Procs) (q : Queue) (new : ℕ) (ys : List ℕ) (a b : ℕ) (zs : List ℕ)
    (f : Fresh new (ys ++ (a ∷ b ∷ zs))) (is : IsQueue s q (ys ++ (a ∷ b ∷ zs))) where
  abbrev between_procs : Procs
  between_procs = (insert_between s q new a b).1

  apart : Apart new ys a b zs
  apart = Apart-middle new ys a b zs f is.distinct

  insert_between-SameBut : SameBut s between_procs new a b
  unfolding insert_between
  insert_between-SameBut j k l m = ground arith

  insert_between-Relinks : Relinks s between_procs (new ∷ (ys ++ (a ∷ b ∷ zs)))
  unfolding insert_between
  insert_between-Relinks = record {
    contents = λ j. ground arith;
    links = λ j g.
        let (k, l) = Fresh-split j ys (a ∷ b ∷ zs) g.1 in insert_between-SameBut j g.0 l.0 l.1.0;
  }

  insert_between-Chain : Chain between_procs none (ys ++ (a ∷ new ∷ b ∷ zs)) none
  unfolding insert_between
  insert_between-Chain =
      let (c, d) = Chain-split s none ys (a ∷ b ∷ zs) none is.chain in
      let front =
        Chain-frame s between_procs new a b none ys (some a) insert_between-SameBut apart.new_front
          apart.a_front apart.b_front c in
      let back =
        Chain-frame s between_procs new a b (some b) zs none insert_between-SameBut apart.new_back
          apart.a_back apart.b_back d.2.2 in
      Chain-append between_procs none ys (a ∷ new ∷ b ∷ zs) none front (
        ground (arith, apart.new-ne-a, apart.a-ne-b, d.0),
        ground (arith, apart.new-ne-a, apart.a-ne-b),
        (
          ground (arith, apart.new-ne-b),
          ground (arith, apart.new-ne-a),
          (ground arith, ground (arith, apart.a-ne-b, apart.new-ne-b, d.2.1), back),
        ),
      )

  insert_between-IsQueue :
      IsQueue between_procs (insert_between s q new a b).0 (ys ++ (a ∷ new ∷ b ∷ zs))
  unfolding insert_between
  insert_between-IsQueue = record {
    head =
        is.head ∙ first-append ys (a ∷ b ∷ zs) none ∙ sym (first-append ys (a ∷ new ∷ b ∷ zs) none);
    tail =
        is.tail ∙ last-append none ys (a ∷ b ∷ zs) ∙ sym (last-append none ys (a ∷ new ∷ b ∷ zs));
    count =
        omega (arith, is.count, length-append ys (a ∷ b ∷ zs), length-append ys (a ∷ new ∷ b ∷ zs));
    chain = insert_between-Chain;
    distinct =
        let bs = Distinct-insert ys b zs apart.b_front apart.b_back apart.rest in
        let ns =
          Distinct-insert ys new (b ∷ zs) apart.new_front (apart.new-ne-b, apart.new_back) bs in
        Distinct-insert ys a (new ∷ b ∷ zs) apart.a_front
          ((λ e. apart.new-ne-a (sym e)), (apart.a-ne-b, apart.a_back)) ns;
  }

  insert-middle : InsertsTo s q new (some b) (ys ++ (a ∷ b ∷ zs)) (ys ++ (a ∷ new ∷ b ∷ zs))
  insert-middle =
      let (h, e) = first-some ys a in
      let (c, d) = Chain-split s none ys (a ∷ b ∷ zs) none is.chain in
      (
        (insert_between s q new a b).0,
        between_procs,
        insert-eq_between s q new a b (is.head ∙ first-append ys (a ∷ b ∷ zs) none ∙ e) d.2.0,
        insert_between-IsQueue,
        insert_between-Relinks,
      )

insert_before-snoc : (new : ℕ) (xs : List ℕ) → insert_before none new xs ≡ xs ++ (new ∷ [])
unfolding insert_before
insert_before-snoc new [] = refl
insert_before-snoc new (x ∷ xs) = rw (insert_before-snoc new xs)

insert_before-middle :
    (b new : ℕ) (ys zs : List ℕ)
    → Fresh b ys
    → insert_before (some b) new (ys ++ (b ∷ zs)) ≡ ys ++ (new ∷ b ∷ zs)
unfolding insert_before
insert_before-middle b new [] zs f = ground arith
insert_before-middle b new (y ∷ ys) zs f = ground (arith, insert_before-middle b new ys zs f.1)

-- Where `base` is null or on the queue.
abbrev pub BaseIn : Ptr → List ℕ → Type 0
BaseIn none xs = Unit
BaseIn (some b) xs = In b xs

module _ (s : Procs) (q : Queue) (new b : ℕ) (zs : List ℕ) where
  -- Insertion in front of `b`, by what stands before it.
  insert-split :
      (ys : List ℕ)
      → (ys ≡ []) ⊎ ((xs : List ℕ) × (a : ℕ) × (ys ≡ xs ++ (a ∷ [])))
      → Fresh new (ys ++ (b ∷ zs))
      → IsQueue s q (ys ++ (b ∷ zs))
      → InsertsTo s q new (some b) (ys ++ (b ∷ zs)) (ys ++ (new ∷ b ∷ zs))
  insert-split ys (inl e) = rw e (insert-first s q new b zs)
  insert-split ys (inr (xs, a, e)) =
      rw (e, append_assoc xs (a ∷ []) (b ∷ zs), append_assoc xs (a ∷ []) (new ∷ b ∷ zs))
        (insert-middle s q new xs a b zs)

-- `insert` of a process that is not on the well-formed queue never faults: it links `new` in
-- front of `base`, which is on the queue, or at the end where `base` is null, and touches the
-- links of no other queue and no other field.
pub insert_lem :
    (s : Procs) (q : Queue) (new : ℕ) (base : Ptr) (xs : List ℕ)
    → IsQueue s q xs
    → Fresh new xs
    → BaseIn base xs
    → InsertsTo s q new base xs (insert_before base new xs)
insert_lem s q new none xs is f m = elim (snoc-cases xs) [
  | inl e ↦ insert-nil s q new none xs e is
  | inr (ys, t, e) ↦
      subst (λ l. InsertsTo s q new none l (insert_before none new l)) (sym e)
        (rw (insert_before-snoc, append_assoc ys (t ∷ []) (new ∷ []))
          (insert-snoc s q new ys t (rw e at f) (rw e at is)))
]
insert_lem s q new (some b) xs is f m =
    let (ys, zs, e, g) = In-split b xs m in
    subst (λ l. InsertsTo s q new (some b) l (insert_before (some b) new l)) (sym e)
      (rw (insert_before-middle b new ys zs g)
        (insert-split s q new b zs ys (snoc-cases ys) (rw e at f) (rw e at is)))

-- With no base the new process comes to the end.
pub insert_before-none : (p : ℕ) (xs : List ℕ) → insert_before none p xs ≡ xs ++ (p ∷ [])
unfolding insert_before
insert_before-none p [] = refl
insert_before-none p (x ∷ xs) = ap (λ l. x ∷ l) (insert_before-none p xs)
