-- ===== src/Kalloc/Pages.antt =====
-- The free list holds distinct pages: `kfree` adds one and `kalloc` hands out the last one added.
use hyu_os.Prelude.{
  ℕ, zero, suc, ◌+◌, ◌-◌, ◌%◌, ◌≤◌, ◌<◌, ◌≡◌, refl, ◌∙◌, ap, inl, inr, true, false, none, some,
  List, [], ◌∷◌, arith, Bool-cases, length, ◌/◌, first, Fresh, Distinct, All, In, ◌⊎◌, eq-cases,
  update, update_self, update_ne, lt-cases, leb,
}
use hyu_os.Prelude.Words.{page_size, page_round_up}
use hyu_os.Mlfq.State.{Ptr}
use hyu_os.Kalloc.{
  kern_base, phys_stop, Kmem, enter, leave, behind, is_page, kfree, kalloc, free_loop, freerange,
  kinit1,
}

-- Every page of the list points to the next.
abbrev pub Linked : (ℕ → Ptr) → List ℕ → Type 0
Linked next [] = Unit
Linked next (v ∷ vs) = (next v ≡ first vs none) × Linked next vs

-- The free pages are `vs`, and the lock is free.
pub record IsFree (k : Kmem) (vs : List ℕ) : Type 0 where
  pub head : k.freelist ≡ first vs none
  pub linked : Linked k.next vs
  pub distinct : Distinct vs
  pub free : k.locked ≡ false

Linked-update :
    (next : ℕ → Ptr) (v : ℕ) (o : Ptr) (vs : List ℕ)
    → Fresh v vs
    → Linked next vs
    → Linked (update next v o) vs
Linked-update next v o [] h l = tt
Linked-update next v o (w ∷ vs) h l =
    (update_ne next o h.0 ∙ l.0, Linked-update next v o vs h.1 l.1)

module _ (k : Kmem) (vs : List ℕ) (s : IsFree k vs) where
  freed : ℕ → Kmem
  freed v = record k { locked = false; next = update k.next v k.freelist; freelist = some v }

  kfree-eq : (image v : ℕ) → is_page image v ≡ true → kfree image v k ≡ some (freed v)
  unfolding kfree freed enter leave
  kfree-eq image v h = elim (Bool-cases k.use_lock) [
    | inl u ↦ rw (h, u, s.free) refl
    | inr u ↦
        rw (h, u)
          (λ i. some (record k {
            locked = s.free i;
            use_lock = false;
            next = update k.next v k.freelist;
            freelist = some v;
          }))
  ]

  -- `kfree` of a page that is not free puts it at the head of the list and never panics.
  pub kfree_lem :
      (image v : ℕ)
      → is_page image v ≡ true
      → Fresh v vs
      → (k' : Kmem) × (kfree image v k ≡ some k') × IsFree k' (v ∷ vs)
  unfolding freed
  kfree_lem image v h f = (
    freed v,
    kfree-eq image v h,
    record {
      head = refl;
      linked = (
        update_self k.next v k.freelist ∙ s.head,
        Linked-update k.next v k.freelist vs f s.linked,
      );
      distinct = (f, s.distinct);
      free = refl;
    },
  )

  taken : Kmem
  taken = record k { locked = false; freelist = behind k k.freelist }

  kalloc-eq : kalloc k ≡ some (k.freelist, taken)
  unfolding kalloc taken enter leave
  kalloc-eq = elim (Bool-cases k.use_lock) [
    | inl u ↦ rw (u, s.free) refl
    | inr u ↦ rw u (λ i. some (
      k.freelist,
      record k {
        locked = s.free i;
        use_lock = false;
        freelist = behind (record k { use_lock = false }) k.freelist;
      },
    ))
  ]

-- The list without its first page.
abbrev pub rest : List ℕ → List ℕ
rest [] = []
rest (v ∷ vs) = vs

taken-IsFree : (k : Kmem) (vs : List ℕ) (s : IsFree k vs) → IsFree (taken k vs s) (rest vs)
unfolding taken
taken-IsFree k [] s = record { head = rw s.head refl; linked = tt; distinct = tt; free = refl }
taken-IsFree k (v ∷ vs) s = record {
  head = rw s.head s.linked.0;
  linked = s.linked.1;
  distinct = s.distinct.1;
  free = refl;
}

-- `kalloc` takes the first free page off the list and returns it, or null where there is none.
pub kalloc_lem :
    (k : Kmem) (vs : List ℕ)
    → IsFree k vs
    → (k' : Kmem) × (kalloc k ≡ some (first vs none, k')) × IsFree k' (rest vs)
kalloc_lem k vs s =
    (taken k vs s, kalloc-eq k vs s ∙ ap (λ h. some (h, taken k vs s)) s.head, taken-IsFree k vs s)

Fresh-below : (v : ℕ) (vs : List ℕ) → All (λ w. w < v) vs → Fresh v vs
Fresh-below v [] h = tt
Fresh-below v (w ∷ vs) h = ((λ e. absurd (omega (arith, h.0))), Fresh-below v vs h.1)

All-below : (a b : ℕ) (vs : List ℕ) → a ≤ b → All (λ w. w < a) vs → All (λ w. w < b) vs
All-below a b [] h l = tt
All-below a b (w ∷ vs) h l = (omega (arith, l.0), All-below a b vs h l.1)

-- `w` is a whole page of the range from `p` to `vend`.
abbrev pub InRange : ℕ → ℕ → ℕ → Type 0
InRange p vend w = (w % page_size ≡ 0) × (p ≤ w) × (w + page_size ≤ vend)

-- The pages of `ws` are those of `vs` and the whole pages from `p` to `vend`.
pub record Freed (p vend : ℕ) (vs ws : List ℕ) : Type 0 where
  pub old : (w : ℕ) → In w vs → In w ws
  pub new : (w : ℕ) → InRange p vend w → In w ws
  pub only : (w : ℕ) → In w ws → In w vs ⊎ InRange p vend w

Freed-nil : (p vend : ℕ) (vs : List ℕ) → vend < p + page_size → Freed p vend vs vs
Freed-nil p vend vs o = record {
  old = λ w m. m;
  new = λ w (h : InRange p vend w). absurd (omega (arith, h.1, h.2));
  only = λ w m. inl m;
}

Freed-cons :
    (p vend : ℕ) (vs ws : List ℕ)
    → p % page_size ≡ 0
    → p + page_size ≤ vend
    → Freed (p + page_size) vend (p ∷ vs) ws
    → Freed p vend vs ws
Freed-cons p vend vs ws a le f = record {
  old = λ w m. f.old w (inr m);
  new = λ w (h : InRange p vend w). elim (eq-cases w p) [
    | inl e ↦ f.old w (inl e)
    | inr n ↦ f.new w (h.0, omega (arith, h.0, h.1), h.2)
  ];
  only = λ w m. elim (f.only w m) [
    | inl (inl e) ↦ inr (omega (arith, e), omega (arith, e), omega (arith, e))
    | inl (inr i) ↦ inl i
    | inr h ↦ inr (h.0, omega (arith, h.1), h.2)
  ];
}

module _ (image vend : ℕ) (top : vend ≤ kern_base + phys_stop) where
  page_at :
      (p : ℕ)
      → p % page_size ≡ 0
      → image ≤ p
      → kern_base ≤ p
      → p + page_size ≤ vend
      → is_page image p ≡ true
  page_at p h i k l = ground arith

  stop :
      (f p : ℕ) (k : Kmem)
      → leb (p + page_size) vend ≡ false
      → free_loop (suc f) image p vend k ≡ some k
  unfolding free_loop
  stop f p k t = ground arith

  go :
      (f p : ℕ) (k k₁ : Kmem)
      → leb (p + page_size) vend ≡ true
      → kfree image p k ≡ some k₁
      → free_loop (suc f) image p vend k ≡ free_loop f image (p + page_size) vend k₁
  unfolding free_loop
  go f p k k₁ t g = ground arith

  -- The loop of `freerange` never panics on a range of the memory behind the kernel, and frees
  -- every whole page of it.
  pub free_loop_lem :
      (f p : ℕ) (k : Kmem) (vs : List ℕ)
      → IsFree k vs
      → All (λ w. w < p) vs
      → p % page_size ≡ 0
      → image ≤ p
      → kern_base ≤ p
      → 0 < f
      → vend < p + f
      → (k' : Kmem) × (vs' : List ℕ) × (free_loop f image p vend k ≡ some k')
        × IsFree k' vs'
        × (length vs' ≡ length vs + (vend - p) / page_size)
        × Freed p vend vs vs'
  free_loop_lem zero p k vs s b h i l o e = absurd (omega arith)
  free_loop_lem (suc f) p k vs s b h i l z e = elim (lt-cases vend (p + page_size)) [
    | inl o ↦
        let t : leb (p + page_size) vend ≡ false = ground arith in
        (k, vs, stop f p k t, s, omega arith, Freed-nil p vend vs o)
    | inr o ↦
        let t : leb (p + page_size) vend ≡ true = ground arith in
        let (k₁, g, s₁) = kfree_lem k vs s image p (page_at p h i l o) (Fresh-below p vs b) in
        let (k₂, vs₂, g₂, s₂, n, w) =
          free_loop_lem f (p + page_size) k₁ (p ∷ vs) s₁
            (omega arith, All-below p (p + page_size) vs (omega arith) b) (omega arith)
            (omega arith) (omega arith) (omega arith) (omega arith) in
        (k₂, vs₂, go f p k k₁ t g ∙ g₂, s₂, omega arith, Freed-cons p vend vs vs₂ h o w)
  ]

-- With an empty free list, `kinit1` of a range of the memory behind the kernel ends without a
-- panic: it leaves a list of distinct pages, which are exactly the aligned addresses at which a
-- whole page lies in the range, as many as fit between the rounded start and the end.
pub kinit1_lem :
    (image vstart vend : ℕ) (k : Kmem)
    → k.freelist ≡ none
    → image ≤ vstart
    → kern_base ≤ vstart
    → vstart ≤ vend
    → vend ≤ kern_base + phys_stop
    → (k' : Kmem) × (vs : List ℕ) × (kinit1 image vstart vend k ≡ some k')
      × IsFree k' vs
      × (length vs ≡ (vend - page_round_up vstart) / page_size)
      × ((w : ℕ) → In w vs → InRange vstart vend w)
      × ((w : ℕ) → InRange vstart vend w → In w vs)
unfolding kinit1 freerange
kinit1_lem image vstart vend k e i b l top =
    let k₀ = record k { locked = false; use_lock = false } in
    let s : IsFree k₀ [] = record { head = e; linked = tt; distinct = tt; free = refl } in
    let (k', vs, g, w, n, r) =
      free_loop_lem image vend top (vend + 1) (page_round_up vstart) k₀ [] s tt (omega arith)
        (omega arith) (omega arith) (omega arith) (omega arith) in
    (
      k',
      vs,
      g,
      w,
      n ∙ omega arith,
      λ x m. elim (r.only x m) [
        | inl none_yet ↦ absurd none_yet
        | inr q ↦ (q.0, omega (arith, q.1), q.2)
      ],
      λ x q. r.new x (q.0, omega (arith, q.0, q.1, q.2), q.2),
    )
