-- ===== src/Mlfq/Inv/Bearing.antt =====
-- `fork` as a whole.
use hyu_os.Prelude.{
  ℕ, ◌+◌, ◌≡◌, refl, sym, ◌∙◌, ap, ◌≢◌, ◌⊎◌, inl, inr, subst, false, Option, none, some, List, [],
  ◌∷◌, ◌++◌, update_self, update_ne, eq-cases, Option-cases,
}
use hyu_os.Mlfq.State.{unused, running, Proc, unused_queue}
use hyu_os.Mlfq.Kernel.{Kernel, modify}
use hyu_os.Mlfq.Queue.Chain.{IsQueue, unlinked}
use hyu_os.Mlfq.Birth.{
  conceived, barren, give_back, take_slot, fit_out, allocproc, copied, inherit, born, raise_child,
  publish, fork,
}
use hyu_os.Mlfq.Inv.Threaded.{Home, View}
use hyu_os.Mlfq.Inv.Live.{Inv}
use hyu_os.Mlfq.Inv.Forking.{give_back-Inv, publish-Inv}
use hyu_os.Mlfq.Inv.Growing.{List-shape, Grown, take_slot-nil, take_slot-cons, grow}

-- The fields of a child of `p`: its number is `id`, its stack `a`, its page table `d`, and the rest
-- is what `fork` copies of the parent or what `allocproc` sets in the slot.
abbrev pub offspring : ℕ → ℕ → ℕ → ℕ → Proc → Proc → Proc
offspring id a d p par r = born (copied p par d (record (conceived id r) { kstack = some a }))

-- `fork` of `p` fails, for want of a slot, a stack or a page table: no slot that is in use changes
-- but for links, and the unused ones stay unused.
pub record Fails (k k' : Kernel) (view : View) (stack pages : Option ℕ) : Type 0 where
  pub reason : (view unused_queue ≡ []) ⊎ (stack ≡ none) ⊎ (pages ≡ none)
  pub used : (j : ℕ) → (k.proc j).state ≢ unused → unlinked (k'.proc j) ≡ unlinked (k.proc j)
  pub states : (j : ℕ) → (k'.proc j).state ≡ (k.proc j).state

-- `fork` of `p` makes slot `q` its child: the child is at the end of the first queue, and no other
-- slot changes but for links.
pub record Bears (k k' : Kernel) (view : View) (stack pages : Option ℕ) (p q a d : ℕ) : Type 0 where
  pub slot : (xs : List ℕ) × (view unused_queue ≡ q ∷ xs)
  pub stack_page : stack ≡ some a
  pub page_table : pages ≡ some d
  pub child : unlinked (k'.proc q) ≡ unlinked (offspring k.nextpid a d p (k.proc p) (k.proc q))
  pub others : (j : ℕ) → q ≢ j → unlinked (k'.proc j) ≡ unlinked (k.proc j)
  pub nextpid : k'.nextpid ≡ k.nextpid + 1
  pub queue : IsQueue k'.proc (k'.queue 0) (view 0 ++ (q ∷ []))

-- How `fork` ends: with -1, or with the number of the child.
abbrev pub ForksIn : Kernel → View → Option ℕ → Option ℕ → ℕ → Option (Option ℕ × Kernel) → Type 0
ForksIn k view stack pages p m =
    ((k' : Kernel) × (home' : Home) × (view' : View) × (m ≡ some (none, k'))
      × Inv k' home' view'
      × Fails k k' view stack pages)
    ⊎ ((k' : Kernel) × (home' : Home) × (view' : View) × (q : ℕ) × (a : ℕ) × (d : ℕ) × (m
          ≡ some (some k.nextpid, k'))
        × Inv k' home' view'
        × Bears k k' view stack pages p q a d)

-- A slot goes back: nothing but this slot has changed since it was handed out.
module _ (k k₁ : Kernel) (home home₁ : Home) (view view₁ : View) (q : ℕ) (f : Proc → Proc)
    (inv₁ : Inv k₁ home₁ view₁) (g : Grown k k₁ home₁ view view₁ q f)
    (was : (k.proc q).state ≡ unused) (stack pages : Option ℕ)
    (why : (view unused_queue ≡ []) ⊎ (stack ≡ none) ⊎ (pages ≡ none)) where
  returned :
      (k' : Kernel) × (home' : Home) × (view' : View) × (give_back k₁ q ≡ some k')
      × Inv k' home' view'
      × Fails k k' view stack pages
  returned =
      let (k', home', view', e, inv', same) = give_back-Inv k₁ home₁ view₁ inv₁ q g.embryo in
      let other : (j : ℕ) → q ≢ j → unlinked (k'.proc j) ≡ unlinked (k.proc j) = λ j n.
        same.contents j ∙ ap unlinked (update_ne k₁.proc (barren (k₁.proc q)) n) ∙ g.others j n in
      let back : (k'.proc q).state ≡ unused =
        ap (λ (r : Proc). r.state)
          (same.contents q ∙ ap unlinked (update_self k₁.proc q (barren (k₁.proc q)))) in
      (
        k',
        home',
        view',
        e,
        inv',
        record {
          reason = why;
          used = λ j n. other j (λ h. n (ap (λ x. (k.proc x).state) (sym h) ∙ was));
          states = λ j. elim (eq-cases q j) [
            | inl h ↦
                ap (λ x. (k'.proc x).state) (sym h) ∙ back ∙ sym was ∙ ap (λ x. (k.proc x).state) h
            | inr n ↦ ap (λ (r : Proc). r.state) (other j n)
          ];
        },
      )

abbrev stacked : ℕ → Proc → Proc
stacked a r = record r { kstack = some a }

abbrev unmapped : Proc → Proc
unmapped r = record r { pgdir = none }

running≢unused : running ≢ unused
running≢unused e = cc

module _ (stack pages : Option ℕ) (k : Kernel) (c p : ℕ) (home : Home) (view : View)
    (inv : Inv k home view) (on : k.cpu c ≡ some p) (free : k.locked ≡ false) where
  abbrev Forked : Type 0
  Forked = ForksIn k view stack pages p (fork stack pages c k)

  fork-eq_no_stack :
      (q : ℕ) (k₁ k' : Kernel)
      → stack ≡ none
      → take_slot k ≡ some (some q, k₁)
      → give_back k₁ q ≡ some k'
      → fork stack pages c k ≡ some (none, k')
  unfolding fork allocproc fit_out raise_child
  fork-eq_no_stack q k₁ k' s f b = rw (on, f, s, b) refl

  fork-eq_no_pages :
      (q a : ℕ) (k₁ k' : Kernel)
      → stack ≡ some a
      → pages ≡ none
      → take_slot k ≡ some (some q, k₁)
      → give_back (modify (modify k₁ q (stacked a)) q unmapped) q ≡ some k'
      → fork stack pages c k ≡ some (none, k')
  unfolding fork allocproc fit_out raise_child
  fork-eq_no_pages q a k₁ k' s n f b = rw (on, f, s, n, b) refl

  fork-eq_child :
      (q a d : ℕ) (k₁ k' : Kernel)
      → stack ≡ some a
      → pages ≡ some d
      → take_slot k ≡ some (some q, k₁)
      → publish (inherit d p q (modify k₁ q (stacked a))) q ≡ some k'
      → fork stack pages c k ≡ some (some ((modify k₁ q (stacked a)).proc q).pid, k')
  unfolding fork allocproc fit_out raise_child
  fork-eq_child q a d k₁ k' s n f b = rw (on, f, s, n, b) refl

  fork_full : view unused_queue ≡ [] → Forked
  unfolding fork allocproc fit_out raise_child
  fork_full e =
      let (f, i) = take_slot-nil k home view inv free e in
      inl (
        record k { locked = false },
        home,
        view,
        rw (on, f) refl,
        i,
        record { reason = inl e; used = λ j n. refl; states = λ j. refl },
      )

  module _ (q : ℕ) (xs : List ℕ) (e : view unused_queue ≡ q ∷ xs) where
    was : (k.proc q).state ≡ unused
    was = (take_slot-cons k home view inv free q xs e).1

    parent_other : q ≢ p
    parent_other h =
        running≢unused (sym (inv.on_cpu c p on) ∙ ap (λ x. (k.proc x).state) (sym h) ∙ was)

    fork_no_stack : stack ≡ none → Forked
    fork_no_stack s =
        let (h, w, (k₁, home₁, view₁, f, inv₁, g)) = take_slot-cons k home view inv free q xs e in
        let (k', home', view', b, inv', fails) =
          returned k k₁ home home₁ view view₁ q (conceived k.nextpid) inv₁ g w stack pages
            (inr (inl s)) in
        inl (k', home', view', fork-eq_no_stack q k₁ k' s f b, inv', fails)

    module _ (a : ℕ) (s : stack ≡ some a) where
      -- The slot with its stack.
      fitted :
          (k₁ : Kernel) (home₁ : Home) (view₁ : View)
          → Inv k₁ home₁ view₁
          → Grown k k₁ home₁ view view₁ q (conceived k.nextpid)
          → Inv (modify k₁ q (stacked a)) home₁ view₁
            × Grown k
                (modify k₁ q (stacked a))
                home₁
                view
                view₁
                q
                (λ r. stacked a (conceived k.nextpid r))
      fitted k₁ home₁ view₁ inv₁ g =
          grow k k₁ home₁ view view₁ q (conceived k.nextpid) inv₁ g (stacked a)
            (record { prev = refl; next = refl; queuelevel = refl; priority = refl }) refl
            (λ r. stacked a (conceived k.nextpid r)) (ap (stacked a) g.slot)

      fork_no_pages : pages ≡ none → Forked
      fork_no_pages n =
          let (h, w, (k₁, home₁, view₁, f, inv₁, g)) = take_slot-cons k home view inv free q xs e in
          let (inv₂, g₂) = fitted k₁ home₁ view₁ inv₁ g in
          let k₂ = modify k₁ q (stacked a) in
          let (inv₃, g₃) =
            grow k k₂ home₁ view view₁ q (λ r. stacked a (conceived k.nextpid r)) inv₂ g₂ unmapped
              (record { prev = refl; next = refl; queuelevel = refl; priority = refl }) refl
              (λ r. unmapped (stacked a (conceived k.nextpid r))) (ap unmapped g₂.slot) in
          let (k', home', view', b, inv', fails) =
            returned k (modify k₂ q unmapped) home home₁ view view₁ q _ inv₃ g₃ w stack pages
              (inr (inr n)) in
          inl (k', home', view', fork-eq_no_pages q a k₁ k' s n f b, inv', fails)

      fork_child : (d : ℕ) → pages ≡ some d → Forked
      unfolding inherit conceived
      fork_child d n =
          let (h, w, (k₁, home₁, view₁, f, inv₁, g)) = take_slot-cons k home view inv free q xs e in
          let (inv₂, g₂) = fitted k₁ home₁ view₁ inv₁ g in
          let k₂ = modify k₁ q (stacked a) in
          let par : unlinked (k₂.proc p) ≡ unlinked (k.proc p) = g₂.others p parent_other in
          let heir : Proc → Proc = λ r. copied p (k.proc p) d (stacked a (conceived k.nextpid r)) in
          let (inv₃, g₃) =
            grow k k₂ home₁ view view₁ q (λ r. stacked a (conceived k.nextpid r)) inv₂ g₂
              (copied p (k₂.proc p) d)
              (record { prev = refl; next = refl; queuelevel = refl; priority = refl }) refl heir
              (λ i. unlinked (copied p (par i) d (g₂.slot i))) in
          let k₃ = inherit d p q k₂ in
          let (k', home', view', b, inv', same, next, is) =
            publish-Inv k₃ home₁ view₁ inv₃ q g₃.embryo g₃.free in
          let number : (k₂.proc q).pid ≡ k.nextpid = ap (λ (r : Proc). r.pid) g₂.slot in
          inr (
            k',
            home',
            view',
            q,
            a,
            d,
            fork-eq_child q a d k₁ k' s n f b ∙ ap (λ x. some (some x, k')) number,
            inv',
            record {
              slot = (xs, e);
              stack_page = s;
              page_table = n;
              child =
                  same q ∙ ap unlinked (update_self k₃.proc q (born (k₃.proc q))) ∙ ap born g₃.slot;
              others = λ j m.
                  same j ∙ ap unlinked (update_ne k₃.proc (born (k₃.proc q)) m) ∙ g₃.others j m;
              nextpid = next ∙ g₃.nextpid;
              queue = subst (λ l. IsQueue k'.proc (k'.queue 0) (l ++ (q ∷ []))) g₃.first is;
            },
          )

  -- On a well-formed kernel with `ptable.lock` free, `fork` of the process `p` that CPU `c` runs,
  -- taken as one uninterrupted step, never faults and leaves a well-formed kernel. It returns -1
  -- only where there is no unused slot, `kalloc` gives no stack or `copyuvm` no page table, and
  -- then no slot in use changes but for links, and no state changes. Otherwise it returns the next
  -- number, which is used up, and the first unused slot is the child: it has this number, the
  -- stack, the page table and what is copied of `p`, and is runnable at the end of the first
  -- queue; no other slot changes but for links.
  pub fork_lem : Forked
  fork_lem = elim (List-shape (view unused_queue)) [
    | inl e ↦ fork_full e
    | inr (q, xs, e) ↦ elim (Option-cases stack) [
      | inl s ↦ fork_no_stack q xs e s
      | inr (a, s) ↦ elim (Option-cases pages) [
        | inl n ↦ fork_no_pages q xs e a s n
        | inr (d, n) ↦ fork_child q xs e a s d n
      ]
    ]
  ]
