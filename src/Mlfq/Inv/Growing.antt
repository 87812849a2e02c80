-- ===== src/Mlfq/Inv/Growing.antt =====
-- A slot that `allocproc` hands out, and the changes to it until `fork` publishes it.
use hyu_os.Prelude.{
  ℕ, ◌+◌, ◌≡◌, refl, ◌∙◌, ap, ◌≢◌, ◌⊎◌, inl, inr, true, false, none, some, List, [], ◌∷◌, ◌>>=◌,
  update, update_self, update_ne, eq-cases,
}
use hyu_os.Mlfq.State.{unused, Proc, unused_queue}
use hyu_os.Mlfq.Kernel.{Kernel, acquire, modify, take_first}
use hyu_os.Mlfq.Queue.Chain.{unlinked}
use hyu_os.Mlfq.Queue.Dequeue.{dequeue-nil}
use hyu_os.Mlfq.Birth.{conceived, hand_out, take_slot}
use hyu_os.Mlfq.Inv.Threaded.{Home, View, take_first_lem}
use hyu_os.Mlfq.Inv.Live.{Inv, Inv-same}
use hyu_os.Mlfq.Inv.Wake.{release_lem}
use hyu_os.Mlfq.Inv.Calm.{modify_keeps, IsCalm}
use hyu_os.Mlfq.Inv.Placing.{calm-Inv}
use hyu_os.Mlfq.Inv.Forking.{
  Embryo, begun, begun-Inv, begun-Embryo, begun-child, begun-others, was_unused,
}

pub List-shape : (xs : List ℕ) → (xs ≡ []) ⊎ ((x : ℕ) × (ys : List ℕ) × (xs ≡ x ∷ ys))
List-shape [] = inl refl
List-shape (x ∷ ys) = inr (x, ys, refl)

update_same {ℓ} : {A : Type ℓ} (f : ℕ → A) (i : ℕ) → update f i (f i) ≡ f
update_same f i = λ d j. at j d
  where
    at : (j : ℕ) → update f i (f i) j ≡ f j
    at j = elim (eq-cases i j) [
      | inl e ↦ rw (← e) (update_self f i (f i))
      | inr n ↦ update_ne f (f i) n
    ]

-- Slot `q` has been handed out: its fields are what `f` makes of the former ones, and no other
-- slot has changed but for links.
pub record Grown (k k' : Kernel) (home' : Home) (view view' : View) (q : ℕ) (f : Proc → Proc)
    : Type 0 where
  pub embryo : Embryo k' home' q
  pub free : k'.locked ≡ false
  pub slot : unlinked (k'.proc q) ≡ unlinked (f (k.proc q))
  pub others : (j : ℕ) → q ≢ j → unlinked (k'.proc j) ≡ unlinked (k.proc j)
  pub first : view' 0 ≡ view 0
  pub nextpid : k'.nextpid ≡ k.nextpid + 1

module _ (k : Kernel) (home : Home) (view : View) (inv : Inv k home view)
    (free : k.locked ≡ false) where
  abbrev k₁ : Kernel
  k₁ = record k { locked = true }

  inv₁ : Inv k₁ home view
  inv₁ = Inv-same k k₁ home view refl refl refl inv.ticks inv

  take_slot-eq : take_slot k ≡ hand_out (take_first k₁ unused_queue)
  unfolding take_slot acquire
  take_slot-eq = rw free refl

  no_slot : view unused_queue ≡ [] → take_first k₁ unused_queue ≡ (none, k₁)
  unfolding take_first
  no_slot e =
      let is = inv₁.live.queued.threaded.queues unused_queue in
      let d = dequeue-nil k.proc (k.queue unused_queue) (rw e at is) in
      rw d (ap (λ f. (none, record k₁ { queue = f })) (update_same k.queue unused_queue))

  -- With no unused slot nothing changes.
  pub take_slot-nil :
      view unused_queue ≡ []
      → (take_slot k ≡ some (none, record k { locked = false }))
        × Inv (record k { locked = false }) home view
  unfolding hand_out
  take_slot-nil e = (
    take_slot-eq ∙ ap hand_out (no_slot e) ∙ rw (release_lem k₁ refl) refl,
    Inv-same k₁ _ home view refl refl refl inv.ticks inv₁,
  )

  -- Otherwise the first one is handed out, with the next number.
  pub take_slot-cons :
      (q : ℕ) (xs : List ℕ)
      → view unused_queue ≡ q ∷ xs
      → (home q ≡ some unused_queue)
        × ((k.proc q).state ≡ unused)
        × ((k' : Kernel) × (home' : Home) × (view' : View) × (take_slot k ≡ some (some q, k'))
            × Inv k' home' view'
            × Grown k k' home' view view' q (conceived k.nextpid))
  unfolding hand_out
  take_slot-cons q xs e =
      let t = inv₁.live.queued.threaded in
      let (f, u) = take_first_lem k₁ home view t unused_queue q xs e in
      let on = t.home_of_In unused_queue q (rw e (inl refl)) in
      let k₂ = (take_first k₁ unused_queue).1 in
      let k₃ = begun k₁ home view inv₁ q on k₂ u in
      let i = begun-Inv k₁ home view inv₁ q on k₂ u in
      let b = begun-Embryo k₁ home view inv₁ q on k₂ u in
      (
        on,
        was_unused k₁ home view inv₁ q on k₂ u,
        (
          record k₃ { locked = false },
          _,
          _,
          take_slot-eq
              ∙ ap (λ p. hand_out (p, k₂)) f
              ∙ ap (λ m. m >>= λ k'. some (some q, k')) (release_lem k₃ u.same.locked),
          Inv-same k₃ _ _ _ refl refl refl i.ticks i,
          record {
            embryo = record { below = b.below; away = b.away; idle = b.idle };
            free = refl;
            slot = begun-child k₁ home view inv₁ q on k₂ u;
            others = begun-others k₁ home view inv₁ q on k₂ u;
            first = refl;
            nextpid = ap (λ n. n + 1) u.same.nextpid;
          },
        ),
      )

-- A change to an embryo that the queues do not depend on.
module _ (k : Kernel) (home : Home) (view : View) (inv : Inv k home view) (q : ℕ)
    (b : Embryo k home q) (f : Proc → Proc) (c : IsCalm f (k.proc q))
    (st : (f (k.proc q)).state ≡ (k.proc q).state) where
  pub calm-Embryo : Embryo (modify k q f) home q
  calm-Embryo = record {
    below = b.below;
    away = b.away;
    idle = modify_keeps k q f (λ r. r.state) st q ∙ b.idle;
  }

-- A calm change to the slot that has been handed out.
module _ (k k₁ : Kernel) (home₁ : Home) (view view₁ : View) (q : ℕ) (f : Proc → Proc)
    (inv₁ : Inv k₁ home₁ view₁) (g : Grown k k₁ home₁ view view₁ q f) (h : Proc → Proc)
    (c : IsCalm h (k₁.proc q)) (st : (h (k₁.proc q)).state ≡ (k₁.proc q).state) (f' : Proc → Proc)
    (to : unlinked (h (k₁.proc q)) ≡ unlinked (f' (k.proc q))) where
  pub grow : Inv (modify k₁ q h) home₁ view₁ × Grown k (modify k₁ q h) home₁ view view₁ q f'
  grow = (
    calm-Inv k₁ home₁ view₁ q h c st inv₁,
    record {
      embryo = calm-Embryo k₁ home₁ view₁ inv₁ q g.embryo h c st;
      free = g.free;
      slot = ap unlinked (update_self k₁.proc q (h (k₁.proc q))) ∙ to;
      others = λ j n. ap unlinked (update_ne k₁.proc (h (k₁.proc q)) n) ∙ g.others j n;
      first = g.first;
      nextpid = g.nextpid;
    },
  )
