-- ===== src/Thread/Proof/Chain.antt =====
-- Lists of threads along `th_next`.
use hyu_os.Prelude.{
  ℕ, zero, suc, ◌<◌, ◌≡◌, refl, sym, ◌∙◌, ap, inl, inr, none, some, List, [], ◌∷◌, ◌++◌, arith,
  length, first, last, Fresh, Distinct, In, update_self, update_ne, eq-cases, ◌==◌, false,
}
use hyu_os.Mlfq.State.{Ptr}
use hyu_os.Mlfq.Queue.Chain.{Fresh-ne}
use hyu_os.Thread.State.{Thread, Threads, change}
use hyu_os.Thread.Family.{family_loop, before_target}

-- The threads of `xs` are linked, with `nx` behind the last.
abbrev pub Links : Threads → List ℕ → Ptr → Type 0
Links s [] nx = Unit
Links s (x ∷ xs) nx = ((s x).th_next ≡ first xs nx) × Links s xs nx

pub Links-same :
    (s s' : Threads) (xs : List ℕ) (nx : Ptr)
    → ((j : ℕ) → In j xs → (s' j).th_next ≡ (s j).th_next)
    → Links s xs nx
    → Links s' xs nx
Links-same s s' [] nx h l = tt
Links-same s s' (x ∷ xs) nx h l =
    (h x (inl refl) ∙ l.0, Links-same s s' xs nx (λ j m. h j (inr m)) l.1)

first-cut : (xs ys : List ℕ) (nx : Ptr) → first (xs ++ ys) nx ≡ first xs (first ys nx)
first-cut [] ys nx = refl
first-cut (x ∷ xs) ys nx = refl

pub Links-append :
    (s : Threads) (xs ys : List ℕ) (nx : Ptr)
    → Links s xs (first ys nx)
    → Links s ys nx
    → Links s (xs ++ ys) nx
Links-append s [] ys nx a b = b
Links-append s (x ∷ xs) ys nx a b = (a.0 ∙ sym (first-cut xs ys nx), Links-append s xs ys nx a.1 b)

pub Links-split :
    (s : Threads) (xs ys : List ℕ) (nx : Ptr)
    → Links s (xs ++ ys) nx
    → Links s xs (first ys nx) × Links s ys nx
Links-split s [] ys nx l = (tt, l)
Links-split s (x ∷ xs) ys nx l =
    let (a, b) = Links-split s xs ys nx l.1 in ((l.0 ∙ first-cut xs ys nx, a), b)

-- The body has been run on the threads of `xs`, and on no other.
pub record Looped (f : ℕ → Thread → Thread) (s s' : Threads) (xs : List ℕ) : Type 0 where
  pub on : (j : ℕ) → In j xs → s' j ≡ f j (s j)
  pub off : (j : ℕ) → Fresh j xs → s' j ≡ s j

module _ (f : ℕ → Thread → Thread)
    (keeps : (t : ℕ) (r : Thread) → (f t r).th_next ≡ r.th_next) where
  change-links : (s : Threads) (x j : ℕ) → (change s x (f x) j).th_next ≡ (s j).th_next
  change-links s x j = elim (eq-cases x j) [
    | inl e ↦ rw (← e, update_self s x (f x (s x))) (keeps x (s x))
    | inr n ↦ ap (λ (r : Thread). r.th_next) (update_ne s (f x (s x)) n)
  ]

  -- A loop over a list of threads ends within its rounds.
  pub family_loop_lem :
      (n : ℕ) (s : Threads) (xs : List ℕ)
      → length xs < n
      → Links s xs none
      → Distinct xs
      → (s' : Threads) × (family_loop n f s (first xs none) ≡ some s') × Looped f s s' xs
  unfolding family_loop
  family_loop_lem zero s xs h l d = absurd (omega arith)
  family_loop_lem (suc n) s [] h l d = (s, refl, record { on = λ j m. absurd m; off = λ j g. refl })
  family_loop_lem (suc n) s (x ∷ xs) h l d =
      let s₁ = change s x (f x) in
      let next : (s₁ x).th_next ≡ first xs none = change-links s x x ∙ l.0 in
      let l₁ = Links-same s s₁ xs none (λ j m. change-links s x j) l.1 in
      let (s', e, w) = family_loop_lem n s₁ xs (omega arith) l₁ d.1 in
      (
        s',
        rw next e,
        record {
          on = λ j. elim [
            | inl e ↦ rw e (w.off x d.0 ∙ update_self s x (f x (s x)))
            | inr m ↦ w.on j m ∙ ap (f j) (update_ne s (f x (s x)) (Fresh-ne x j xs d.0 m))
          ];
          off = λ j g. w.off j g.1 ∙ update_ne s (f x (s x)) (λ e. g.0 (sym e));
        },
      )

-- The search of `delete_thread` ends at the thread before the target.
pub before_target_lem :
    (n : ℕ) (s : Threads) (target : ℕ) (tmp : Ptr) (xs : List ℕ)
    → length xs < n
    → Links s xs (some target)
    → Fresh target xs
    → before_target n s target tmp (first xs (some target)) ≡ some (last tmp xs)
unfolding before_target
before_target_lem zero s target tmp xs h l f = absurd (omega arith)
before_target_lem (suc n) s target tmp [] h l f = ground arith
before_target_lem (suc n) s target tmp (x ∷ xs) h l f =
    let other : (x == target) ≡ false = ground (arith, f.0) in
    rw (other, l.0) (before_target_lem n s target (some x) xs (omega arith) l.1 f.1)
