-- ===== src/Mlfq/Queue/Chain.antt =====
-- What a queue of Project1/proc.c holds: the slots from `head` along `next`, with `prev` the way
-- back.
use hyu_os.Prelude.{
  ℕ, arith, subst, ◌≡◌, sym, ◌∙◌, ◌≢◌, refl, inl, inr, ◌⊎◌, eq-cases, In, none, some, List, [], ◌∷◌,
  ◌++◌, length, first, last, Fresh, Distinct,
}
use hyu_os.Mlfq.State.{Proc, Procs, Ptr, Queue}

-- The slots of `xs` are linked both ways, with `pr` before the first and `nx` after the last.
abbrev pub Chain : Procs → Ptr → List ℕ → Ptr → Type 0
Chain s pr [] nx = Unit
Chain s pr (x ∷ xs) nx = ((s x).prev ≡ pr) × ((s x).next ≡ first xs nx) × Chain s (some x) xs nx

-- The queue header `q` over the links of `s` holds exactly the slots of `xs`, in this order.
pub record IsQueue (s : Procs) (q : Queue) (xs : List ℕ) : Type 0 where
  pub head : q.head ≡ first xs none
  pub tail : q.tail ≡ last none xs
  pub count : q.count ≡ length xs
  pub chain : Chain s none xs none
  pub distinct : Distinct xs

-- The slot `j` has the same links.
abbrev pub SameLinks : Procs → Procs → ℕ → Type 0
SameLinks s s' j = ((s' j).prev ≡ (s j).prev) × ((s' j).next ≡ (s j).next)

-- The links change at `a`, `b` and `c` at most.
abbrev pub SameBut : Procs → Procs → ℕ → ℕ → ℕ → Type 0
SameBut s s' a b c = (j : ℕ) → j ≢ a → j ≢ b → j ≢ c → SameLinks s s' j

-- A process without its links.
abbrev pub unlinked : Proc → Proc
unlinked p = record p { prev = none; next = none }

-- Only links change, and only at the slots of `xs`.
pub record Relinks (s s' : Procs) (xs : List ℕ) : Type 0 where
  pub contents : (j : ℕ) → unlinked (s' j) ≡ unlinked (s j)
  pub links : (j : ℕ) → Fresh j xs → SameLinks s s' j

pub Chain-append :
    (s : Procs) (pr : Ptr) (xs ys : List ℕ) (nx : Ptr)
    → Chain s pr xs (first ys nx)
    → Chain s (last pr xs) ys nx
    → Chain s pr (xs ++ ys) nx
Chain-append s pr [] ys nx h k = k
Chain-append s pr (x ∷ []) ys nx h k = (h.0, h.1, k)
Chain-append s pr (x ∷ y ∷ xs) ys nx h k = (h.0, h.1, Chain-append s (some x) (y ∷ xs) ys nx h.2 k)

pub Chain-split :
    (s : Procs) (pr : Ptr) (xs ys : List ℕ) (nx : Ptr)
    → Chain s pr (xs ++ ys) nx
    → Chain s pr xs (first ys nx) × Chain s (last pr xs) ys nx
Chain-split s pr [] ys nx h = (tt, h)
Chain-split s pr (x ∷ []) ys nx h = ((h.0, h.1, tt), h.2)
Chain-split s pr (x ∷ y ∷ xs) ys nx h =
    let (k, l) = Chain-split s (some x) (y ∷ xs) ys nx h.2 in ((h.0, h.1, k), l)

-- A chain survives writes to slots that are not on it.
pub Chain-frame :
    (s s' : Procs) (a b c : ℕ) (pr : Ptr) (xs : List ℕ) (nx : Ptr)
    → SameBut s s' a b c
    → Fresh a xs
    → Fresh b xs
    → Fresh c xs
    → Chain s pr xs nx
    → Chain s' pr xs nx
Chain-frame s s' a b c pr [] nx same fa fb fc h = tt
Chain-frame s s' a b c pr (x ∷ xs) nx same fa fb fc h =
    let k = same x (λ e. fa.0 (sym e)) (λ e. fb.0 (sym e)) (λ e. fc.0 (sym e)) in
    (k.0 ∙ h.0, k.1 ∙ h.1, Chain-frame s s' a b c (some x) xs nx same fa.1 fb.1 fc.1 h.2)

pub Fresh-append : (a : ℕ) (xs ys : List ℕ) → Fresh a xs → Fresh a ys → Fresh a (xs ++ ys)
Fresh-append a [] ys h k = k
Fresh-append a (x ∷ xs) ys h k = (h.0, Fresh-append a xs ys h.1 k)

pub Fresh-split : (a : ℕ) (xs ys : List ℕ) → Fresh a (xs ++ ys) → Fresh a xs × Fresh a ys
Fresh-split a [] ys h = (tt, h)
Fresh-split a (x ∷ xs) ys h = let (k, l) = Fresh-split a xs ys h.1 in ((h.0, k), l)

-- A slot in the middle of a duplicate-free list is on neither side of it.
pub Distinct-middle :
    (xs : List ℕ) (y : ℕ) (ys : List ℕ)
    → Distinct (xs ++ (y ∷ ys))
    → Fresh y xs × Fresh y ys × Distinct (xs ++ ys)
Distinct-middle [] y ys h = (tt, h.0, h.1)
Distinct-middle (x ∷ xs) y ys h =
    let (a, b, c) = Distinct-middle xs y ys h.1 in
    let (f, g) = Fresh-split x xs (y ∷ ys) h.0 in
    (((λ e. g.0 (sym e)), a), b, (Fresh-append x xs ys f g.1, c))

pub Distinct-insert :
    (xs : List ℕ) (y : ℕ) (ys : List ℕ)
    → Fresh y xs
    → Fresh y ys
    → Distinct (xs ++ ys)
    → Distinct (xs ++ (y ∷ ys))
Distinct-insert [] y ys f g h = (g, h)
Distinct-insert (x ∷ xs) y ys f g h =
    let (k, l) = Fresh-split x xs ys h.0 in
    (Fresh-append x xs (y ∷ ys) k ((λ e. f.0 (sym e)), l), Distinct-insert xs y ys f.1 g h.1)

pub Fresh-ne : (a b : ℕ) (xs : List ℕ) → Fresh a xs → In b xs → a ≢ b
Fresh-ne a b (x ∷ xs) h (inl e) = λ k. h.0 (k ∙ e)
Fresh-ne a b (x ∷ xs) h (inr m) = Fresh-ne a b xs h.1 m
Fresh-ne a b [] h m = absurd m

pub In-middle : (xs : List ℕ) (y : ℕ) (ys : List ℕ) → In y (xs ++ (y ∷ ys))
In-middle [] y ys = inl refl
In-middle (x ∷ xs) y ys = inr (In-middle xs y ys)

abbrev pub Around : ℕ → List ℕ → Type 0
Around x xs = (ys : List ℕ) × (zs : List ℕ) × (xs ≡ ys ++ (x ∷ zs)) × Fresh x ys

In-split-cons :
    (x y : ℕ) (xs : List ℕ)
    → (x ≡ y) ⊎ (x ≢ y)
    → In x (y ∷ xs)
    → (In x xs → Around x xs)
    → Around x (y ∷ xs)
In-split-cons x y xs (inl e) h rec = ([], xs, rw e refl, tt)
In-split-cons x y xs (inr n) (inl e) rec = absurd (n e)
In-split-cons x y xs (inr n) (inr m) rec =
    let (ys, zs, e, f) = rec m in (y ∷ ys, zs, rw e refl, (n, f))

-- A list around one of its elements, taken at its first occurrence.
pub In-split : (x : ℕ) (xs : List ℕ) → In x xs → Around x xs
In-split x [] h = absurd h
In-split x (y ∷ xs) h = In-split-cons x y xs (eq-cases x y) h (In-split x xs)

pub first-some : (ys : List ℕ) (t : ℕ) → (h : ℕ) × (first ys (some t) ≡ some h)
first-some [] t = (t, refl)
first-some (y ∷ ys) t = (y, refl)

-- A chain survives where the links of its own slots are the same.
pub Chain-same :
    (s s' : Procs) (pr : Ptr) (xs : List ℕ) (nx : Ptr)
    → ((j : ℕ) → In j xs → SameLinks s s' j)
    → Chain s pr xs nx
    → Chain s' pr xs nx
Chain-same s s' pr [] nx same h = tt
Chain-same s s' pr (x ∷ xs) nx same h =
    let k = same x (inl refl) in
    (k.0 ∙ h.0, k.1 ∙ h.1, Chain-same s s' (some x) xs nx (λ j m. same j (inr m)) h.2)

pub In-append-left : (j : ℕ) (xs ys : List ℕ) → In j xs → In j (xs ++ ys)
In-append-left j [] ys m = absurd m
In-append-left j (x ∷ xs) ys (inl e) = inl e
In-append-left j (x ∷ xs) ys (inr m) = inr (In-append-left j xs ys m)

pub In-append-right : (j : ℕ) (xs ys : List ℕ) → In j ys → In j (xs ++ ys)
In-append-right j [] ys m = m
In-append-right j (x ∷ xs) ys m = inr (In-append-right j xs ys m)

-- The two parts of a duplicate-free list share no slot.
pub Distinct-apart : (xs ys : List ℕ) (j : ℕ) → Distinct (xs ++ ys) → In j xs → Fresh j ys
Distinct-apart [] ys j d m = absurd m
Distinct-apart (x ∷ xs) ys j d (inl e) = rw e (Fresh-split x xs ys d.0).1
Distinct-apart (x ∷ xs) ys j d (inr m) = Distinct-apart xs ys j d.1 m

pub Distinct-left : (xs ys : List ℕ) → Distinct (xs ++ ys) → Distinct xs
Distinct-left [] ys d = tt
Distinct-left (x ∷ xs) ys d = ((Fresh-split x xs ys d.0).0, Distinct-left xs ys d.1)

pub Distinct-right : (xs ys : List ℕ) → Distinct (xs ++ ys) → Distinct ys
Distinct-right [] ys d = d
Distinct-right (x ∷ xs) ys d = Distinct-right xs ys d.1

-- The ends of a list are among its slots.
pub first-ne : (xs : List ℕ) (j : ℕ) → Fresh j xs → first xs none ≢ some j
first-ne [] j f = λ e. cc
first-ne (x ∷ xs) j f = ground (arith, f.0)

pub last-ne : (d : Ptr) (xs : List ℕ) (j : ℕ) → d ≢ some j → Fresh j xs → last d xs ≢ some j
last-ne d [] j n f = n
last-ne d (x ∷ xs) j n f = last-ne (some x) xs j (ground (arith, f.0)) f.1

pub Fresh-of-not_In : (j : ℕ) (xs : List ℕ) → ((k : ℕ) → In k xs → j ≢ k) → Fresh j xs
Fresh-of-not_In j [] h = tt
Fresh-of-not_In j (x ∷ xs) h = (h x (inl refl), Fresh-of-not_In j xs (λ k m. h k (inr m)))

pub Fresh-not_In : (j : ℕ) (xs : List ℕ) → Fresh j xs → In j xs → ⊥
Fresh-not_In j (x ∷ xs) f (inl e) = f.0 e
Fresh-not_In j (x ∷ xs) f (inr m) = Fresh-not_In j xs f.1 m
Fresh-not_In j [] f m = m

pub Distinct-apart_right : (xs ys : List ℕ) (j : ℕ) → Distinct (xs ++ ys) → In j ys → Fresh j xs
Distinct-apart_right xs ys j d m =
    Fresh-of-not_In j xs
      (λ k i e. Fresh-not_In k ys (Distinct-apart xs ys k d i) (subst (λ x. In x ys) e m))

pub Relinks-weaken :
    (s s' : Procs) (xs ys : List ℕ)
    → ((j : ℕ) → Fresh j ys → Fresh j xs)
    → Relinks s s' xs
    → Relinks s s' ys
Relinks-weaken s s' xs ys sub r = record {
  contents = r.contents;
  links = λ j f. r.links j (sub j f);
}
