-- ===== src/Thread/Proof/Members.antt =====
-- The threads of a process, and how `delete_thread` and `thread_create` change them.
use hyu_os.Prelude.{
  ℕ, ◌≤◌, ◌<◌, ◌≡◌, refl, sym, ◌∙◌, ap, subst, ◌≢◌, inl, inr, none, some, List, [], ◌∷◌, ◌++◌,
  arith, length, first, last, last-append, Fresh, Distinct, In, Below, All, length-le_of_Distinct,
  update_self, update_ne, eq-cases, true,
}
use hyu_os.Mlfq.State.{nproc}
use hyu_os.Mlfq.Queue.{points_to}
use hyu_os.Mlfq.Queue.Chain.{Fresh-ne, Distinct-middle, In-middle}
use hyu_os.Thread.State.{Share, Thread, Threads, Machine, change, modify, modify_share, share_of}
use hyu_os.Thread.Family.{unlink_behind, delete_thread}
use hyu_os.Thread.Proof.Chain.{Links, Links-same, Links-append}

-- The share entry `i` has exactly the threads of `xs`, in this order.
pub record IsFamily (m : Machine) (i : ℕ) (xs : List ℕ) : Type 0 where
  pub head : (m.share i).th_family_hd ≡ first xs none
  pub tail : (m.share i).th_last ≡ last none xs
  pub links : Links m.proc xs none
  pub distinct : Distinct xs
  pub below : Below nproc xs
  pub members : (j : ℕ) → In j xs → (m.proc j).shared_info ≡ i

pub length-family : (m : Machine) (i : ℕ) (xs : List ℕ) → IsFamily m i xs → length xs ≤ nproc
length-family m i xs f = length-le_of_Distinct nproc xs f.distinct f.below

-- Changes of one thread that keep its share entry.
pub members-change :
    (s : Threads) (t : ℕ) (f : Thread → Thread)
    → ((r : Thread) → (f r).shared_info ≡ r.shared_info)
    → (j : ℕ) → (change s t f j).shared_info ≡ (s j).shared_info
members-change s t f k j = elim (eq-cases t j) [
  | inl e ↦ rw (← e, update_self s t (f (s t))) (k (s t))
  | inr n ↦ ap (λ (r : Thread). r.shared_info) (update_ne s (f (s t)) n)
]

pub All-append_left : (P : ℕ → Type 0) (xs ys : List ℕ) → All P (xs ++ ys) → All P xs
All-append_left P [] ys h = tt
All-append_left P (x ∷ xs) ys h = (h.0, All-append_left P xs ys h.1)

All-append_right : (P : ℕ → Type 0) (xs ys : List ℕ) → All P (xs ++ ys) → All P ys
All-append_right P [] ys h = h
All-append_right P (x ∷ xs) ys h = All-append_right P xs ys h.1

pub All-join : (P : ℕ → Type 0) (xs ys : List ℕ) → All P xs → All P ys → All P (xs ++ ys)
All-join P [] ys a b = b
All-join P (x ∷ xs) ys a b = (a.0, All-join P xs ys a.1 b)

pub Below-skip :
    (xs : List ℕ) (y : ℕ) (ys : List ℕ) → Below nproc (xs ++ (y ∷ ys)) → Below nproc (xs ++ ys)
Below-skip xs y ys h =
    All-join (λ x. x < nproc) xs ys (All-append_left (λ x. x < nproc) xs (y ∷ ys) h)
      (All-append_right (λ x. x < nproc) xs (y ∷ ys) h).1

pub In-skip : (j y : ℕ) (xs ys : List ℕ) → In j (xs ++ ys) → In j (xs ++ (y ∷ ys))
In-skip j y [] ys m = inr m
In-skip j y (x ∷ xs) ys m = elim m [ inl e ↦ inl e | inr h ↦ inr (In-skip j y xs ys h) ]

pub Distinct-front : (xs ys : List ℕ) → Distinct (xs ++ ys) → Distinct xs
Distinct-front [] ys d = tt
Distinct-front (x ∷ xs) ys d = (Fresh-front x xs ys d.0, Distinct-front xs ys d.1)
  where
    Fresh-front : (x : ℕ) (us vs : List ℕ) → Fresh x (us ++ vs) → Fresh x us
    Fresh-front x [] vs f = tt
    Fresh-front x (u ∷ us) vs f = (f.0, Fresh-front x us vs f.1)

hits :
    (m : Machine) (p : ℕ)
    → (share_of m p).th_family_hd ≡ some p
    → points_to (share_of m p).th_family_hd p ≡ true
hits m p e = ap (λ h. points_to h p) e ∙ (ground arith)

-- The family without its first thread.
pub delete_head :
    (m : Machine) (i p y : ℕ) (ys : List ℕ)
    → IsFamily m i (p ∷ y ∷ ys)
    → (m' : Machine) × (delete_thread m p ≡ some m') × IsFamily m' i (y ∷ ys)
unfolding delete_thread
delete_head m i p y ys f =
    let at : (m.proc p).shared_info ≡ i = f.members p (inl refl) in
    let hit = hits m p (ap (λ k. (m.share k).th_family_hd) at ∙ f.head) in
    let g : Share → Share = λ r. record r { th_family_hd = (m.proc p).th_next } in
    let now = update_self m.share i (g (m.share i)) in
    (
      modify_share m i g,
      rw (hit, at) refl,
      record {
        head = ap (λ (r : Share). r.th_family_hd) now ∙ f.links.0;
        tail = ap (λ (r : Share). r.th_last) now ∙ f.tail;
        links = f.links.1;
        distinct = f.distinct.1;
        below = f.below.1;
        members = λ j h. f.members j (inr h);
      },
    )

-- The links are cut behind `t`, whose list ends there, and go on with `zs`.
module _ (m : Machine) (i t : ℕ) (ws zs : List ℕ) (front : Links m.proc ws (some t))
    (back : Links m.proc zs none) (head : (m.share i).th_family_hd ≡ first (ws ++ (t ∷ zs)) none)
    (tail : (zs ≢ []) → (m.share i).th_last ≡ last none zs) (distinct : Distinct (ws ++ (t ∷ zs)))
    (below : Below nproc (ws ++ (t ∷ zs)))
    (members : (j : ℕ) → In j (ws ++ (t ∷ zs)) → (m.proc j).shared_info ≡ i) where
  abbrev cut : Machine
  cut = modify m t (λ r. record r { th_next = first zs none })

  cut_next : (cut.proc t).th_next ≡ first zs none
  cut_next =
      ap (λ (r : Thread). r.th_next)
        (update_self m.proc t (record (m.proc t) { th_next = first zs none }))

  cut_other : (j : ℕ) → t ≢ j → cut.proc j ≡ m.proc j
  cut_other j n = update_ne m.proc (record (m.proc t) { th_next = first zs none }) n

  cut_members : (j : ℕ) → In j (ws ++ (t ∷ zs)) → (cut.proc j).shared_info ≡ i
  cut_members j h =
      members-change m.proc t (λ r. record r { th_next = first zs none }) (λ r. refl) j
      ∙ members j h

  cut-Links : Links cut.proc (ws ++ (t ∷ zs)) none
  cut-Links =
      let (fw, fz, d) = Distinct-middle ws t zs distinct in
      Links-append cut.proc ws (t ∷ zs) none
        (Links-same m.proc cut.proc ws (some t)
          (λ j h. ap (λ (r : Thread). r.th_next) (cut_other j (Fresh-ne t j ws fw h))) front)
        (
          cut_next,
          Links-same m.proc cut.proc zs none
              (λ j h. ap (λ (r : Thread). r.th_next) (cut_other j (Fresh-ne t j zs fz h))) back,
        )

  cut_owner : (cut.proc t).shared_info ≡ i
  cut_owner = cut_members t (In-middle ws t zs)

abbrev ended : ℕ → Share → Share
ended t r = record r { th_last = some t }

-- `unlink_behind` with the links behind `t` going on with `zs` leaves the family `ws`, `t`, `zs`.
pub unlink_lem :
    (m : Machine) (i t : ℕ) (ws zs : List ℕ)
    → Links m.proc ws (some t)
    → Links m.proc zs none
    → (m.share i).th_family_hd ≡ first (ws ++ (t ∷ zs)) none
    → (zs ≢ [] → (m.share i).th_last ≡ last none zs)
    → Distinct (ws ++ (t ∷ zs))
    → Below nproc (ws ++ (t ∷ zs))
    → ((j : ℕ) → In j (ws ++ (t ∷ zs)) → (m.proc j).shared_info ≡ i)
    → IsFamily (unlink_behind m t (first zs none)) i (ws ++ (t ∷ zs))
unfolding unlink_behind
unlink_lem m i t ws (u ∷ us) front back head tail d b mem = record {
  head = head;
  tail = tail (λ n. cc) ∙ sym (last-append none ws (t ∷ u ∷ us));
  links = cut-Links m i t ws (u ∷ us) front back head tail d b mem;
  distinct = d;
  below = b;
  members = cut_members m i t ws (u ∷ us) front back head tail d b mem;
}
unlink_lem m i t ws [] front back head tail d b mem =
    let c = cut m i t ws [] front back head tail d b mem in
    let now = update_self m.share i (ended t (m.share i)) in
    subst (λ k. IsFamily (modify_share c k (ended t)) i (ws ++ (t ∷ [])))
      (sym (cut_owner m i t ws [] front back head tail d b mem))
      (record {
        head = ap (λ (r : Share). r.th_family_hd) now ∙ head;
        tail = ap (λ (r : Share). r.th_last) now ∙ sym (last-append none ws (t ∷ []));
        links = cut-Links m i t ws [] front back head tail d b mem;
        distinct = d;
        below = b;
        members = cut_members m i t ws [] front back head tail d b mem;
      })
