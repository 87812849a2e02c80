-- ===== src/Thread/Proof/Grow.antt =====
-- `thread_create` puts the new thread at the end of its family.
use hyu_os.Prelude.{
  ◌⊎◌, append-nil, ℕ, ◌<◌, ◌≡◌, refl, sym, ◌∙◌, ap, subst, ◌≢◌, inl, inr, false, none, some, List,
  [], ◌∷◌, ◌++◌, first, last-append, Fresh, Distinct, In, update_self, update_ne,
}
use hyu_os.Mlfq.State.{Ptr, nproc}
use hyu_os.Mlfq.Queue.{is_null}
use hyu_os.Mlfq.Queue.Chain.{Fresh-ne, Fresh-not_In, Distinct-insert, In-middle, Distinct-middle}
use hyu_os.Thread.State.{Share, Thread, Machine, modify, modify_share, share_of}
use hyu_os.Thread.Create.{join_family}
use hyu_os.Thread.Proof.Chain.{Links, Links-same, Links-append, Links-split}
use hyu_os.Thread.Proof.Members.{IsFamily, members-change, All-join}

-- Families survive changes that keep the links and owners of their threads, and their ends.
pub IsFamily-same :
    (m m' : Machine) (i : ℕ) (xs : List ℕ)
    → ((m'.share i).th_family_hd ≡ (m.share i).th_family_hd)
    → ((m'.share i).th_last ≡ (m.share i).th_last)
    → ((j : ℕ) → In j xs → (m'.proc j).th_next ≡ (m.proc j).th_next)
    → ((j : ℕ) → In j xs → (m'.proc j).shared_info ≡ (m.proc j).shared_info)
    → IsFamily m i xs
    → IsFamily m' i xs
IsFamily-same m m' i xs hd tl nx own f = record {
  head = hd ∙ f.head;
  tail = tl ∙ f.tail;
  links = Links-same m.proc m'.proc xs none nx f.links;
  distinct = f.distinct;
  below = f.below;
  members = λ j h. own j h ∙ f.members j h;
}

In-snoc : (j n : ℕ) (xs : List ℕ) → In j (xs ++ (n ∷ [])) → (In j xs) ⊎ (j ≡ n)
In-snoc j n [] = elim [ inl e ↦ inr e | inr h ↦ absurd h ]
In-snoc j n (x ∷ xs) = elim [
  | inl e ↦ inl (inl e)
  | inr h ↦ elim (In-snoc j n xs h) [ inl g ↦ inl (inr g) | inr e ↦ inr e ]
]

first-snoc :
    (ws : List ℕ) (l : ℕ) (rest : List ℕ)
    → first ((ws ++ (l ∷ [])) ++ rest) none ≡ first (ws ++ (l ∷ [])) none
first-snoc [] l rest = refl
first-snoc (w ∷ ws) l rest = refl

full_head : (ws : List ℕ) (l : ℕ) (h : Ptr) → h ≡ first (ws ++ (l ∷ [])) none → is_null h ≡ false
full_head [] l h e = ap is_null e
full_head (w ∷ ws) l h e = ap is_null e

-- The thread `n` comes behind the last thread `l`.
module _ (m : Machine) (i n l : ℕ) (ws : List ℕ) (f : IsFamily m i (ws ++ (l ∷ [])))
    (own : (m.proc n).shared_info ≡ i) (alone : (m.proc n).th_next ≡ none)
    (fresh : Fresh n (ws ++ (l ∷ []))) (low : n < nproc) where
  abbrev xs : List ℕ
  xs = ws ++ (l ∷ [])

  abbrev behind : Thread → Thread
  behind r = record r { th_next = some n }

  abbrev final : Share → Share
  final r = record r { th_last = some n }

  abbrev linked : Machine
  linked = modify m l behind

  not_n : l ≢ n
  not_n e = Fresh-not_In n xs fresh (subst (λ x. In x xs) e (In-middle ws l []))

  linked_other : (j : ℕ) → l ≢ j → linked.proc j ≡ m.proc j
  linked_other j h = update_ne m.proc (behind (m.proc l)) h

  linked-members : (j : ℕ) → (linked.proc j).shared_info ≡ (m.proc j).shared_info
  linked-members = members-change m.proc l behind (λ r. refl)

  linked-Links : Links linked.proc (xs ++ (n ∷ [])) none
  linked-Links =
      let (fl, _, _) = Distinct-middle ws l [] f.distinct in
      let front = (Links-split m.proc ws (l ∷ []) none f.links).0 in
      Links-append linked.proc xs (n ∷ []) none
        (Links-append linked.proc ws (l ∷ []) (some n)
          (Links-same m.proc linked.proc ws (some l)
            (λ j h. ap (λ (r : Thread). r.th_next) (linked_other j (Fresh-ne l j ws fl h))) front)
          (ap (λ (r : Thread). r.th_next) (update_self m.proc l (behind (m.proc l))), tt))
        (ap (λ (r : Thread). r.th_next) (linked_other n not_n) ∙ alone, tt)

  linked-IsFamily : IsFamily (modify_share linked i final) i (xs ++ (n ∷ []))
  linked-IsFamily =
      let now = update_self m.share i (final (m.share i)) in
      record {
        head = ap (λ (r : Share). r.th_family_hd) now ∙ f.head ∙ sym (first-snoc ws l (n ∷ []));
        tail = ap (λ (r : Share). r.th_last) now ∙ sym (last-append none xs (n ∷ []));
        links = linked-Links;
        distinct = Distinct-snoc;
        below = All-join (λ x. x < nproc) xs (n ∷ []) f.below (low, tt);
        members = λ j h. linked-members j ∙ elim (In-snoc j n xs h) [
          | inl g ↦ f.members j g
          | inr e ↦ ap (λ x. (m.proc x).shared_info) e ∙ own
        ];
      }
    where
      Distinct-snoc : Distinct (xs ++ (n ∷ []))
      Distinct-snoc = Distinct-insert xs n [] fresh tt (rw append-nil f.distinct)

  pub join_family_lem :
      (m' : Machine) × (join_family m n ≡ some m')
      × IsFamily m' i (xs ++ (n ∷ []))
      × (m'.locked ≡ m.locked)
  unfolding join_family
  join_family_lem =
      let hd =
        full_head ws l (share_of m n).th_family_hd
          (ap (λ k. (m.share k).th_family_hd) own ∙ f.head) in
      let tl : (share_of m n).th_last ≡ some l =
        ap (λ k. (m.share k).th_last) own ∙ f.tail ∙ last-append none ws (l ∷ []) in
      let same = linked-members n ∙ own in
      (
        modify_share linked i final,
        rw (hd, tl) (ap (λ k. some (modify_share linked k final)) same),
        linked-IsFamily,
        refl,
      )
