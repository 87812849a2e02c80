-- ===== src/Thread/Proof/Delete.antt =====
-- `delete_thread` takes a thread off its family, if its link is still there.
use hyu_os.Prelude.{
  ℕ, ◌+◌, ◌≤◌, ◌≡◌, refl, sym, ◌∙◌, ap, subst, ◌≢◌, inl, inr, none, some, List, [], ◌∷◌, ◌++◌,
  append_assoc, arith, length, first, last, last-append, snoc-cases, Fresh, Distinct, In, Below,
  false, erase,
}
use hyu_os.Mlfq.State.{Ptr, nproc}
use hyu_os.Mlfq.Queue.{points_to}
use hyu_os.Mlfq.Queue.Chain.{Distinct-middle, In-middle, In-split}
use hyu_os.Mlfq.Queue.Delete.{erase-middle}
use hyu_os.Thread.State.{Machine, share_of}
use hyu_os.Thread.Family.{before_target, unlink_behind, delete_thread}
use hyu_os.Thread.Proof.Chain.{Links, Links-split, before_target_lem}
use hyu_os.Thread.Proof.Members.{
  IsFamily, length-family, unlink_lem, delete_head, Below-skip, In-skip,
}

first_apart :
    (q : ℕ) (t : ℕ) (ws : List ℕ)
    → Fresh q (ws ++ (t ∷ []))
    → points_to (first (ws ++ (t ∷ [])) (some q)) q ≡ false
first_apart q t [] f = ground (arith, f.0)
first_apart q t (w ∷ ws) f = ground (arith, f.0)

first-full : (ws : List ℕ) (t : ℕ) (d e : Ptr) → first (ws ++ (t ∷ [])) d ≡ first (ws ++ (t ∷ [])) e
first-full [] t d e = refl
first-full (w ∷ ws) t d e = refl

length-snoc :
    (ws : List ℕ) (t : ℕ) (zs : List ℕ) → length (ws ++ (t ∷ [])) ≤ length (ws ++ (t ∷ zs))
length-snoc [] t zs = omega arith
length-snoc (w ∷ ws) t zs = omega (arith, length-snoc ws t zs)

-- The search finds the thread `t` before `q`, and the rest is `unlink_behind`.
pub delete_behind :
    (m : Machine) (i q t : ℕ) (ws : List ℕ)
    → Links m.proc (ws ++ (t ∷ [])) (some q)
    → (m.share i).th_family_hd ≡ first (ws ++ (t ∷ [])) (some q)
    → (m.proc q).shared_info ≡ i
    → Fresh q (ws ++ (t ∷ []))
    → length (ws ++ (t ∷ [])) ≤ nproc
    → delete_thread m q ≡ some (unlink_behind m t (m.proc q).th_next)
unfolding delete_thread
delete_behind m i q t ws links head own fresh short =
    let xs = ws ++ (t ∷ []) in
    let hd : (share_of m q).th_family_hd ≡ first xs (some q) =
      ap (λ k. (m.share k).th_family_hd) own ∙ head in
    let found : before_target (nproc + 1) m.proc q (first xs (some q)) (first xs (some q))
        ≡ some (some t) =
      before_target_lem (nproc + 1) m.proc q (first xs (some q)) xs (omega arith) links fresh
      ∙ ap some (last-append (first xs (some q)) ws (t ∷ [])) in
    rw (hd, first_apart q t ws fresh, found) refl

-- What a family says around two neighbours.
module _ (m : Machine) (i t q : ℕ) (ws zs : List ℕ) (f : IsFamily m i (ws ++ (t ∷ q ∷ zs))) where
  split_front : Links m.proc (ws ++ (t ∷ [])) (some q) × Links m.proc (q ∷ zs) none
  split_front =
      Links-split m.proc (ws ++ (t ∷ [])) (q ∷ zs) none
        (rw (append_assoc ws (t ∷ []) (q ∷ zs)) f.links)

  apart : Fresh q (ws ++ (t ∷ [])) × Fresh q zs × Distinct ((ws ++ (t ∷ [])) ++ zs)
  apart = Distinct-middle (ws ++ (t ∷ [])) q zs (rw (append_assoc ws (t ∷ []) (q ∷ zs)) f.distinct)

  pub before_q : Links m.proc ws (some t)
  before_q = (Links-split m.proc ws (t ∷ q ∷ zs) none f.links).0

  pub owner_q : (m.proc q).shared_info ≡ i
  owner_q =
      f.members q
        (subst (λ l. In q l) (append_assoc ws (t ∷ []) (q ∷ zs)) (In-middle (ws ++ (t ∷ [])) q zs))

  pub short_front : length (ws ++ (t ∷ [])) ≤ nproc
  short_front = omega (arith, length-snoc ws t (q ∷ zs), length-family m i (ws ++ (t ∷ q ∷ zs)) f)

  first_t : (d : Ptr) → first (ws ++ (t ∷ q ∷ zs)) none ≡ first (ws ++ (t ∷ [])) d
  first_t d = sym (cut_first ws)
    where
      cut_first : (us : List ℕ) → first (us ++ (t ∷ [])) d ≡ first (us ++ (t ∷ q ∷ zs)) none
      cut_first [] = refl
      cut_first (u ∷ us) = refl

  pub delete_middle :
      (m' : Machine) × (delete_thread m q ≡ some m') × IsFamily m' i (ws ++ (t ∷ zs))
  delete_middle =
      let next : (m.proc q).th_next ≡ first zs none = split_front.1.0 in
      let kept : Distinct (ws ++ (t ∷ zs)) = rw (append_assoc ws (t ∷ []) zs) at apart.2 in
      let low : Below nproc (ws ++ (t ∷ zs)) =
        let h = Below-skip (ws ++ (t ∷ [])) q zs (rw (append_assoc ws (t ∷ []) (q ∷ zs)) f.below) in
        rw (append_assoc ws (t ∷ []) zs) at h in
      (
        unlink_behind m t (first zs none),
        delete_behind m i q t ws split_front.0 (f.head ∙ first_t (some q)) owner_q apart.0
              short_front
            ∙ ap (λ n. some (unlink_behind m t n)) next,
        unlink_lem m i t ws zs before_q split_front.1.1 (f.head ∙ first_t none ∙ sym (head_t ws))
            (last_zs zs f.tail) kept low (λ j h. f.members j (skip j h)),
      )
    where
      head_t : (us : List ℕ) → first (us ++ (t ∷ zs)) none ≡ first (us ++ (t ∷ [])) none
      head_t [] = refl
      head_t (u ∷ us) = refl

      last_zs :
          (us : List ℕ)
          → (m.share i).th_last ≡ last none (ws ++ (t ∷ q ∷ us))
          → us ≢ []
          → (m.share i).th_last ≡ last none us
      last_zs [] e n = absurd (n refl)
      last_zs (u ∷ us) e n = e ∙ last-append none ws (t ∷ q ∷ u ∷ us)

      skip : (j : ℕ) → In j (ws ++ (t ∷ zs)) → In j (ws ++ (t ∷ q ∷ zs))
      skip j h =
          subst (λ l. In j l) (append_assoc ws (t ∷ []) (q ∷ zs))
            (In-skip j q (ws ++ (t ∷ [])) zs
              (subst (λ l. In j l) (sym (append_assoc ws (t ∷ []) zs)) h))

delete_front :
    (m : Machine) (i q : ℕ) (zs : List ℕ)
    → IsFamily m i (q ∷ zs)
    → zs ≢ []
    → (m' : Machine) × (delete_thread m q ≡ some m') × IsFamily m' i zs
delete_front m i q [] f n = absurd (n refl)
delete_front m i q (z ∷ zs) f n = delete_head m i q z zs f

delete_around :
    (m : Machine) (i q : ℕ) (ys zs : List ℕ)
    → IsFamily m i (ys ++ (q ∷ zs))
    → ys ++ zs ≢ []
    → (m' : Machine) × (delete_thread m q ≡ some m') × IsFamily m' i (ys ++ zs)
delete_around m i q ys zs g n = elim (snoc-cases ys) [
  | inl e ↦
      let g' : IsFamily m i (q ∷ zs) = subst (λ l. IsFamily m i (l ++ (q ∷ zs))) e g in
      let (m', d, w) = delete_front m i q zs g' (λ h. n (ap (λ l. l ++ zs) e ∙ h)) in
      (m', d, subst (λ l. IsFamily m' i (l ++ zs)) (sym e) w)
  | inr (ws, t, e) ↦
      let g' : IsFamily m i (ws ++ (t ∷ q ∷ zs)) =
        subst (IsFamily m i) (ap (λ l. l ++ (q ∷ zs)) e ∙ append_assoc ws (t ∷ []) (q ∷ zs)) g in
      let (m', d, w) = delete_middle m i t q ws zs g' in
      (m', d, subst (IsFamily m' i) (sym (ap (λ l. l ++ zs) e ∙ append_assoc ws (t ∷ []) zs)) w)
]

-- `delete_thread` of a thread of a well-formed family that is not its only one never faults: it
-- takes exactly this thread off, keeps the order of the others, and sets the first and the last.
pub delete_thread_lem :
    (m : Machine) (i q : ℕ) (xs : List ℕ)
    → IsFamily m i xs
    → In q xs
    → erase q xs ≢ []
    → (m' : Machine) × (delete_thread m q ≡ some m') × IsFamily m' i (erase q xs)
delete_thread_lem m i q xs f h more =
    let (ys, zs, e, fresh) = In-split q xs h in
    let gone : erase q xs ≡ ys ++ zs = ap (erase q) e ∙ erase-middle q ys zs fresh in
    let f' : IsFamily m i (ys ++ (q ∷ zs)) = subst (IsFamily m i) e f in
    let (m', d, w) = delete_around m i q ys zs f' (λ g. more (gone ∙ g)) in
    (m', d, subst (IsFamily m' i) (sym gone) w)
