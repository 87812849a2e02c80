-- ===== src/Thread/Proof/Join.antt =====
-- `thread_join` clears the link of the thread before it takes the thread off its family.
use hyu_os.Prelude.{
  ℕ, ◌<◌, ◌≡◌, refl, ◌∙◌, ap, subst, ◌≢◌, Bool, true, false, none, some, List, [], ◌∷◌, ◌++◌,
  append_assoc, first, Fresh, Distinct, In, update_self, update_ne,
}
use hyu_os.Mlfq.State.{Ptr, nproc}
use hyu_os.Mlfq.Queue.Chain.{
  Distinct-middle, Fresh-ne, In-middle, In-append-left, Distinct-apart_right, Fresh-not_In,
}
use hyu_os.Thread.State.{Thread, Machine, release, modify}
use hyu_os.Thread.Family.{unlink_behind, delete_thread}
use hyu_os.Thread.Life.{reaped}
use hyu_os.Thread.Create.{value, join_case, join_round, is_dead}
use hyu_os.Thread.Proof.Loops.{FirstSlot, find_slot-eq}
use hyu_os.Thread.Proof.Chain.{Links, Links-same, Links-split}
use hyu_os.Thread.Proof.Members.{
  IsFamily, members-change, unlink_lem, Distinct-front, All-append_left,
}
use hyu_os.Thread.Proof.Delete.{delete_behind, owner_q, short_front}

-- A lock that changes hands leaves the families alone.
pub IsFamily-locked :
    (m : Machine) (b : Bool) (i : ℕ) (xs : List ℕ)
    → IsFamily m i xs
    → IsFamily (record m { locked = b }) i xs
IsFamily-locked m b i xs f = record {
  head = f.head;
  tail = f.tail;
  links = f.links;
  distinct = f.distinct;
  below = f.below;
  members = f.members;
}

unlink-locked : (m : Machine) (t : ℕ) → (unlink_behind m t none).locked ≡ m.locked
unfolding unlink_behind
unlink-locked m t = refl

unlink-other : (m : Machine) (t z : ℕ) → t ≢ z → (unlink_behind m t none).proc z ≡ m.proc z
unfolding unlink_behind
unlink-other m t z n = update_ne m.proc (record (m.proc t) { th_next = none }) n

module _ (m : Machine) (i t q : ℕ) (ws zs : List ℕ) (f : IsFamily m i (ws ++ (t ∷ q ∷ zs))) where
  abbrev cleared : Machine
  cleared = modify m q reaped

  abbrev kept : List ℕ
  kept = ws ++ (t ∷ [])

  cleared_other : (j : ℕ) → q ≢ j → cleared.proc j ≡ m.proc j
  cleared_other j n = update_ne m.proc (reaped (m.proc q)) n

  apart : Fresh q kept × Fresh q zs × Distinct (kept ++ zs)
  apart = Distinct-middle kept q zs (rw (append_assoc ws (t ∷ []) (q ∷ zs)) f.distinct)

  links : Links cleared.proc kept (some q)
  links =
      let l =
        Links-split m.proc kept (q ∷ zs) none (rw (append_assoc ws (t ∷ []) (q ∷ zs)) f.links) in
      Links-same m.proc cleared.proc kept (some q)
        (λ j h. ap (λ (r : Thread). r.th_next) (cleared_other j (Fresh-ne q j kept apart.0 h))) l.0

  cleared-members : (j : ℕ) → (cleared.proc j).shared_info ≡ (m.proc j).shared_info
  cleared-members = members-change m.proc q reaped (λ r. refl)

  cleared_next : (cleared.proc q).th_next ≡ none
  cleared_next = ap (λ (r : Thread). r.th_next) (update_self m.proc q (reaped (m.proc q)))

  front_head : (d : Ptr) → (m.share i).th_family_hd ≡ first kept d
  front_head d = f.head ∙ go ws
    where
      go : (us : List ℕ) → first (us ++ (t ∷ q ∷ zs)) none ≡ first (us ++ (t ∷ [])) d
      go [] = refl
      go (u ∷ us) = refl

  -- `delete_thread` then ends the family at `t`.
  delete_cleared :
      (delete_thread cleared q ≡ some (unlink_behind cleared t none))
      × IsFamily (unlink_behind cleared t none) i kept
  delete_cleared =
      let own = cleared-members q ∙ owner_q m i t q ws zs f in
      let front = Links-split m.proc ws (t ∷ q ∷ zs) none f.links in
      (
        delete_behind cleared i q t ws links (front_head (some q)) own apart.0
              (short_front m i t q ws zs f)
            ∙ ap (λ n. some (unlink_behind cleared t n)) cleared_next,
        unlink_lem cleared i t ws [] (Links-split cleared.proc ws (t ∷ []) (some q) links).0 tt
            (front_head none) (λ n. absurd (n refl)) (Distinct-front kept zs apart.2)
            (All-append_left (λ x. x < nproc) kept (q ∷ zs)
              (rw (append_assoc ws (t ∷ []) (q ∷ zs)) f.below))
            (λ j h.
              cleared-members j
              ∙ f.members j (
                  subst (λ l. In j l) (append_assoc ws (t ∷ []) (q ∷ zs))
                    (In-append-left j kept (q ∷ zs) h))),
      )

  module _ (tid c p : ℕ) (on : m.cpu c ≡ some p) (held : m.locked ≡ true)
      (dead : FirstSlot (is_dead tid m) 0 nproc q) where
    -- Under `ptable.lock`, a round of `thread_join` that finds the zombie `q` of a well-formed
    -- family, with threads before it, never faults and returns its value, and the family then ends before `q`: the
    -- threads behind `q` are off the list, and are otherwise what they were.
    pub join_round_lem :
        (m' : Machine) × (join_round tid c m ≡ some (value (m.proc q).retval, m'))
        × IsFamily m' i (ws ++ (t ∷ []))
        × ((z : ℕ) → In z zs → Fresh z (ws ++ (t ∷ [])) × (m'.proc z ≡ m.proc z))
    unfolding join_round join_case release
    join_round_lem =
        let m₁ = unlink_behind cleared t none in
        let (d, w) = delete_cleared in
        let lock : m₁.locked ≡ true = unlink-locked cleared t ∙ held in
        (
          record m₁ { locked = false },
          rw on (
              ap (join_case c p m) (find_slot-eq nproc 0 nproc (is_dead tid m) q refl dead)
              ∙ rw (d, lock) refl),
          IsFamily-locked m₁ false i kept w,
          (λ z h.
              let far = Distinct-apart_right kept zs z apart.2 h in
              (
                far,
                unlink-other cleared t z
                      (λ e. Fresh-not_In z kept far (subst (λ x. In x kept) e (In-middle ws t [])))
                    ∙ cleared_other z (Fresh-ne q z zs apart.1 h),
              )),
        )
