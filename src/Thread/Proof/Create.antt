-- ===== src/Thread/Proof/Create.antt =====
-- The whole critical section of `thread_create`.
use hyu_os.Prelude.{
  eq-cases, ℕ, ◌*◌, ◌<◌, ◌≡◌, refl, sym, ◌∙◌, ap, subst, ◌≢◌, inl, inr, true, false, some, List, [],
  ◌∷◌, ◌++◌, arith, Fresh, In, update_self, update_ne, ◌==◌,
}
use hyu_os.Prelude.Words.{add32, sub32, page_size, page_round_up}
use hyu_os.Mlfq.State.{runnable, nproc}
use hyu_os.Mlfq.Queue.Chain.{Fresh-ne}
use hyu_os.Thread.State.{
  Share, Thread, Machine, acquire, release, change, modify, modify_share, modify_share_of, share_of,
}
use hyu_os.Thread.Create.{shared_with, join_family, started, set_up}
use hyu_os.Thread.Proof.Members.{IsFamily, members-change}
use hyu_os.Thread.Proof.Grow.{IsFamily-same, join_family_lem}

module _ (allocuvm : ℕ → ℕ → ℕ) (start p n i l : ℕ) (ws : List ℕ) (m : Machine)
    (free : m.locked ≡ false) (f : IsFamily m i (ws ++ (l ∷ [])))
    (mine : (m.proc p).shared_info ≡ i) (fresh : Fresh n (ws ++ (l ∷ []))) (low : n < nproc) where
  abbrev held : Machine
  held = record m { locked = true }

  abbrev drawn : Machine
  drawn = modify held n (shared_with p (held.proc p))

  abbrev old : ℕ
  old = page_round_up (share_of drawn n).sz

  abbrev grown : ℕ
  grown = allocuvm old (add32 old (2 * page_size))

  abbrev sized : Share → Share
  sized r = record r { sz = grown }

  drawn_self : drawn.proc n ≡ shared_with p (m.proc p) (m.proc n)
  drawn_self = update_self m.proc n (shared_with p (m.proc p) (m.proc n))

  drawn-owner : (drawn.proc n).shared_info ≡ i
  drawn-owner = ap (λ (r : Thread). r.shared_info) drawn_self ∙ mine

  drawn_other : (j : ℕ) → In j (ws ++ (l ∷ [])) → drawn.proc j ≡ m.proc j
  drawn_other j h =
      update_ne m.proc (shared_with p (m.proc p) (m.proc n)) (Fresh-ne n j (ws ++ (l ∷ [])) fresh h)

  drawn-IsFamily : IsFamily drawn i (ws ++ (l ∷ []))
  drawn-IsFamily =
      IsFamily-same m drawn i (ws ++ (l ∷ [])) refl refl
        (λ j h. ap (λ (r : Thread). r.th_next) (drawn_other j h))
        (λ j h. ap (λ (r : Thread). r.shared_info) (drawn_other j h)) f

  set_up-eq :
      (m₃ : Machine)
      → grown ≢ 0
      → join_family drawn n ≡ some m₃
      → m₃.locked ≡ true
      → let m₄ = modify_share_of m₃ n sized in
        set_up allocuvm start p n m
        ≡ some (
          some (m₄.proc n).tid,
          record (modify m₄ n (started (m₄.proc p).tf start (sub32 grown 8))) { locked = false },
        )
  unfolding set_up acquire release
  set_up-eq m₃ more e lock =
      let full : (grown == 0) ≡ false = ground arith in rw (free, full, e, lock) refl

  -- With `ptable.lock` free, a well-formed family that the caller belongs to and a slot `n` of the
  -- table that is not on it: where `allocuvm` gives more memory, the critical section of
  -- `thread_create` never faults, and the new thread stands behind the last one of the family, is
  -- runnable, and the process has the new size.
  pub set_up_lem :
      grown ≢ 0
      → (tid : ℕ) × (m' : Machine) × (set_up allocuvm start p n m ≡ some (some tid, m'))
        × IsFamily m' i ((ws ++ (l ∷ [])) ++ (n ∷ []))
        × ((m'.share i).sz ≡ grown)
        × ((m'.proc n).state ≡ runnable)
  set_up_lem more =
      let (m₃, e, w, lock) =
        join_family_lem drawn i n l ws drawn-IsFamily drawn-owner
          (ap (λ (r : Thread). r.th_next) drawn_self) fresh low in
      let g = started (((modify_share_of m₃ n sized).proc p).tf) start (sub32 grown 8) in
      let xs = (ws ++ (l ∷ [])) ++ (n ∷ []) in
      let m₅ = λ (k : ℕ). record (modify (modify_share m₃ k sized) n g) { locked = false } in
      let now = update_self m₃.share i (sized (m₃.share i)) in
      let same : IsFamily (m₅ i) i xs =
        IsFamily-same m₃ (m₅ i) i xs (ap (λ (r : Share). r.th_family_hd) now)
          (ap (λ (r : Share). r.th_last) now) (λ j h. next-change m₃ n g (λ r. refl) j)
          (λ j h. members-change m₃.proc n g (λ r. refl) j) w in
      let own = sym (w.members n (last_in (ws ++ (l ∷ [])) n)) in
      (
        _,
        m₅ (m₃.proc n).shared_info,
        set_up-eq m₃ more e lock,
        subst (λ k. IsFamily (m₅ k) i xs) own same,
        subst (λ k. ((m₅ k).share i).sz ≡ grown) own (ap (λ (r : Share). r.sz) now),
        ap (λ (r : Thread). r.state) (update_self m₃.proc n (g (m₃.proc n))),
      )
    where
      last_in : (us : List ℕ) (x : ℕ) → In x (us ++ (x ∷ []))
      last_in [] x = inl refl
      last_in (u ∷ us) x = inr (last_in us x)

      next-change :
          (m : Machine) (t : ℕ) (f : Thread → Thread)
          → ((r : Thread) → (f r).th_next ≡ r.th_next)
          → (j : ℕ) → (change m.proc t f j).th_next ≡ (m.proc j).th_next
      next-change m t f k j = elim (eq-cases t j) [
        | inl e ↦ rw (← e, update_self m.proc t (f (m.proc t))) (k (m.proc t))
        | inr h ↦ ap (λ (r : Thread). r.th_next) (update_ne m.proc (f (m.proc t)) h)
      ]
