-- ===== src/Thread/Proof/Kill.antt =====
-- `kill` reaches every thread of the family.
use hyu_os.Prelude.{
  ℕ, ◌+◌, ◌≤◌, ◌≡◌, refl, sym, ◌≢◌, if◌then◌else◌, ◌∙◌, ap, subst, inl, inr, true, false, none,
  some, List, arith, length, first, Fresh, Distinct, In, eq-cases, update_self, update_ne, ◌==◌,
}
use hyu_os.Mlfq.State.{ProcState, unused, embryo, sleeping, runnable, running, zombie, nproc}
use hyu_os.Mlfq.Sleep.{is_sleeping}
use hyu_os.Mlfq.Queue.Chain.{Fresh-not_In}
use hyu_os.Thread.State.{Thread, Threads, Machine, acquire, release, modify, share_of}
use hyu_os.Thread.Family.{each_thread, killed_thread, kill_case, kill}
use hyu_os.Thread.Proof.Loops.{FirstSlot, find_slot-eq}
use hyu_os.Thread.Proof.Chain.{Links, Links-same, Looped, family_loop_lem}
use hyu_os.Thread.Proof.Members.{IsFamily, length-family, members-change}

-- The loop over a family ends, and runs its body on exactly the threads of the family.
pub each_thread_lem :
    (f : ℕ → Thread → Thread)
    → ((t : ℕ) (r : Thread) → (f t r).th_next ≡ r.th_next)
    → (m : Machine) (i p : ℕ) (xs : List ℕ) → (m.proc p).shared_info ≡ i
    → (m.share i).th_family_hd ≡ first xs none
    → Links m.proc xs none
    → Distinct xs
    → length xs ≤ nproc
    → (s' : Threads) × (each_thread f p m ≡ some (record m { proc = s' })) × Looped f m.proc s' xs
unfolding each_thread
each_thread_lem f keeps m i p xs own head links d short =
    let (s', e, w) = family_loop_lem f keeps (nproc + 1) m.proc xs (omega arith) links d in
    let hd : (share_of m p).th_family_hd ≡ first xs none =
      ap (λ k. (m.share k).th_family_hd) own ∙ head in
    (s', rw (hd, e) refl, w)

abbrev marked : Thread → Thread
marked r = record r { killed = true }

-- The process of the number `pid` that `kill` finds is `p`.
abbrev pub FirstPid : Machine → ℕ → ℕ → Type 0
FirstPid m pid p = FirstSlot (λ q. (m.proc q).pid == pid) 0 nproc p

-- A thread before and after a kill: it is marked, a sleeper is runnable, and the rest stays.
pub record IsKilled (r r' : Thread) : Type 0 where
  pub marked : r'.killed ≡ true
  pub woken : r.state ≡ sleeping → r'.state ≡ runnable
  pub kept : r.state ≢ sleeping → r'.state ≡ r.state
  pub others : r' ≡ record r { killed = r'.killed; state = r'.state }

awake_cases :
    (st : ProcState)
    → (st ≡ sleeping → (if is_sleeping st then runnable else st) ≡ runnable)
      × (st ≢ sleeping → (if is_sleeping st then runnable else st) ≡ st)
awake_cases ProcState.sleeping = ((λ e. refl), (λ n. absurd (n refl)))
awake_cases unused = ((λ e. cc), (λ n. refl))
awake_cases embryo = ((λ e. cc), (λ n. refl))
awake_cases runnable = ((λ e. refl), (λ n. refl))
awake_cases running = ((λ e. cc), (λ n. refl))
awake_cases zombie = ((λ e. cc), (λ n. refl))

killed_thread-IsKilled : (r : Thread) → IsKilled r (killed_thread r)
killed_thread-IsKilled r = record {
  marked = refl;
  woken = (awake_cases r.state).0;
  kept = (awake_cases r.state).1;
  others = refl;
}

module _ (m : Machine) (pid p i : ℕ) (xs : List ℕ) (free : m.locked ≡ false) (at : FirstPid m pid p)
    (f : IsFamily m i xs) (mine : In p xs) where
  abbrev struck : Machine
  struck = modify (record m { locked = true }) p marked

  struck-next : (j : ℕ) → (struck.proc j).th_next ≡ (m.proc j).th_next
  struck-next j = elim (eq-cases p j) [
    | inl e ↦ rw (← e, update_self m.proc p (marked (m.proc p))) refl
    | inr n ↦ ap (λ (r : Thread). r.th_next) (update_ne m.proc (marked (m.proc p)) n)
  ]

  struck_killed : (j : ℕ) → killed_thread (struck.proc j) ≡ killed_thread (m.proc j)
  struck_killed j = elim (eq-cases p j) [
    | inl e ↦ rw (← e, update_self m.proc p (marked (m.proc p))) refl
    | inr n ↦ ap killed_thread (update_ne m.proc (marked (m.proc p)) n)
  ]

  kill-eq :
      (s' : Threads)
      → each_thread (λ _. killed_thread) p struck ≡ some (record struck { proc = s' })
      → kill pid m ≡ some (true, record m { proc = s'; locked = false })
  unfolding kill acquire release
  kill-eq s' e =
      let found = find_slot-eq nproc 0 nproc (λ q. (m.proc q).pid == pid) p refl at in
      rw free (ap (kill_case (record m { locked = true })) found ∙ rw e refl)

  -- With `ptable.lock` free, `kill` of a number whose first slot belongs to a well-formed family
  -- never faults and returns 0: every thread of the family is marked as killed, and runnable if it slept, and no other
  -- thread changes.
  pub kill_family_lem :
      (s' : Threads) × (kill pid m ≡ some (true, record m { proc = s'; locked = false }))
      × ((j : ℕ) → In j xs → IsKilled (m.proc j) (s' j))
      × ((j : ℕ) → Fresh j xs → s' j ≡ m.proc j)
  kill_family_lem =
      let own = members-change m.proc p marked (λ r. refl) p ∙ f.members p mine in
      let (s', e, w) =
        each_thread_lem (λ _. killed_thread) (λ t r. refl) struck i p xs own f.head
          (Links-same m.proc struck.proc xs none (λ j h. struck-next j) f.links) f.distinct
          (length-family m i xs f) in
      (
        s',
        kill-eq s' e,
        (λ j h.
            subst (IsKilled (m.proc j)) (sym (w.on j h ∙ struck_killed j))
              (killed_thread-IsKilled (m.proc j))),
        (λ j g.
            w.off j g
            ∙ update_ne m.proc (marked (m.proc p))
                (λ e. Fresh-not_In j xs g (subst (λ x. In x xs) e mine))),
      )
