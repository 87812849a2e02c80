-- ===== src/Mlfq/Inv/Asleep.antt =====
-- `sleep` keeps the invariant.
use hyu_os.Prelude.{ℕ, ◌≡◌, refl, ◌∙◌, ap, Bool, true, false, none, some, arith, update_self, ◌>>=◌}
use hyu_os.Mlfq.State.{sleeping, Proc, Chan, sleep_queue}
use hyu_os.Mlfq.Kernel.{Kernel, acquire, modify}
use hyu_os.Mlfq.Sched.{sched}
use hyu_os.Mlfq.Sleep.{fall_asleep, asleep, take_lock, sleep}
use hyu_os.Mlfq.Inv.Threaded.{Home, View}
use hyu_os.Mlfq.Inv.Level.{same_state, enqueue-Entered}
use hyu_os.Mlfq.Inv.Live.{Inv, releasemlfq_lem}
use hyu_os.Mlfq.Inv.Held.{Held, hold, Held-modify, Held-same, small_level, in_table, leave}
use hyu_os.Mlfq.Inv.Yield.{EndsIn, sched_lem}

module _ (k : Kernel) (c p : ℕ) (home : Home) (view : View) (h : Held k c p home view)
    (ch : Chan) where
  abbrev drowsy : Kernel
  drowsy = modify (record k { lockproc = none }) p (asleep ch)

  drowsy-Held : Held drowsy c p home view
  drowsy-Held =
      let k₁ = record k { lockproc = none } in
      let h₁ = Held-same k c p home view h k₁ refl refl refl refl h.ticks in
      Held-modify k₁ c p home view h₁ (asleep ch)
        (record { prev = refl; next = refl; level = small_level k c p home view h })

  drowsy-sleeping : (drowsy.proc p).state ≡ sleeping
  drowsy-sleeping = ap (λ (r : Proc). r.state) (update_self k.proc p (asleep ch (k.proc p)))

  -- The process is put on the sleep queue, and the round of the scheduler ends.
  pub fall_asleep-EndsIn : EndsIn (fall_asleep k p ch >>= sched c p)
  unfolding fall_asleep
  fall_asleep-EndsIn =
      let low = small_level drowsy c p home view drowsy-Held in
      let (k', e, r) =
        enqueue-Entered drowsy home view drowsy-Held.queued p h.away (in_table k c p home view h)
          sleep_queue none (omega arith) tt (ground arith) in
      let l =
        leave drowsy c p home view drowsy-Held k' sleep_queue _ r.same r.queued
          (rw drowsy-sleeping refl) in
      let st = same_state r.same p ∙ drowsy-sleeping in
      let (k₂, home', view', f, inv) = sched_lem k' c p _ _ l (rw st refl) in
      (k₂, home', view', rw (releasemlfq_lem k, e) f, inv)

take_lock_lem :
    (k : Kernel) (own : Bool) → k.locked ≡ own → take_lock own k ≡ some (record k { locked = true })
unfolding take_lock acquire
take_lock_lem k true f = λ i. some (record k { locked = f i })
take_lock_lem k false f = ground arith

sleep-eq :
    (k : Kernel) (c p : ℕ) (ch : Chan) (own : Bool)
    → k.cpu c ≡ some p
    → k.locked ≡ own
    → sleep c ch own k ≡ (fall_asleep (record k { locked = true }) p ch >>= sched c p)
unfolding sleep
sleep-eq k c p ch own e f = rw (e, take_lock_lem k own f) refl

-- On a well-formed kernel, `sleep` of the process that CPU `c` runs never faults and leaves a
-- well-formed kernel, whether the lock that it is given is `ptable.lock`, already held, or
-- another one, with `ptable.lock` free.
pub sleep-Inv :
    (k : Kernel) (c p : ℕ) (ch : Chan) (own : Bool) (home : Home) (view : View)
    → Inv k home view
    → k.cpu c ≡ some p
    → k.locked ≡ own
    → EndsIn (sleep c ch own k)
sleep-Inv k c p ch own home view inv e f =
    let (k', home', view', g, inv') =
      fall_asleep-EndsIn (record k { locked = true }) c p home view (hold k c p home view inv e)
        ch in
    (k', home', view', sleep-eq k c p ch own e f ∙ g, inv')
