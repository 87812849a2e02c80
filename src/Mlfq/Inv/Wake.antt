-- ===== src/Mlfq/Inv/Wake.antt =====
-- `wakeup` keeps the invariant.
use hyu_os.Prelude.{◌≡◌, refl, sym, ◌∙◌, ap, true, false, some, ◌>>=◌, arith}
use hyu_os.Mlfq.State.{Proc, Chan, sleep_queue}
use hyu_os.Mlfq.Kernel.{Kernel, acquire, release}
use hyu_os.Mlfq.Sleep.{wakeup1, wakeup}
use hyu_os.Mlfq.Inv.Threaded.{Home, View, none≢some}
use hyu_os.Mlfq.Inv.Live.{Inv, Inv-same, away_of_running}
use hyu_os.Mlfq.Inv.Wakeup.{Woke, wakeup1_lem}
use hyu_os.Mlfq.Inv.Yield.{EndsIn}

-- A running process is no sleeper, so waking leaves it alone.
pub Woke-Inv :
    (k k' : Kernel) (home : Home) (view : View) (ch : Chan)
    → Inv k home view
    → (w : Woke k k' ch (view sleep_queue)) → Inv k' w.home' w.view'
Woke-Inv k k' home view ch inv w = record {
  live = w.live;
  on_cpu = λ c p. rw w.globals.cpu (λ e.
      let r = inv.on_cpu c p e in
      ap (λ (x : Proc). x.state)
        (w.others p (λ m. absurd (
          none≢some (
            sym (away_of_running p inv.live r)
            ∙ inv.live.queued.threaded.home_of_In sleep_queue p m))))
      ∙ r);
  slots = λ c p. rw w.globals.cpu (inv.slots c p);
  one_cpu = λ c d p. rw w.globals.cpu (inv.one_cpu c d p);
  ticks = rw w.globals.global_ticks inv.ticks;
}

wakeup-eq :
    (k : Kernel) (ch : Chan)
    → k.locked ≡ false
    → wakeup ch k ≡ (wakeup1 (record k { locked = true }) ch >>= release)
unfolding wakeup acquire
wakeup-eq k ch e = ground arith

pub release_lem : (k : Kernel) → k.locked ≡ true → release k ≡ some (record k { locked = false })
unfolding release
release_lem k e = ground arith

-- What `wakeup` leaves: a well-formed kernel whose CPUs run what they ran.
pub wakeup_lem :
    (k : Kernel) (ch : Chan) (home : Home) (view : View)
    → Inv k home view
    → k.locked ≡ false
    → (k' : Kernel) × (home' : Home) × (view' : View) × (wakeup ch k ≡ some k')
      × Inv k' home' view'
      × (k'.cpu ≡ k.cpu)
      × (k'.locked ≡ false)
wakeup_lem k ch home view inv free =
    let k₀ = record k { locked = true } in
    let inv₀ = Inv-same k k₀ home view refl refl refl inv.ticks inv in
    let (k₁, e, w) = wakeup1_lem ch k₀ home view inv₀.live in
    let inv₁ = Woke-Inv k₀ k₁ home view ch inv₀ w in
    let k₂ = record k₁ { locked = false } in
    (
      k₂,
      w.home',
      w.view',
      wakeup-eq k ch free ∙ rw e (release_lem k₁ w.globals.locked),
      Inv-same k₁ k₂ w.home' w.view' refl refl refl inv₁.ticks inv₁,
      w.globals.cpu,
      refl,
    )

-- With `ptable.lock` free, `wakeup` never faults on a well-formed kernel, whatever the channel,
-- and leaves a well-formed kernel.
pub wakeup-Inv :
    (k : Kernel) (ch : Chan) (home : Home) (view : View)
    → Inv k home view
    → k.locked ≡ false
    → EndsIn (wakeup ch k)
wakeup-Inv k ch home view inv free =
    let (k', home', view', e, i, _, _) = wakeup_lem k ch home view inv free in
    (k', home', view', e, i)
