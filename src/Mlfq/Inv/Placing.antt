-- ===== src/Mlfq/Inv/Placing.antt =====
-- A process changes where it is, or comes on a queue from none.
use hyu_os.Prelude.{
  ℕ, ◌<◌, ◌≡◌, ◌∙◌, ap, ◌≢◌, inl, inr, true, none, some, eq-cases, update, update_self, update_ne,
  leb, subst, [], ◌∷◌, ◌++◌,
}
use hyu_os.Mlfq.State.{running, Proc, nproc}
use hyu_os.Mlfq.Kernel.{Kernel, modify, enqueue}
use hyu_os.Mlfq.Inv.Threaded.{Home, View}
use hyu_os.Mlfq.Inv.Level.{state_fits, same_state, enqueue-Entered}
use hyu_os.Mlfq.Inv.Live.{Inv}
use hyu_os.Mlfq.State.{QueueId}
use hyu_os.Mlfq.Inv.Threaded.{SameGlobals}
use hyu_os.Mlfq.Queue.Chain.{IsQueue}
use hyu_os.Mlfq.Queue.Insert.{insert_before, insert_before-none}
use hyu_os.Mlfq.Inv.Level.{level_fits}
use hyu_os.Mlfq.Inv.Waiting.{stray-Queued}
use hyu_os.Mlfq.Inv.Calm.{IsCalm, modify_keeps, calm-Queued}

-- A calm change to any process that leaves its state alone.
pub calm-Inv :
    (k : Kernel) (home : Home) (view : View) (p : ℕ) (f : Proc → Proc)
    → IsCalm f (k.proc p)
    → (f (k.proc p)).state ≡ (k.proc p).state
    → Inv k home view
    → Inv (modify k p f) home view
calm-Inv k home view p f c st inv =
    let same = modify_keeps k p f (λ r. r.state) st in
    record {
      live = record {
        queued = calm-Queued k home view p f c inv.live.queued;
        states = λ j. rw (same j) (inv.live.states j);
      };
      on_cpu = λ d x e. same x ∙ inv.on_cpu d x e;
      slots = inv.slots;
      one_cpu = inv.one_cpu;
      ticks = inv.ticks;
    }

module _ (k : Kernel) (home : Home) (view : View) (inv : Inv k home view) (q : ℕ) (lt : q < nproc)
    (away : home q ≡ none) (idle : (k.proc q).state ≢ running) (f : Proc → Proc) where
  abbrev changed : Kernel
  changed = modify k q f

  changed_self : changed.proc q ≡ f (k.proc q)
  changed_self = update_self k.proc q (f (k.proc q))

  changed_other : (j : ℕ) → q ≢ j → changed.proc j ≡ k.proc j
  changed_other j n = update_ne k.proc (f (k.proc q)) n

  not_running : (c x : ℕ) → k.cpu c ≡ some x → q ≢ x
  not_running c x e h = idle (ap (λ y. (k.proc y).state) h ∙ inv.on_cpu c x e)

  -- A change that keeps it off the queues.
  pub stray-Inv :
      leb (f (k.proc q)).queuelevel 2 ≡ true
      → state_fits none (f (k.proc q)).state ≡ true
      → Inv changed home view
  stray-Inv low fit = record {
    live = record {
      queued = stray-Queued k home view q f away low inv.live.queued;
      states = λ j. elim (eq-cases q j) [
        | inl h ↦ rw (← h, away, changed_self) fit
        | inr n ↦ rw (changed_other j n) (inv.live.states j)
      ];
    };
    on_cpu = λ c x e.
        ap (λ (w : Proc). w.state) (changed_other x (not_running c x e)) ∙ inv.on_cpu c x e;
    slots = inv.slots;
    one_cpu = inv.one_cpu;
    ticks = inv.ticks;
  }

  -- The end of the queue `i`, which is not the lowest, takes it in.
  pub place_lem :
      (i : QueueId)
      → i ≢ 2
      → leb (f (k.proc q)).queuelevel 2 ≡ true
      → level_fits (some i) (f (k.proc q)).queuelevel ≡ true
      → state_fits (some i) (f (k.proc q)).state ≡ true
      → (k' : Kernel) × (home' : Home) × (view' : View) × (enqueue changed i q none ≡ some k')
        × Inv k' home' view'
        × SameGlobals changed k'
        × IsQueue k'.proc (k'.queue i) (view i ++ (q ∷ []))
  place_lem i ne low level fit =
      let (k', e, r) =
        enqueue-Entered changed home view (stray-Queued k home view q f away low inv.live.queued) q
          away lt i none ne tt (rw changed_self level) in
      (
        k',
        update home q (some i),
        _,
        e,
        record {
          live = record {
            queued = r.queued;
            states = λ j. rw (same_state r.same j) (elim (eq-cases q j) [
              | inl h ↦ rw (← h, update_self home q (some i), changed_self) fit
              | inr n ↦ rw (update_ne home (some i) n, changed_other j n) (inv.live.states j)
            ]);
          };
          on_cpu = λ c x. rw r.same.cpu (λ g.
              same_state r.same x
              ∙ ap (λ (w : Proc). w.state) (changed_other x (not_running c x g))
              ∙ inv.on_cpu c x g);
          slots = rw r.same.cpu inv.slots;
          one_cpu = rw r.same.cpu inv.one_cpu;
          ticks = rw r.same.global_ticks inv.ticks;
        },
        r.same,
        subst (λ l. IsQueue k'.proc (k'.queue i) l)
            (update_self view i (insert_before none q (view i)) ∙ insert_before-none q (view i))
            (r.queued.threaded.queues i),
      )
