-- ===== src/Pipe/Calls.antt =====
-- `pipewrite` and `piperead` on a well-formed kernel: the pipe is a queue of bytes.
use hyu_os.Prelude.{
  ℕ, ◌-◌, ◌≡◌, refl, sym, ◌∙◌, ap, subst, inl, inr, Bool, true, false, Option, some, List, [], ◌∷◌,
  ◌++◌, arith, length, Bool-cases, eq-cases, ◌&&◌, ◌||◌, not, if◌then◌else◌,
}
use hyu_os.Mlfq.State.{Chan}
use hyu_os.Mlfq.Kernel.{Kernel}
use hyu_os.Mlfq.Inv.Threaded.{Home, View}
use hyu_os.Mlfq.Inv.Live.{Inv}
use hyu_os.Mlfq.Inv.Wake.{wakeup_lem}
use hyu_os.Mlfq.Inv.Asleep.{sleep-Inv}
use hyu_os.Pipe.{
  pipe_size, Pipe, System, readers, writers, lock, unlock, wake, rest, is_empty, fill, drain, Wrote,
  wrote, broken, write_case, write_round, pipewrite, Read, got, killed, read_round, piperead,
}
use hyu_os.Pipe.Ring.{
  take, drop, count, contents, IsPipe, fill_lem, drain_lem, is_empty-count, contents-advance,
  contents-empty, take-nil, drop-nil,
}

-- The kernel is well formed, whatever its queues hold.
abbrev pub Sound : Kernel → Type 0
Sound k = (home : Home) × (view : View) × Inv k home view

-- Process `p` runs on CPU `c` of a well-formed kernel, and `ptable.lock` is free.
pub record Ready (c p : ℕ) (k : Kernel) : Type 0 where
  pub sound : Sound k
  pub on : k.cpu c ≡ some p
  pub free : k.locked ≡ false

-- How a call ends: the pipe is `q`, unlocked, and the kernel well formed.
pub record Ends {ℓ} {A : Type ℓ} (r : Option (A × System)) (a : A) (q : Pipe) : Type ℓ where
  pub kernel : Kernel
  pub sound : Sound kernel
  pub eq : r ≡ some (a, record { pipe = record q { locked = false }; kernel = kernel })

Ends-result {ℓ} :
    {A : Type ℓ} {r : Option (A × System)} {a b : A} {q : Pipe} → Ends r a q → a ≡ b → Ends r b q
Ends-result {r = r} {q = q} t e = subst (λ b. Ends r b q) e t

-- The result of `pipewrite` for `n` bytes where `left` of them do not fit, and the call cannot wait
-- if `stop`.
abbrev pub outcome : ℕ → Bool → List ℕ → Wrote
outcome n stop [] = wrote n
outcome n stop (b ∷ bs) = if stop then broken else Wrote.waits (b ∷ bs)

-- The result of `piperead` for `n` bytes from a pipe that holds `held`.
abbrev pub taken : ℕ → Bool → Bool → List ℕ → Read
taken n open_ stop [] = if open_ then (if stop then killed else Read.waits) else got []
taken n open_ stop (b ∷ bs) = got (take n (b ∷ bs))

module _ (c p : ℕ) where
  wake_lem :
      (ch : Chan) (s : System)
      → Ready c p s.kernel
      → (k : Kernel) × (wake ch s ≡ some (record s { kernel = k })) × Ready c p k
  unfolding wake
  wake_lem ch s r =
      let (home, view, inv) = r.sound in
      let (k, home', view', e, inv', cpus, free) = wakeup_lem s.kernel ch home view inv r.free in
      (
        k,
        rw e refl,
        record { sound = (home', view', inv'); on = ap (λ f. f c) cpus ∙ r.on; free = free },
      )

  unlock_lem :
      (s : System)
      → s.pipe.locked ≡ true
      → unlock s ≡ some (record s { pipe = record (s.pipe) { locked = false } })
  unfolding unlock
  unlock_lem s e = rw e refl

  rest_lem :
      (ch : Chan) (s : System)
      → s.pipe.locked ≡ true
      → Ready c p s.kernel
      → (k : Kernel) × Sound k
        × (rest c ch s ≡ some (record { pipe = record (s.pipe) { locked = false }; kernel = k }))
  unfolding rest
  rest_lem ch s e r =
      let (home, view, inv) = r.sound in
      let (k, home', view', f, inv') = sleep-Inv s.kernel c p ch false home view inv r.on r.free in
      (k, (home', view', inv'), rw (unlock_lem s e, f) refl)

  write_end :
      (n : ℕ) (s : System)
      → s.pipe.locked ≡ true
      → Ready c p s.kernel
      → Ends (write_case c p n [] s) (wrote n) s.pipe
  unfolding write_case
  write_end n s e r =
      let (k, f, r') = wake_lem readers s r in
      record {
        kernel = k;
        sound = r'.sound;
        eq = rw (f, unlock_lem (record s { kernel = k }) e) refl;
      }

  write_broken :
      (n b : ℕ) (bs : List ℕ) (s : System)
      → s.pipe.locked ≡ true
      → Ready c p s.kernel
      → (not s.pipe.readopen || (s.kernel.proc p).killed) ≡ true
      → Ends (write_case c p n (b ∷ bs) s) broken s.pipe
  unfolding write_case
  write_broken n b bs s e r d = record {
    kernel = s.kernel;
    sound = r.sound;
    eq = rw (d, unlock_lem s e) refl;
  }

  write_waits :
      (n b : ℕ) (bs : List ℕ) (s : System)
      → s.pipe.locked ≡ true
      → Ready c p s.kernel
      → (not s.pipe.readopen || (s.kernel.proc p).killed) ≡ false
      → Ends (write_case c p n (b ∷ bs) s) (Wrote.waits (b ∷ bs)) s.pipe
  unfolding write_case
  write_waits n b bs s e r d =
      let (k, f, r') = wake_lem readers s r in
      let (k', o, g) = rest_lem writers (record s { kernel = k }) e r' in
      record { kernel = k'; sound = o; eq = rw (d, f, g) refl }

  write_case_lem :
      (n : ℕ) (left : List ℕ) (s : System)
      → s.pipe.locked ≡ true
      → Ready c p s.kernel
      → Ends
          (write_case c p n left s)
          (outcome n (not s.pipe.readopen || (s.kernel.proc p).killed) left)
          s.pipe
  write_case_lem n [] s e r = write_end n s e r
  write_case_lem n (b ∷ bs) s e r =
      elim (Bool-cases (not s.pipe.readopen || (s.kernel.proc p).killed)) [
        | inl d ↦ rw d (write_broken n b bs s e r d)
        | inr d ↦ rw d (write_waits n b bs s e r d)
      ]

  module _ (s : System) (v : IsPipe s.pipe) (open_ : s.pipe.locked ≡ false)
      (r : Ready c p s.kernel) where
    abbrev held : Pipe
    held = record (s.pipe) { locked = true }

    held-IsPipe : IsPipe held
    held-IsPipe = record { reads = v.reads; writes = v.writes; fits = v.fits }

    lock_lem : lock s ≡ some (record s { pipe = held })
    unfolding lock
    lock_lem = rw open_ refl

    -- On a well-formed kernel with `ptable.lock` free, `pipewrite` by the process of CPU `c` on an
    -- unlocked pipe never faults: the pipe becomes what
    -- it held followed by as many of the bytes as fit, in their order. The call returns `n` where
    -- all fit; otherwise it returns -1 if the pipe is closed for reading or the process killed, and
    -- else sleeps with the bytes that are left.
    pub pipewrite_lem :
        (todo : List ℕ)
        → (q : Pipe) × Ends
            (pipewrite c todo s)
            (outcome
              (length todo)
              (not s.pipe.readopen || (s.kernel.proc p).killed)
              (drop (pipe_size - count s.pipe) todo))
            q
          × IsPipe q
          × (contents q ≡ contents s.pipe ++ take (pipe_size - count s.pipe) todo)
    unfolding pipewrite write_round
    pipewrite_lem todo =
        let w = fill_lem todo held held-IsPipe in
        let t =
          write_case_lem (length todo) (fill todo held).0 (record s { pipe = (fill todo held).1 })
            w.ends.locked r in
        (
          (fill todo held).1,
          Ends-result (record { kernel = t.kernel; sound = t.sound; eq = rw (lock_lem, r.on) t.eq })
              (ap
                  (λ o.
                    outcome (length todo) (not o || (s.kernel.proc p).killed) (fill todo held).0)
                  w.ends.readopen
                ∙ ap (outcome (length todo) (not s.pipe.readopen || (s.kernel.proc p).killed))
                    w.rest),
          w.valid,
          w.held,
        )

    read_some :
        (n : ℕ)
        → (is_empty s.pipe && s.pipe.writeopen) ≡ false
        → (q : Pipe) × Ends (piperead c n s) (got (take n (contents s.pipe))) q
          × IsPipe q
          × (contents q ≡ drop n (contents s.pipe))
    unfolding piperead read_round
    read_some n e =
        let w = drain_lem n held held-IsPipe in
        let q = (drain n held).1 in
        let (k, f, r') = wake_lem writers (record s { pipe = q }) r in
        (
          q,
          Ends-result
              (record {
                kernel = k;
                sound = r'.sound;
                eq =
                    rw
                      (
                        lock_lem,
                        r.on,
                        e,
                        f,
                        unlock_lem (record { pipe = q; kernel = k }) w.ends.locked,
                      )
                      refl;
              })
              (ap got w.out),
          w.valid,
          w.held,
        )

    read_none :
        (n : ℕ)
        → (is_empty s.pipe && s.pipe.writeopen) ≡ true
        → Ends (piperead c n s) (if (s.kernel.proc p).killed then killed else Read.waits) held
    unfolding piperead read_round
    read_none n e = elim (Bool-cases (s.kernel.proc p).killed) [
      | inl d ↦ record {
        kernel = s.kernel;
        sound = r.sound;
        eq = rw (lock_lem, r.on, e, d, unlock_lem (record s { pipe = held }) refl) refl;
      }
      | inr d ↦
          let (k, o, g) = rest_lem readers (record s { pipe = held }) refl r in
          record { kernel = k; sound = o; eq = rw (lock_lem, r.on, e, d, g) refl }
    ]

    abbrev Reads : ℕ → List ℕ → Type 0
    Reads n bs =
        (q : Pipe) × Ends (piperead c n s) (taken n s.pipe.writeopen (s.kernel.proc p).killed bs) q
        × IsPipe q
        × (contents q ≡ drop n bs)

    Reads-empty : (n : ℕ) → count s.pipe ≡ 0 → Reads n []
    Reads-empty n e =
        let bare = contents-empty s.pipe e in
        let test : is_empty s.pipe ≡ true = is_empty-count s.pipe v ∙ ground arith in
        elim (Bool-cases s.pipe.writeopen) [
          | inl o ↦ (
            held,
            Ends-result (read_none n (rw (test, o) refl)) (rw o refl),
            held-IsPipe,
            bare ∙ sym (drop-nil n),
          )
          | inr o ↦
              let (q, t, u, g) = read_some n (rw (test, o) refl) in
              (
                q,
                Ends-result t (ap got (ap (take n) bare ∙ take-nil n) ∙ rw o refl),
                u,
                g ∙ ap (drop n) bare,
              )
        ]

    -- On a well-formed kernel with `ptable.lock` free, `piperead` of `n` bytes by the process of
    -- CPU `c` from an unlocked pipe never faults. It takes
    -- the first `n` bytes off the pipe, or as many as there are. From an empty pipe it returns
    -- nothing if the pipe is closed for writing; otherwise it returns -1 if the process is killed,
    -- and else sleeps.
    pub piperead_lem :
        (n : ℕ)
        → (q : Pipe) × Ends
            (piperead c n s)
            (taken n s.pipe.writeopen (s.kernel.proc p).killed (contents s.pipe))
            q
          × IsPipe q
          × (contents q ≡ drop n (contents s.pipe))
    piperead_lem n = elim (eq-cases (count s.pipe) 0) [
      | inl e ↦ subst (Reads n) (sym (contents-empty s.pipe e)) (Reads-empty n e)
      | inr m ↦
          let test : is_empty s.pipe ≡ false = is_empty-count s.pipe v ∙ ground arith in
          let e = contents-advance s.pipe v m in
          let (q, t, u, g) = read_some n (rw test refl) in
          subst (Reads n) (sym e) (q, Ends-result t (ap got (ap (take n) e)), u, g ∙ ap (drop n) e)
    ]
