-- ===== src/Mlfq/Desk.antt =====
-- A small kernel for tests of Project1/proc.c: process 0 runs on CPU 0, process 1 waits on the
-- first queue, process 2 sleeps, and the other slots hold no process.
use hyu_os.Prelude.{
  ℕ, ◌≡◌, refl, inl, inr, false, none, some, [], ◌∷◌, arith, In, eq-cases, if◌then◌else◌, ◌==◌,
}
use hyu_os.Prelude.Int.{pos}
use hyu_os.Mlfq.State.{
  ProcState, running, runnable, sleeping, zombie, unused, Proc, Procs, Chan, no_chan, object_chan,
  Queue, QueueId, Trapframe,
}
use hyu_os.Mlfq.Kernel.{Kernel}
use hyu_os.Mlfq.Queue.Chain.{IsQueue}
use hyu_os.Mlfq.Inv.Threaded.{Home, View}
use hyu_os.Mlfq.Inv.Live.{Inv}

abbrev pub regs : Trapframe
regs = record { cs = 0; ds = 0; es = 0; ss = 0; eflags = 0; esp = 0; eip = 0; eax = 0 }

abbrev pub proc_in : ProcState → ℕ → Chan → Proc
proc_in st id ch = record {
  sz = 4096;
  pgdir = none;
  kstack = none;
  state = st;
  pid = id;
  parent = none;
  tf = regs;
  chan = ch;
  killed = false;
  ofile = [];
  cwd = none;
  name = [];
  priority = pos 3;
  queuelevel = 0;
  ticks = 0;
  prev = none;
  next = none;
}

abbrev pub table : Procs
table p =
    if p == 0
    then proc_in running 1 no_chan
    else if p == 1
    then proc_in runnable 2 no_chan
    else if p == 2
    then proc_in sleeping 3 (object_chan 7)
    else if p == 3
    then proc_in unused 0 no_chan
    else proc_in zombie 0 no_chan

abbrev pub single : ℕ → Queue
single p = record { head = some p; tail = some p; count = 1 }

abbrev pub nobody : Queue
nobody = record { head = none; tail = none; count = 0 }

abbrev pub desk : Kernel
desk = record {
  proc = table;
  queue = λ i.
      if i == 0 then single 1 else if i == 3 then single 2 else if i == 4 then single 3 else nobody;
  lockproc = none;
  unlockproc = none;
  global_ticks = 10;
  nextpid = 4;
  initproc = some 0;
  cpu = λ c. if c == 0 then some 0 else none;
  locked = false;
}

abbrev pub desk_home : Home
desk_home p = if p == 1 then some 0 else if p == 2 then some 3 else if p == 3 then some 4 else none

abbrev pub desk_view : View
desk_view i = if i == 0 then 1 ∷ [] else if i == 3 then 2 ∷ [] else if i == 4 then 3 ∷ [] else []

pub desk-queues : (i : QueueId) → IsQueue table (desk.queue i) (desk_view i)
desk-queues i = elim (eq-cases i 0) [
  | inl e ↦ rw e (record {
    head = refl;
    tail = refl;
    count = refl;
    chain = (refl, refl, tt);
    distinct = (tt, tt);
  })
  | inr n ↦ elim (eq-cases i 3) [
    | inl e ↦ rw e (record {
      head = refl;
      tail = refl;
      count = refl;
      chain = (refl, refl, tt);
      distinct = (tt, tt);
    })
    | inr m ↦ elim (eq-cases i 4) [
      | inl e ↦ rw e (record {
        head = refl;
        tail = refl;
        count = refl;
        chain = (refl, refl, tt);
        distinct = (tt, tt);
      })
      | inr o ↦
          let a : (i == 0) ≡ false = ground arith in
          let b : (i == 3) ≡ false = ground arith in
          let c : (i == 4) ≡ false = ground arith in
          rw (a, b, c)
            (record { head = refl; tail = refl; count = refl; chain = tt; distinct = tt })
    ]
  ]
]

desk-home_of_In : (i : QueueId) (p : ℕ) → In p (desk_view i) → desk_home p ≡ some i
desk-home_of_In i p = elim (eq-cases i 0) [
  | inl e ↦ rw e (elim [ inl h ↦ rw h refl | inr h ↦ absurd h ])
  | inr n ↦ elim (eq-cases i 3) [
    | inl e ↦ rw e (elim [ inl h ↦ rw h refl | inr h ↦ absurd h ])
    | inr m ↦ elim (eq-cases i 4) [
      | inl e ↦ rw e (elim [ inl h ↦ rw h refl | inr h ↦ absurd h ])
      | inr o ↦
          let a : (i == 0) ≡ false = ground arith in
          let b : (i == 3) ≡ false = ground arith in
          let c : (i == 4) ≡ false = ground arith in rw (a, b, c) (λ h. absurd h)
    ]
  ]
]

desk-In_of_home : (i : QueueId) (p : ℕ) → desk_home p ≡ some i → In p (desk_view i)
desk-In_of_home i p e = elim (eq-cases p 1) [
  | inl h ↦ let z : i ≡ 0 = ground arith in rw z (inl h)
  | inr n ↦ elim (eq-cases p 2) [
    | inl h ↦ let z : i ≡ 3 = ground arith in rw z (inl h)
    | inr m ↦ elim (eq-cases p 3) [
      | inl h ↦ let z : i ≡ 4 = ground arith in rw z (inl h)
      | inr o ↦ absurd (ground arith)
    ]
  ]
]

pub desk-Inv : Inv desk desk_home desk_view
desk-Inv = record {
  live = record {
    queued = record {
      threaded = record {
        queues = desk-queues;
        home_of_In = desk-home_of_In;
        In_of_home = desk-In_of_home;
        in_table = λ i p e. ground arith;
      };
      levels = λ p. ground arith;
      sorted = tt;
    };
    states = λ p. ground arith;
  };
  on_cpu = λ c p e. ground arith;
  slots = λ c p e. ground arith;
  one_cpu = λ c d p e f. ground arith;
  ticks = omega arith;
}
