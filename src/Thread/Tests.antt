-- ===== src/Thread/Tests.antt =====
-- A concrete process of three threads, and the theorems applied to it.
use hyu_os.Prelude.{
  ℕ, ◌≡◌, refl, ◌≢◌, inl, inr, true, false, none, some, [], ◌∷◌, arith, In, Fresh, erase, ◌==◌,
  if◌then◌else◌,
}
use hyu_os.Mlfq.State.{ProcState, sleeping, running, runnable, zombie, unused, no_chan, Trapframe}
use hyu_os.Thread.State.{empty, using, Share, Thread, Machine}
use hyu_os.Thread.Family.{kill, delete_thread}
use hyu_os.Thread.Create.{value, join_round, set_up}
use hyu_os.Thread.Proof.Members.{IsFamily}
use hyu_os.Thread.Proof.Delete.{delete_thread_lem}
use hyu_os.Thread.Proof.Kill.{IsKilled, kill_family_lem}
use hyu_os.Thread.Proof.Join.{join_round_lem}
use hyu_os.Thread.Proof.Create.{set_up_lem}
use hyu_os.Thread.State.{Threads}

abbrev frame : Trapframe
frame = record { cs = 0; ds = 0; es = 0; ss = 0; eflags = 0; esp = 0; eip = 0; eax = 0 }

abbrev thread_in : ProcState → ℕ → ℕ → Thread
thread_in st p t = record {
  kstack = none;
  state = st;
  tf = frame;
  chan = no_chan;
  killed = false;
  pgdir = none;
  pid = p;
  name = [];
  cwd = none;
  shared_info = 0;
  tid = t;
  th_next = none;
  th_main = some 0;
  retval = 0;
}

abbrev threads : Threads
threads p =
    if p == 0
    then record (thread_in running 7 1) { th_next = some 1 }
    else if p == 1
    then record (thread_in zombie 7 2) { th_next = some 2; retval = 5 }
    else if p == 2
    then thread_in sleeping 7 3
    else thread_in unused 0 0

abbrev shares : ℕ → Share
shares i = record {
  sz = 4096;
  parent = none;
  ofile = [];
  memory_limit = 0;
  stacksize = 1;
  th_family_hd = some 0;
  th_last = some 2;
  state = if i == 0 then using else empty;
}

abbrev team : Machine
team = record {
  proc = threads;
  share = shares;
  initproc = some 9;
  nextpid = 8;
  nexttid = 4;
  cpu = λ c. if c == 0 then some 0 else none;
  locked = false;
}

abbrev held_team : Machine
held_team = record team { locked = true }

team-IsFamily : IsFamily team 0 (0 ∷ 1 ∷ 2 ∷ [])
team-IsFamily = record {
  head = refl;
  tail = refl;
  links = (refl, (refl, (refl, tt)));
  distinct = omega arith;
  below = omega arith;
  members = λ j h. ground arith;
}

held_team-IsFamily : IsFamily held_team 0 (0 ∷ 1 ∷ 2 ∷ [])
held_team-IsFamily = record {
  head = refl;
  tail = refl;
  links = (refl, (refl, (refl, tt)));
  distinct = omega arith;
  below = omega arith;
  members = λ j h. ground arith;
}

kill_family_lem_example :
    (s' : Threads) × (kill 7 team ≡ some (true, record team { proc = s'; locked = false }))
    × ((j : ℕ) → In j (0 ∷ 1 ∷ 2 ∷ []) → IsKilled (threads j) (s' j))
    × ((j : ℕ) → Fresh j (0 ∷ 1 ∷ 2 ∷ []) → s' j ≡ threads j)
kill_family_lem_example =
    kill_family_lem team 7 0 0 (0 ∷ 1 ∷ 2 ∷ []) refl
      (record {
        above = omega arith;
        below = omega arith;
        passes = refl;
        first_one = λ j a b. absurd (omega arith);
      })
      team-IsFamily (inl refl)

not_alone : erase 1 (0 ∷ 1 ∷ 2 ∷ []) ≢ []
unfolding erase
not_alone e = cc

delete_thread_lem_example :
    (m' : Machine) × (delete_thread team 1 ≡ some m') × IsFamily m' 0 (erase 1 (0 ∷ 1 ∷ 2 ∷ []))
delete_thread_lem_example =
    delete_thread_lem team 0 1 (0 ∷ 1 ∷ 2 ∷ []) team-IsFamily (inr (inl refl)) not_alone

-- Thread 1 is joined, and thread 2 behind it drops off the list.
join_round_lem_example :
    (m' : Machine) × (join_round 2 0 held_team ≡ some (value 5, m'))
    × IsFamily m' 0 (0 ∷ [])
    × ((z : ℕ) → In z (2 ∷ []) → Fresh z (0 ∷ []) × (m'.proc z ≡ threads z))
join_round_lem_example =
    join_round_lem held_team 0 0 1 [] (2 ∷ []) held_team-IsFamily 2 0 0 refl refl (record {
      above = omega arith;
      below = omega arith;
      passes = refl;
      first_one = λ j a b. let z : j ≡ 0 = omega arith in rw z refl;
    })

-- A fourth thread.
set_up_lem_example :
    (tid : ℕ) × (m' : Machine) × (set_up (λ a b. b) 64 0 3 team ≡ some (some tid, m'))
    × IsFamily m' 0 (0 ∷ 1 ∷ 2 ∷ 3 ∷ [])
    × ((m'.share 0).sz ≡ 12288)
    × ((m'.proc 3).state ≡ runnable)
set_up_lem_example =
    set_up_lem (λ a b. b) 64 0 3 0 2 (0 ∷ 1 ∷ []) team refl team-IsFamily refl (omega arith)
      (omega arith) (omega arith)
