-- ===== src/Thread/Slots.antt =====
-- Project2/proc.c: the loops over the process table.
use hyu_os.Prelude.{ℕ, zero, suc, ◌+◌, Bool, Option, none, some, ◌&&◌, if◌then◌else◌, ◌>>=◌}
use hyu_os.Mlfq.State.{runnable, Ptr, Chan, nproc}
use hyu_os.Mlfq.Sleep.{chan_eq, is_sleeping}
use hyu_os.Thread.State.{Thread, Threads, Machine, acquire, release, change}

-- The first slot from `i` on that passes the test, null where there is none; the first argument is
-- the rounds left.
unfoldable pub find_slot : ℕ → ℕ → (ℕ → Bool) → Ptr
find_slot zero i test = none
find_slot (suc f) i test = let rest = find_slot f (i + 1) test in if test i then some i else rest

abbrev pub awake : Thread → Thread
awake r = record r { state = runnable }

-- The body of `wakeup1`.
abbrev pub wake_one : Chan → Thread → Thread
wake_one ch r = if is_sleeping r.state && chan_eq r.chan ch then awake r else r

unfoldable pub wake_loop : ℕ → ℕ → Threads → Chan → Threads
wake_loop zero i s ch = s
wake_loop (suc f) i s ch = wake_loop f (i + 1) (change s i (wake_one ch)) ch

-- `wakeup1(chan)`
unfoldable pub wakeup1 : Machine → Chan → Machine
unfolding wake_loop
wakeup1 m ch = record m { proc = wake_loop nproc 0 m.proc ch }

-- `wakeup(chan)`
unfoldable pub wakeup : Chan → Machine → Option Machine
unfolding wakeup1
wakeup ch m = do m₁ ← acquire m; release (wakeup1 m₁ ch)
