-- ===== src/Mlfq/Tests.antt =====
-- Runs and instances at the small kernel of Mlfq/Desk.
use hyu_os.Prelude.{
  true, ◌⊎◌, ℕ, ◌≤◌, ◌<◌, ◌≡◌, refl, inl, false, none, some, List, [], ◌∷◌, arith, update,
  if◌then◌else◌, ltb, erase,
}
use hyu_os.Prelude.Int.{pos}
use hyu_os.Mlfq.State.{
  runnable, sleeping, zombie, unused, Proc, no_chan, object_chan, sleep_queue, unused_queue,
}
use hyu_os.Mlfq.Kernel.{Kernel, modify}
use hyu_os.Mlfq.Life.{exit, wait_round}
use hyu_os.Mlfq.Inv.Placing.{calm-Inv}
use hyu_os.Mlfq.Inv.Exiting.{Exits, exit_lem}
use hyu_os.Mlfq.Birth.{fork}
use hyu_os.Mlfq.Inv.Bearing.{ForksIn, fork_lem}
use hyu_os.Mlfq.Inv.Reaping.{WaitsIn, wait_round_lem}
use hyu_os.Mlfq.Boot.{pinit}
use hyu_os.Mlfq.Priority.{insert_level}
use hyu_os.Mlfq.Sched.{yield, scheduler_return, scheduler_pick, priority_boosting}
use hyu_os.Mlfq.Sleep.{sleep, wakeup1, wakeup, kill}
use hyu_os.Mlfq.Lock.{set_priority}
use hyu_os.Mlfq.Queue.Insert.{insert_before, InsertsTo, insert_lem}
use hyu_os.Mlfq.Queue.Delete.{DeletesTo, delete_lem}
use hyu_os.Mlfq.Queue.Dequeue.{DequeuesTo, dequeue-cons}
use hyu_os.Mlfq.Queue.Merge.{MergesTo, merge_queue_lem}
use hyu_os.Mlfq.Inv.Boot.{IsZeroed, pinit-Inv}
use hyu_os.Mlfq.Inv.Yield.{EndsIn, yield-Inv}
use hyu_os.Mlfq.Inv.Pick.{Choice, choose_lem, scheduler_pick-Inv}
use hyu_os.Mlfq.Inv.Asleep.{sleep-Inv}
use hyu_os.Mlfq.Inv.Wakeup.{Woke, wakeup1_lem}
use hyu_os.Mlfq.Inv.Wake.{wakeup-Inv}
use hyu_os.Mlfq.Inv.Boost.{lifted, lifted_view, Boosted, priority_boosting_lem}
use hyu_os.Mlfq.Inv.Turn.{Yielded, rested, yield_lem}
use hyu_os.Mlfq.Inv.Ranking.{RanksTo, given, set_priority_lem}
use hyu_os.Mlfq.Inv.Setting.{set_priority-Doubled}
use hyu_os.Mlfq.Inv.Sorted.{Ascending, priority_of}
use hyu_os.Mlfq.Inv.Killing.{Kills, kill_lem}
use hyu_os.Mlfq.Inv.Steps.{
  Reach, here, next, give_up, IsSound, On, placed, one_cpu, ticks_bounded, lowest_sorted,
}
use hyu_os.Mlfq.Queue.Chain.{IsQueue}
use hyu_os.Mlfq.Inv.Threaded.{Home, View, Threaded}
use hyu_os.Mlfq.Inv.Level.{Queued, Entered, level_list, insert_level_lem}
use hyu_os.Mlfq.Inv.Live.{Live, Inv, Inv-same}
use hyu_os.Mlfq.Desk.{
  desk-queues, single, proc_in, table, nobody, desk, desk_home, desk_view, desk-Inv,
}

desk-Live : Live desk desk_home desk_view
desk-Live = desk-Inv.live

desk-Queued : Queued desk desk_home desk_view
desk-Queued = desk-Inv.live.queued

desk-Threaded : Threaded table desk.queue desk_home desk_view
desk-Threaded = desk-Inv.live.queued.threaded

-- A table before `pinit`.
abbrev zeroed : Kernel
zeroed = record desk {
  proc = λ p. if ltb p 64 then proc_in unused 0 no_chan else proc_in zombie 0 no_chan;
  queue = λ i. nobody;
  cpu = λ c. none;
}

zeroed-IsZeroed : IsZeroed zeroed
zeroed-IsZeroed = record {
  inside = λ p h. ground arith;
  outside = λ p h. ground arith;
  levels = λ p. ground arith;
  idle = λ c. refl;
  ticks = omega arith;
}

-- The process of pid 2 is init.
abbrev reign : Kernel
reign = record desk { initproc = some 1 }

reign-Inv : Inv reign desk_home desk_view
reign-Inv = Inv-same desk reign desk_home desk_view refl refl refl desk-Inv.ticks desk-Inv

pinit-Inv_example : EndsIn (pinit zeroed)
pinit-Inv_example = pinit-Inv zeroed zeroed-IsZeroed

yield-Inv_example : EndsIn (yield 0 desk)
yield-Inv_example = yield-Inv desk 0 0 desk_home desk_view desk-Inv refl refl

-- CPU 1 has no process.
scheduler_pick-Inv_example : EndsIn (scheduler_pick 1 desk)
scheduler_pick-Inv_example = scheduler_pick-Inv desk 1 desk_home desk_view desk-Inv refl refl

choose_lem_example : Choice desk desk_view
choose_lem_example = choose_lem desk desk_home desk_view desk-Queued

sleep-Inv_example : EndsIn (sleep 0 (object_chan 9) false desk)
sleep-Inv_example = sleep-Inv desk 0 0 (object_chan 9) false desk_home desk_view desk-Inv refl refl

wakeup1_lem_example :
    (k' : Kernel) × (wakeup1 desk (object_chan 7) ≡ some k') × Woke desk k' (object_chan 7) (2 ∷ [])
wakeup1_lem_example = wakeup1_lem (object_chan 7) desk desk_home desk_view desk-Live

wake_sleepers : EndsIn (wakeup (object_chan 7) desk)
wake_sleepers = wakeup-Inv desk (object_chan 7) desk_home desk_view desk-Inv refl

priority_boosting_lem_example :
    (k' : Kernel) × (priority_boosting desk ≡ some k')
    × Threaded k'.proc k'.queue (λ p. lifted (desk_home p)) (lifted_view desk_view)
    × Boosted desk k' desk_home
priority_boosting_lem_example = priority_boosting_lem desk desk_home desk_view desk-Threaded

insert_lem_example : InsertsTo table (single 1) 5 (some 1) (1 ∷ []) (5 ∷ 1 ∷ [])
unfolding insert_before
insert_lem_example =
    insert_lem table (single 1) 5 (some 1) (1 ∷ []) (desk-queues 0) (omega arith) (inl refl)

delete_lem_example : DeletesTo table (single 1) 1 (1 ∷ []) []
unfolding erase
delete_lem_example = delete_lem table (single 1) 1 (1 ∷ []) (desk-queues 0) (inl refl)

dequeue-cons_example : DequeuesTo table (single 1) 1 []
dequeue-cons_example = dequeue-cons table (single 1) 1 [] (desk-queues 0)

merge_queue_lem_example : MergesTo table (single 1) (single 2) (1 ∷ 2 ∷ [])
merge_queue_lem_example =
    merge_queue_lem table (single 1) (single 2) (1 ∷ []) (2 ∷ []) (desk-queues 0) (desk-queues 3)
      (omega arith)

insert_level_lem_example :
    (k' : Kernel) × (insert_level desk 0 ≡ some k')
    × Entered desk k' desk_home desk_view 0 0
        (level_list desk desk_home desk_view desk-Queued 0 refl (omega arith) 0)
insert_level_lem_example =
    insert_level_lem desk desk_home desk_view desk-Queued 0 refl (omega arith)

yield_lem_example :
    (k' : Kernel) × (yield 0 desk ≡ scheduler_return 0 k')
    × Yielded desk k' 0 desk_view
    × ((yield 0 desk ≡ some (rested k' 0)) ⊎ (99 ≤ desk.global_ticks))
yield_lem_example = yield_lem desk 0 0 desk_home desk_view desk-Inv refl refl

-- Process 1, at the head of the first queue, with the level of a process that took the scheduler
-- lock in the lowest queue.
abbrev locked_desk : Kernel
locked_desk = record desk { proc = update table 1 (record (table 1) { queuelevel = 2 }) }

set_priority-Doubled_example :
    (k' : Kernel) × (set_priority locked_desk 1 (pos 0) ≡ some k')
    × ((home : Home) (view : View) → ¬ Threaded k'.proc k'.queue home view)
set_priority-Doubled_example = set_priority-Doubled locked_desk 1 (pos 0) refl refl refl refl

-- The kernel after process 0 has given up CPU 0.
abbrev yielded : Kernel
yielded = yield-Inv_example.0

yielded-Reach : Reach desk yielded
yielded-Reach = next here (give_up 0 0 refl refl yield-Inv_example.3)

desk-IsSound : IsSound desk
desk-IsSound = (desk_home, desk_view, desk-Inv)

placed_example :
    ((yielded.proc 0).state ≡ runnable → On yielded 0 (λ i. i ≤ 2))
    × ((yielded.proc 0).state ≡ sleeping → On yielded 0 (λ i. i ≡ sleep_queue))
    × ((yielded.proc 0).state ≡ unused → On yielded 0 (λ i. i ≡ unused_queue))
placed_example = placed desk-IsSound yielded-Reach 0

one_cpu_example : ◌≡◌ {A = ℕ} 0 0
one_cpu_example = one_cpu desk-IsSound here 0 0 0 refl refl

ticks_bounded_example : yielded.global_ticks < 100
ticks_bounded_example = ticks_bounded desk-IsSound yielded-Reach

lowest_sorted_example :
    (xs : List ℕ) × IsQueue yielded.proc (yielded.queue 2) xs
    × Ascending (priority_of yielded.proc) xs
lowest_sorted_example = lowest_sorted desk-IsSound yielded-Reach

-- The process of pid 3 sleeps.
kill_lem_example : Kills 3 desk desk_home desk_view desk-Inv refl (kill 3 desk)
kill_lem_example = kill_lem 3 desk desk_home desk_view desk-Inv refl

exit_lem_example :
    (k' : Kernel) × (home' : Home) × (view' : View) × (exit 0 reign ≡ some k')
    × Inv k' home' view'
    × Exits reign k' 0 0
exit_lem_example = exit_lem reign 0 0 desk_home desk_view reign-Inv refl refl refl

-- A zombie in slot 4 is a child of the process that runs, which holds `ptable.lock`.
abbrev bereft : Proc → Proc
bereft r = record r { parent = some 0 }

abbrev family : Kernel
family = record (modify desk 4 bereft) { locked = true }

family-Inv : Inv family desk_home desk_view
family-Inv =
    let inv =
      calm-Inv desk desk_home desk_view 4 bereft
        (record { prev = refl; next = refl; queuelevel = refl; priority = refl }) refl desk-Inv in
    Inv-same (modify desk 4 bereft) family desk_home desk_view refl refl refl inv.ticks inv

wait_round_lem_example :
    WaitsIn family 0 0 desk_home desk_view family-Inv refl refl (wait_round 0 family)
wait_round_lem_example = wait_round_lem family 0 0 desk_home desk_view family-Inv refl refl

fork_lem_example : ForksIn desk desk_view (some 5) (some 6) 0 (fork (some 5) (some 6) 0 desk)
fork_lem_example = fork_lem (some 5) (some 6) desk 0 0 desk_home desk_view desk-Inv refl refl

-- Process 1 waits on the first queue, so it is in place whatever its priority.
set_priority_lem_example :
    RanksTo desk desk_home desk_view desk-Inv 1
      (pos 0)
      (given desk desk_home desk_view desk-Inv 1 (pos 0))
      (set_priority desk 1 (pos 0))
set_priority_lem_example =
    set_priority_lem desk desk_home desk_view desk-Inv 1 (pos 0)
      (λ two run. absurd (omega (arith, two)))
