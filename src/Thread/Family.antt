-- ===== src/Thread/Family.antt =====
-- Project2/proc.c: the list of the threads of a process, from `th_family_hd` along `th_next`.
use hyu_os.Prelude.{
  ℕ, zero, suc, ◌+◌, Bool, true, false, Option, none, some, ◌==◌, if◌then◌else◌, ◌>>=◌,
}
use hyu_os.Mlfq.State.{zombie, runnable, Ptr, nproc}
use hyu_os.Mlfq.Queue.{points_to, is_null}
use hyu_os.Mlfq.Sleep.{is_sleeping}
use hyu_os.Thread.State.{
  Thread, Threads, Machine, acquire, release, change, modify, modify_share_of, share_of,
}
use hyu_os.Thread.Slots.{find_slot}

-- `for(t = hd; t != 0; t = t->th_next)` with the body `f`; the first argument is the rounds left.
unfoldable pub family_loop : ℕ → (ℕ → Thread → Thread) → Threads → Ptr → Option Threads
family_loop zero f s t = none
family_loop (suc n) f s none = some s
family_loop (suc n) f s (some t) = let s' = change s t (f t) in family_loop n f s' (s' t).th_next

-- The loop over the family of the process `p`.
unfoldable pub each_thread : (ℕ → Thread → Thread) → ℕ → Machine → Option Machine
unfolding family_loop
each_thread f p m = do
  s ← family_loop (nproc + 1) f m.proc (share_of m p).th_family_hd
  some (record m { proc = s })

-- What `kill` does to a thread.
abbrev pub killed_thread : Thread → Thread
killed_thread r = record r {
  killed = true;
  state = if is_sleeping r.state then runnable else r.state;
}

-- `kill` with what its search found.
unfoldable pub kill_case : Machine → Ptr → Option (Bool × Machine)
kill_case m none = do m₁ ← release m; some (false, m₁)
kill_case m (some p) = do
  m₁ ← each_thread (λ _. killed_thread) p (modify m p (λ r. record r { killed = true }))
  m₂ ← release m₁
  some (true, m₂)

-- `kill(pid)`: `true` for 0, `false` for -1.
unfoldable pub kill : ℕ → Machine → Option (Bool × Machine)
unfolding kill_case
kill pid m = do m₁ ← acquire m; kill_case m₁ (find_slot nproc 0 (λ p. (m₁.proc p).pid == pid))

-- The search of `delete_thread` for the thread before `target`, from `p` on with `tmp` before it.
unfoldable pub before_target : ℕ → Threads → ℕ → Ptr → Ptr → Option Ptr
before_target zero s target tmp p = none
before_target (suc n) s target tmp none = some tmp
before_target (suc n) s target tmp (some p) =
    let rest = before_target n s target (some p) (s p).th_next in
    if p == target then some tmp else rest

-- `th_tmp->th_next = next`, with the new end of the family where there is no next.
unfoldable pub unlink_behind : Machine → ℕ → Ptr → Machine
unlink_behind m t next =
    let m₁ = modify m t (λ r. record r { th_next = next }) in
    if is_null next then modify_share_of m₁ t (λ r. record r { th_last = some t }) else m₁

-- `delete_thread(target)`; a null `th_tmp` is a fault.
unfoldable pub delete_thread : Machine → ℕ → Option Machine
unfolding before_target unlink_behind
delete_thread m target =
    let hd = (share_of m target).th_family_hd in
    if points_to hd target
    then some (modify_share_of m target (λ r. record r { th_family_hd = (m.proc target).th_next }))
    else (do
      tmp ← before_target (nproc + 1) m.proc target hd hd
      t ← tmp
      some (unlink_behind m t (m.proc target).th_next))

-- `kill_threads(curproc)`: every other thread of the process becomes a zombie.
unfoldable pub kill_threads : ℕ → Machine → Option Machine
kill_threads p m = do
  m₁ ← each_thread (λ t r. if t == p then r else record r { state = zombie }) p m
  let m₂ = modify m₁ p (λ r. record r { th_main = some p; th_next = none })
  some (
      modify_share_of m₂ p
        (λ r. record r { th_last = some p; th_family_hd = some p; memory_limit = 0 }))
