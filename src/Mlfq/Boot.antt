-- ===== src/Mlfq/Boot.antt =====
-- Project1/proc.c: `pinit`.
use hyu_os.Prelude.{ℕ, zero, suc, ◌+◌, Option, none, some, ◌>>=◌}
use hyu_os.Mlfq.State.{nproc, unused_queue}
use hyu_os.Mlfq.Queue.{initqueue}
use hyu_os.Mlfq.Kernel.{Kernel, enqueue}

-- The loop of `pinit` over the process table from slot `p` on, with the rounds left.
unfoldable pub pinit_loop : ℕ → ℕ → Kernel → Option Kernel
pinit_loop zero p k = some k
pinit_loop (suc r) p k = enqueue k unused_queue p none >>= λ k'. pinit_loop r (p + 1) k'

-- `pinit`: every queue empty, then every slot on the queue of unused processes.
unfoldable pub pinit : Kernel → Option Kernel
unfolding pinit_loop
pinit k =
    pinit_loop nproc 0 (record k { lockproc = none; unlockproc = none; queue = λ i. initqueue })
