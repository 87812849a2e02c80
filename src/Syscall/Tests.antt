-- ===== src/Syscall/Tests.antt =====
-- A process of the small kernel that asks for memory, and one whose argument does not fit.
use hyu_os.Prelude.{◌≡◌, none, some, arith, ◌==◌, if◌then◌else◌}
use hyu_os.Memory.{Bytes}
use hyu_os.Mlfq.State.{running, no_chan}
use hyu_os.Mlfq.Desk.{proc_in}
use hyu_os.Syscall.{argptr, fetchstr}
use hyu_os.Syscall.Args.{argptr_lem, fetchstr_lem, Fetched}

-- The word at 4 is 4000; all else is 0.
abbrev stack : Bytes
stack a = if a == 4 then 160 else if a == 5 then 15 else 0

-- 96 bytes from 4000 on end with the process, 97 do not.
argptr_lem_example : argptr 0 96 (proc_in running 1 no_chan) stack ≡ some 4000
argptr_lem_example = argptr_lem 0 96 (proc_in running 1 no_chan) stack (omega arith)

argptr_over : argptr 0 97 (proc_in running 1 no_chan) stack ≡ none
argptr_over = argptr_lem 0 97 (proc_in running 1 no_chan) stack (omega arith)

fetch_stack : Fetched 4096 4 stack (fetchstr 4 (proc_in running 1 no_chan) stack)
fetch_stack = fetchstr_lem 4 (proc_in running 1 no_chan) stack
