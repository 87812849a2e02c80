-- ===== src/Pipe.antt =====
-- Project1/pipe.c: the ring of bytes between a writer and a reader.
pub mod Ring
mod Calls
mod Tests
use hyu_os.Prelude.{
  ℕ, zero, suc, ◌+◌, ◌%◌, Bool, true, false, Option, none, some, List, [], ◌∷◌, length, update,
  ◌==◌, ◌&&◌, ◌||◌, not, if◌then◌else◌, ◌>>=◌,
}
use hyu_os.Prelude.Words.{add32}
use hyu_os.Mlfq.State.{Chan, object_chan}
use hyu_os.Mlfq.Kernel.{Kernel}
use hyu_os.Mlfq.Sleep.{wakeup, sleep, resume_sleep}

abbrev pub pipe_size : ℕ
pipe_size = 512

-- `struct pipe`; `locked` is its lock.
pub record Pipe : Type 0 where
  pub locked : Bool
  pub bytes : ℕ → ℕ
  pub nread : ℕ
  pub nwrite : ℕ
  pub readopen : Bool
  pub writeopen : Bool

-- A pipe and the kernel whose processes use it. `&p->nread` and `&p->nwrite` are two objects.
pub record System : Type 0 where
  pub pipe : Pipe
  pub kernel : Kernel

abbrev pub readers : Chan
readers = object_chan 0

abbrev pub writers : Chan
writers = object_chan 1

-- `acquire(&p->lock)` once it is free, and `release(&p->lock)`.
unfoldable pub lock : System → Option System
lock s =
    if s.pipe.locked then none else some (record s { pipe = record (s.pipe) { locked = true } })

unfoldable pub unlock : System → Option System
unlock s =
    if s.pipe.locked then some (record s { pipe = record (s.pipe) { locked = false } }) else none

-- The calls of `wakeup`, and of `sleep` with the lock of the pipe on CPU `c` up to the switch.
unfoldable pub wake : Chan → System → Option System
wake ch s = do k ← wakeup ch s.kernel; some (record s { kernel = k })

unfoldable pub rest : ℕ → Chan → System → Option System
rest c ch s = do s₁ ← unlock s; k ← sleep c ch false s₁.kernel; some (record s₁ { kernel = k })

-- The end of that `sleep`, when the process runs again.
unfoldable pub rested : ℕ → System → Option System
rested c s = do k ← resume_sleep c false s.kernel; lock (record s { kernel = k })

-- The pipe of a successful `pipealloc`, on what the page held.
abbrev pub created : Pipe → Pipe
created p = record p { locked = false; readopen = true; writeopen = true; nwrite = 0; nread = 0 }

-- `p->nwrite == p->nread + PIPESIZE`
abbrev pub is_full : Pipe → Bool
is_full p = p.nwrite == add32 p.nread pipe_size

abbrev pub is_empty : Pipe → Bool
is_empty p = p.nread == p.nwrite

-- `p->data[p->nwrite++ % PIPESIZE] = b`
abbrev pub put : Pipe → ℕ → Pipe
put p b = record p { bytes = update p.bytes (p.nwrite % pipe_size) b; nwrite = add32 p.nwrite 1 }

-- The loop of `pipewrite` until the pipe is full: the bytes that are left.
unfoldable pub fill : List ℕ → Pipe → List ℕ × Pipe
fill [] p = ([], p)
fill (b ∷ bs) p = let more = fill bs (put p b) in if is_full p then (b ∷ bs, p) else more

-- How a round of `pipewrite` ends: with the result `n`, with -1, or asleep with bytes left.
pub data Wrote : Type 0 where
  wrote : ℕ → Wrote
  broken : Wrote
  waits : List ℕ → Wrote

-- What follows the loop that stopped with `left`.
unfoldable pub write_case : ℕ → ℕ → ℕ → List ℕ → System → Option (Wrote × System)
write_case c p n [] s = do s₁ ← wake readers s; s₂ ← unlock s₁; some (wrote n, s₂)
write_case c p n (b ∷ bs) s =
    if not s.pipe.readopen || (s.kernel.proc p).killed
    then (do s₁ ← unlock s; some (broken, s₁))
    else (do s₁ ← wake readers s; s₂ ← rest c writers s₁; some (waits (b ∷ bs), s₂))

-- `pipewrite` with the lock held and `todo` left of `n` bytes, up to its end or its next sleep.
unfoldable pub write_round : ℕ → ℕ → List ℕ → System → Option (Wrote × System)
unfolding fill write_case
write_round c n todo s = do
  p ← s.kernel.cpu c
  let (left, q) = fill todo s.pipe
  write_case c p n left (record s { pipe = q })

-- `pipewrite(p, addr, n)` on CPU `c`, `todo` being the `n` bytes at `addr`.
unfoldable pub pipewrite : ℕ → List ℕ → System → Option (Wrote × System)
unfolding write_round
pipewrite c todo s = do s₁ ← lock s; write_round c (length todo) todo s₁

-- The copy loop of `piperead` for at most `n` bytes.
unfoldable pub drain : ℕ → Pipe → List ℕ × Pipe
drain zero p = ([], p)
drain (suc n) p =
    let (bs, q) = drain n (record p { nread = add32 p.nread 1 }) in
    if is_empty p then ([], p) else (p.bytes (p.nread % pipe_size) ∷ bs, q)

-- How a round of `piperead` ends: with the bytes at `addr`, with -1, or asleep.
pub data Read : Type 0 where
  got : List ℕ → Read
  killed : Read
  waits : Read

-- `piperead` with the lock held, up to its end or its next sleep.
unfoldable pub read_round : ℕ → ℕ → System → Option (Read × System)
unfolding drain
read_round c n s = do
  p ← s.kernel.cpu c
  if is_empty s.pipe && s.pipe.writeopen
      then if (s.kernel.proc p).killed
        then (do s₁ ← unlock s; some (killed, s₁))
        else (do s₁ ← rest c readers s; some (waits, s₁))
      else (do
        let (bs, q) = drain n s.pipe
        s₁ ← wake writers (record s { pipe = q })
        s₂ ← unlock s₁
        some (got bs, s₂))

-- `piperead(p, addr, n)` on CPU `c`.
unfoldable pub piperead : ℕ → ℕ → System → Option (Read × System)
unfolding read_round
piperead c n s = do s₁ ← lock s; read_round c n s₁

-- `pipeclose(p, writable)`; `true` says that the page of the pipe is freed.
unfoldable pub pipeclose : Bool → System → Option (Bool × System)
pipeclose writable s = do
  s₁ ← lock s
  s₂ ←
      (if writable
        then wake readers (record s₁ { pipe = record (s₁.pipe) { writeopen = false } })
        else wake writers (record s₁ { pipe = record (s₁.pipe) { readopen = false } }))
  s₃ ← unlock s₂
  some (not s₂.pipe.readopen && not s₂.pipe.writeopen, s₃)
