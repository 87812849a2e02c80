-- ===== src/Log.antt =====
-- Project1/log.c: the write-ahead log of the file system.
pub mod Copy
pub mod Recover
mod Crash
pub mod Absorb
mod Tests
use hyu_os.Prelude.{
  ℕ, zero, suc, ◌+◌, ◌-◌, ◌*◌, Bool, true, false, Option, none, some, ltb, leb, update, ◌==◌, ◌&&◌,
  ◌||◌, not, if◌then◌else◌, ◌>>=◌,
}
use hyu_os.Prelude.Words.{add32, sub32, is_negative}

-- `LOGSIZE` and `MAXOPBLOCKS`
abbrev pub max_op_blocks : ℕ
max_op_blocks = 10

abbrev pub log_size : ℕ
log_size = max_op_blocks * 3

-- The words of a block.
abbrev pub Block : Type 0
Block = ℕ → ℕ

-- `struct logheader`
pub record Header : Type 0 where
  pub n : ℕ
  pub block : ℕ → ℕ

-- `struct log`, less its device; `outstanding` is the bit pattern of an `int`.
pub record Log : Type 0 where
  pub locked : Bool
  pub start : ℕ
  pub size : ℕ
  pub outstanding : ℕ
  pub committing : Bool
  pub lh : Header

-- The disk and the buffer cache: `cache b` is what `bread` gives for block `b`, `dirty` the flag
-- `B_DIRTY`. `power` is the number of writes that the disk still takes before the machine stops;
-- it is no part of the code.
pub record Store : Type 0 where
  pub disk : ℕ → Block
  pub cache : ℕ → Block
  pub dirty : ℕ → Bool
  pub power : ℕ

pub record Journal : Type 0 where
  pub log : Log
  pub store : Store

-- A change to the buffer of block `b`.
abbrev pub put_block : ℕ → Block → Store → Store
put_block b v s = record s { cache = update s.cache b v }

-- `bwrite(b)`
unfoldable pub bwrite : ℕ → Store → Store
bwrite b s = elim s.power [
  | zero ↦ s
  | suc p ↦ record s {
    disk = update s.disk b (s.cache b);
    dirty = update s.dirty b false;
    power = p;
  }
]

-- `memmove(dst->data, src->data, BSIZE); bwrite(dst)`
unfoldable pub copy_block : ℕ → ℕ → Store → Store
unfolding bwrite
copy_block src dst s = bwrite dst (put_block dst (s.cache src) s)

-- The loop over `tail` of `install_trans` and `write_log`; the third argument is the rounds left.
unfoldable pub copy_blocks : (ℕ → ℕ) → (ℕ → ℕ) → ℕ → ℕ → Store → Store
copy_blocks src dst zero tail s = s
copy_blocks src dst (suc f) tail s =
    copy_blocks src dst f (tail + 1) (copy_block (src tail) (dst tail) s)

-- `log.start+tail+1`
abbrev pub slot : Log → ℕ → ℕ
slot l tail = l.start + tail + 1

unfoldable pub install_trans : Journal → Journal
unfolding copy_blocks
install_trans j = record j { store = copy_blocks (slot j.log) j.log.lh.block j.log.lh.n 0 j.store }

unfoldable pub write_log : Journal → Journal
unfolding copy_blocks
write_log j = record j { store = copy_blocks j.log.lh.block (slot j.log) j.log.lh.n 0 j.store }

-- The loops of `read_head` and `write_head`: word 0 of the header block is `n`.
unfoldable pub copy_in : ℕ → ℕ → Block → (ℕ → ℕ) → ℕ → ℕ
copy_in zero i hb block = block
copy_in (suc f) i hb block = copy_in f (i + 1) hb (update block i (hb (i + 1)))

unfoldable pub copy_out : ℕ → ℕ → (ℕ → ℕ) → Block → Block
copy_out zero i block hb = hb
copy_out (suc f) i block hb = copy_out f (i + 1) block (update hb (i + 1) (block i))

-- `read_head`: a header on the disk has at most `LOGSIZE` entries.
unfoldable pub read_head : Journal → Journal
unfolding copy_in
read_head j =
    let hb = j.store.cache j.log.start in
    let lh : Header = record { n = hb 0; block = copy_in (hb 0) 0 hb j.log.lh.block } in
    record j { log = record (j.log) { lh = lh } }

unfoldable pub write_head : Journal → Journal
unfolding copy_out bwrite
write_head j =
    let lh = j.log.lh in
    let hb = copy_out lh.n 0 lh.block (update (j.store.cache j.log.start) 0 lh.n) in
    record j { store = bwrite j.log.start (put_block j.log.start hb j.store) }

-- `log.lh.n = 0`
abbrev pub clear : Journal → Journal
clear j = record j { log = record (j.log) { lh = record (j.log.lh) { n = 0 } } }

unfoldable pub recover_from_log : Journal → Journal
unfolding read_head install_trans write_head
recover_from_log j = write_head (clear (install_trans (read_head j)))

-- `initlog`, with `logstart` and `nlog` of the superblock.
unfoldable pub initlog : ℕ → ℕ → Journal → Journal
unfolding recover_from_log
initlog logstart nlog j =
    recover_from_log
      (record j { log = record (j.log) { locked = false; start = logstart; size = nlog } })

unfoldable pub commit : Journal → Journal
unfolding write_log write_head install_trans
commit j =
    if ltb 0 j.log.lh.n then write_head (clear (install_trans (write_head (write_log j)))) else j

-- `acquire(&log.lock)` once it is free, and `release(&log.lock)`.
unfoldable pub lock : Log → Option Log
lock l = if l.locked then none else some (record l { locked = true })

unfoldable pub unlock : Log → Option Log
unlock l = if l.locked then some (record l { locked = false }) else none

-- `log.lh.n + (log.outstanding+1)*MAXOPBLOCKS > LOGSIZE`, a comparison of wrapping `int`s.
unfoldable pub exhausts : Log → Bool
exhausts l =
    let need = add32 l.lh.n (add32 l.outstanding 1 * max_op_blocks) in
    not (is_negative need) && ltb log_size need

-- A round of `begin_op` under the lock: `true` where the operation has begun, `false` where the
-- process sleeps on the log.
unfoldable pub begin_round : Log → Option (Bool × Log)
unfolding exhausts
begin_round l =
    if l.committing
    then (do l₁ ← unlock l; some (false, l₁))
    else if exhausts l
    then (do l₁ ← unlock l; some (false, l₁))
    else (do l₁ ← unlock (record l { outstanding = add32 l.outstanding 1 }); some (true, l₁))

unfoldable pub begin_op : Log → Option (Bool × Log)
unfolding begin_round
begin_op l = do l₁ ← lock l; begin_round l₁

-- `end_op` up to its commit: `true` where it commits, `false` where it wakes up the waiting.
unfoldable pub end_first : Log → Option (Bool × Log)
end_first l = do
  l₁ ← lock l
  let l₂ = record l₁ { outstanding = sub32 l₁.outstanding 1 }
  if l₂.committing
      then none
      else if l₂.outstanding == 0
      then (do l₃ ← unlock (record l₂ { committing = true }); some (true, l₃))
      else (do l₃ ← unlock l₂; some (false, l₃))

-- The end of `end_op` after its commit; it wakes up the waiting.
unfoldable pub end_second : Log → Option Log
end_second l = do l₁ ← lock l; unlock (record l₁ { committing = false })

unfoldable pub end_op : Journal → Option Journal
unfolding end_first commit end_second
end_op j = do
  (last, l) ← end_first j.log
  if last
      then (do
        let j₁ = commit (record j { log = l })
        l₁ ← end_second j₁.log
        some (record j₁ { log = l₁ }))
      else some (record j { log = l })

-- The loop of `log_write`: the index of `b`, or `n`.
unfoldable pub find_block : ℕ → ℕ → (ℕ → ℕ) → ℕ → ℕ
find_block zero i block b = i
find_block (suc f) i block b =
    let rest = find_block f (i + 1) block b in if block i == b then i else rest

-- `log_write(b)` after its checks.
unfoldable pub absorb : ℕ → Journal → Option Journal
unfolding find_block
absorb b j = do
  l ← lock j.log
  let lh = l.lh
  let i = find_block lh.n 0 lh.block b
  let lh' : Header = record {
    n = if i == lh.n then lh.n + 1 else lh.n;
    block = update lh.block i b;
  }
  l₁ ← unlock (record l { lh = lh' })
  some (record j { log = l₁; store = record (j.store) { dirty = update j.store.dirty b true } })

-- `log_write(b)`: a log that is full and a write outside of an operation are panics.
unfoldable pub log_write : ℕ → Journal → Option Journal
unfolding absorb
log_write b j =
    if leb log_size j.log.lh.n || leb (j.log.size - 1) j.log.lh.n
    then none
    else if (j.log.outstanding == 0) || is_negative j.log.outstanding
    then none
    else absorb b j
