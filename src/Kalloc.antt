-- ===== src/Kalloc.antt =====
-- Project1/kalloc.c: the list of free pages.
pub mod Pages
mod Tests
use hyu_os.Prelude.{
  ℕ, zero, suc, ◌+◌, ◌-◌, ◌%◌, ◌^◌, Bool, true, false, Option, none, some, ltb, leb, update, ◌==◌,
  ◌&&◌, ◌||◌, not, if◌then◌else◌, ◌>>=◌,
}
use hyu_os.Prelude.Words.{sub32, add32, page_size, page_round_up}
use hyu_os.Mlfq.State.{Ptr}

-- `KERNBASE` and `PHYSTOP`
abbrev pub kern_base : ℕ
kern_base = 2 ^ 31

abbrev pub phys_stop : ℕ
phys_stop = 234881024

-- `kmem`, and the link at the start of every free page; the junk that `kfree` fills a page with
-- is left out. A page is its address.
pub record Kmem : Type 0 where
  pub locked : Bool
  pub use_lock : Bool
  pub freelist : Ptr
  pub next : ℕ → Ptr

-- `if(kmem.use_lock) acquire(&kmem.lock)`, once the lock is free, and the release.
unfoldable pub enter : Kmem → Option Kmem
enter k =
    if k.use_lock then (if k.locked then none else some (record k { locked = true })) else some k

unfoldable pub leave : Kmem → Option Kmem
leave k =
    if k.use_lock then (if k.locked then some (record k { locked = false }) else none) else some k

-- A page that `kfree` takes: aligned, behind the kernel image that ends at `image`, and below the
-- top of the memory.
abbrev pub is_page : ℕ → ℕ → Bool
is_page image v = (v % page_size == 0) && leb image v && ltb (sub32 v kern_base) phys_stop

-- `kfree(v)`; anything but a page is a panic.
unfoldable pub kfree : ℕ → ℕ → Kmem → Option Kmem
unfolding enter leave
kfree image v k =
    if is_page image v
    then (do
      k₁ ← enter k
      leave (record k₁ { next = update k₁.next v k₁.freelist; freelist = some v }))
    else none

-- The list behind its first page.
abbrev pub behind : Kmem → Ptr → Ptr
behind k none = none
behind k (some r) = k.next r

-- `kalloc()`
unfoldable pub kalloc : Kmem → Option (Ptr × Kmem)
unfolding enter leave
kalloc k = do
  k₁ ← enter k
  k₂ ← leave (record k₁ { freelist = behind k₁ k₁.freelist })
  some (k₁.freelist, k₂)

-- The loop of `freerange(vstart, vend)` from `p` on, with the rounds left.
unfoldable pub free_loop : ℕ → ℕ → ℕ → ℕ → Kmem → Option Kmem
free_loop zero image p vend k = none
free_loop (suc f) image p vend k = elim (leb (p + page_size) vend) [
  | true ↦ kfree image p k >>= free_loop f image (p + page_size) vend
  | false ↦ some k
]

unfoldable pub freerange : ℕ → ℕ → ℕ → Kmem → Option Kmem
unfolding free_loop
freerange image vstart vend k = free_loop (vend + 1) image (page_round_up vstart) vend k

-- `kinit1` and `kinit2`
unfoldable pub kinit1 : ℕ → ℕ → ℕ → Kmem → Option Kmem
unfolding freerange
kinit1 image vstart vend k =
    freerange image vstart vend (record k { locked = false; use_lock = false })

unfoldable pub kinit2 : ℕ → ℕ → ℕ → Kmem → Option Kmem
unfolding freerange
kinit2 image vstart vend k = do
  k₁ ← freerange image vstart vend k
  some (record k₁ { use_lock = true })
