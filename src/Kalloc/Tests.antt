-- ===== src/Kalloc/Tests.antt =====
-- The pages between 0x80001000 and 0x80003800, of which the first is handed out.
use hyu_os.Prelude.{ℕ, ◌≡◌, refl, true, false, none, some, List, [], ◌∷◌, arith, length, In}
use hyu_os.Kalloc.{Kmem, kinit1, kalloc}
use hyu_os.Kalloc.Pages.{IsFree, InRange, kinit1_lem, kalloc_lem}

abbrev no_pages : Kmem
no_pages = record { locked = false; use_lock = true; freelist = none; next = λ v. none }

kinit1_lem_example :
    (k' : Kmem) × (vs : List ℕ) × (kinit1 2147487000 2147487744 2147497984 no_pages ≡ some k')
    × IsFree k' vs
    × (length vs ≡ 2)
    × ((w : ℕ) → In w vs → InRange 2147487744 2147497984 w)
    × ((w : ℕ) → InRange 2147487744 2147497984 w → In w vs)
kinit1_lem_example =
    kinit1_lem 2147487000 2147487744 2147497984 no_pages refl (omega arith) (omega arith)
      (omega arith) (omega arith)

one_page :
    (k' : Kmem) × (kalloc (record no_pages { freelist = some 8192 }) ≡ some (some 8192, k'))
    × IsFree k' []
one_page =
    kalloc_lem (record no_pages { freelist = some 8192 }) (8192 ∷ [])
      (record { head = refl; linked = (refl, tt); distinct = (tt, tt); free = refl })
