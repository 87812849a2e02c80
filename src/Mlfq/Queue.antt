-- ===== src/Mlfq/Queue.antt =====
-- Project1/proc.c: the doubly linked queues that every process is threaded on.
pub mod Chain
pub mod Delete
pub mod Dequeue
pub mod Insert
pub mod Merge
use hyu_os.Prelude.{ℕ, ◌+◌, ◌-◌, Bool, true, false, Option, none, some, if◌then◌else◌, ◌==◌}
use hyu_os.Mlfq.State.{Procs, Ptr, Queue, set_prev, set_next}

-- `initqueue`
unfoldable pub initqueue : Queue
initqueue = record { head = none; tail = none; count = 0 }

abbrev pub is_null : Ptr → Bool
is_null none = true
is_null (some _) = false

-- Comparison of a pointer with the address of a slot.
abbrev pub points_to : Ptr → ℕ → Bool
points_to none p = false
points_to (some x) p = x == p

abbrev pub queue_is_empty : Queue → Bool
queue_is_empty q = is_null q.head

-- The branches of `insert`: into an empty queue,
unfoldable pub insert_only : Procs → Queue → ℕ → Queue × Procs
insert_only s q new = (
  record { head = some new; tail = some new; count = q.count + 1 },
  set_next (set_prev s new none) new none,
)

-- at the end, behind `t`,
unfoldable pub insert_last : Procs → Queue → ℕ → ℕ → Queue × Procs
insert_last s q new t =
    let s₁ = set_next s t (some new) in
    let s₂ = set_prev s₁ new (some t) in
    (record q { tail = some new; count = q.count + 1 }, set_next s₂ new none)

-- in front of `b`, the first,
unfoldable pub insert_first : Procs → Queue → ℕ → ℕ → Queue × Procs
insert_first s q new b =
    let s₁ = set_next s new q.head in
    let s₂ = set_prev s₁ b (some new) in
    (record q { head = some new; count = q.count + 1 }, set_prev s₂ new none)

-- and between `a` and `b`.
unfoldable pub insert_between : Procs → Queue → ℕ → ℕ → ℕ → Queue × Procs
insert_between s q new a b =
    let s₁ = set_next s new (some b) in
    let s₂ = set_next s₁ a (some new) in
    let s₃ = set_prev s₂ new (some a) in
    (record q { count = q.count + 1 }, set_prev s₃ b (some new))

-- The choice among them; a null tail would be a fault.
unfoldable pub insert_at : Procs → Queue → ℕ → Ptr → Option (Queue × Procs)
insert_at s q new none = elim q.tail [ none ↦ none | some t ↦ some (insert_last s q new t) ]
insert_at s q new (some b) = elim (s b).prev [
  | none ↦ some (insert_first s q new b)
  | some a ↦ some (insert_between s q new a b)
]

-- `insert(q, new, base)`: in front of `base`, at the end where `base` is null.
unfoldable pub insert : Procs → Queue → ℕ → Ptr → Option (Queue × Procs)
unfolding insert_at
insert s q new base =
    if queue_is_empty q then some (insert_only s q new) else insert_at s q new base

-- `if(p != 0) p->prev = v` and `if(p != 0) p->next = v`
abbrev link_prev : Procs → Ptr → Ptr → Procs
link_prev s none v = s
link_prev s (some p) v = set_prev s p v

abbrev link_next : Procs → Ptr → Ptr → Procs
link_next s none v = s
link_next s (some p) v = set_next s p v

-- The writes of `delete` to the process table,
unfoldable pub bridge : Procs → ℕ → Procs
bridge s p = let s₁ = link_prev s (s p).next (s p).prev in link_next s₁ (s₁ p).prev (s₁ p).next

unfoldable pub unlink : Procs → ℕ → Procs
unfolding bridge
unlink s p = set_next (set_prev (bridge s p) p none) p none

-- and to the header of the queue.
unfoldable pub drop_ends : Procs → Queue → ℕ → Queue
unfolding bridge
drop_ends s q p = record {
  head = if points_to q.head p then (s p).next else q.head;
  tail = if points_to q.tail p then (bridge s p p).prev else q.tail;
  count = q.count - 1;
}

-- `delete(q, p)`; on an empty queue it does nothing. The count of any other queue is positive.
unfoldable pub delete : Procs → Queue → ℕ → Queue × Procs
delete s q p = if queue_is_empty q then (q, s) else (drop_ends s q p, unlink s p)

abbrev pub dequeue_head : Procs → Queue → ℕ → Ptr → Queue × Procs
dequeue_head s q p none =
    (record { head = none; tail = none; count = q.count - 1 }, set_prev (set_next s p none) p none)
dequeue_head s q p (some n) = (
  record q { head = some n; count = q.count - 1 },
  set_prev (set_next (set_prev s n none) p none) p none,
)

-- `dequeue(q)`: the process taken, null where the queue is empty.
unfoldable pub dequeue : Procs → Queue → Ptr × Queue × Procs
dequeue s q = elim q.head [
  | none ↦ (none, q, s)
  | some p ↦ let (q', s') = dequeue_head s q p (s p).next in (some p, q', s')
]

-- The links of `merge_queue` where both queues hold something: the last slot of the first and the
-- first of the second meet.
unfoldable pub join : Procs → ℕ → ℕ → Procs
join s t h = set_prev (set_next s t (some h)) h (some t)

-- `merge_queue(q1, q2)`: both queues as it leaves them; a null tail of a nonempty queue would be a
-- fault.
unfoldable pub merge_queue : Procs → Queue → Queue → Option (Queue × Queue × Procs)
unfolding initqueue
merge_queue s q₁ q₂ = elim q₂.head [
  | none ↦ some (q₁, q₂, s)
  | some h ↦
      if queue_is_empty q₁
      then some
          (record { head = q₂.head; tail = q₂.tail; count = q₁.count + q₂.count }, initqueue, s)
      else elim q₁.tail [
        | none ↦ none
        | some t ↦
            some (record q₁ { tail = q₂.tail; count = q₁.count + q₂.count }, initqueue, join s t h)
      ]
]
