-- ===== src/Pipe/Ring.antt =====
-- The ring of a pipe holds a queue of bytes.
use hyu_os.Prelude.{
  ℕ, zero, suc, ◌+◌, ◌-◌, ◌%◌, ◌≤◌, ◌<◌, ◌≡◌, refl, sym, ◌∙◌, ap, ◌≢◌, inl, inr, true, false, List,
  [], ◌∷◌, ◌++◌, append_assoc, append-nil, arith, length, update, update_self, update_ne, eq-cases,
  ◌==◌,
}
use hyu_os.Prelude.Words.{word, add32, sub32}
use hyu_os.Pipe.{pipe_size, Pipe, is_full, is_empty, put, fill, drain}

abbrev pub take : ℕ → List ℕ → List ℕ
take zero xs = []
take (suc n) [] = []
take (suc n) (x ∷ xs) = x ∷ take n xs

abbrev pub drop : ℕ → List ℕ → List ℕ
drop zero xs = xs
drop (suc n) [] = []
drop (suc n) (x ∷ xs) = drop n xs

-- The `n` bytes from the counter `r` on.
unfoldable pub window : (ℕ → ℕ) → ℕ → ℕ → List ℕ
window f r zero = []
window f r (suc n) = f (r % pipe_size) ∷ window f (add32 r 1) n

-- The number of bytes in the pipe.
abbrev pub count : Pipe → ℕ
count p = sub32 p.nwrite p.nread

-- The bytes in the pipe, in the order in which they were written.
abbrev pub contents : Pipe → List ℕ
contents p = window p.bytes p.nread (count p)

-- The counters are words, and at most the size of the ring apart.
pub record IsPipe (p : Pipe) : Type 0 where
  pub reads : p.nread < word
  pub writes : p.nwrite < word
  pub fits : count p ≤ pipe_size

-- A byte written behind the window.
window-update :
    (f : ℕ → ℕ) (r n i b : ℕ)
    → r < word
    → i ≡ (r + n) % pipe_size
    → n < pipe_size
    → window (update f i b) r (suc n) ≡ window f r n ++ (b ∷ [])
unfolding window
window-update f r zero i b h e l =
    let here : i ≡ r % pipe_size = omega arith in rw (sym here, update_self f i b) refl
window-update f r (suc n) i b h e l =
    let apart : i ≢ r % pipe_size = omega arith in
    rw (update_ne f b apart) (
      ap (λ l. f (r % pipe_size) ∷ l)
        (window-update f (add32 r 1) n i b (omega arith) (omega arith) (omega arith)))

window_of_ne_zero :
    (f : ℕ → ℕ) (r n : ℕ) → n ≢ 0 → window f r n ≡ f (r % pipe_size) ∷ window f (add32 r 1) (n - 1)
unfolding window
window_of_ne_zero f r zero h = absurd (h refl)
window_of_ne_zero f r (suc n) h = ap (λ k. f (r % pipe_size) ∷ window f (add32 r 1) k) (omega arith)

length-window : (f : ℕ → ℕ) (r n : ℕ) → length (window f r n) ≡ n
unfolding window
length-window f r zero = refl
length-window f r (suc n) = ap suc (length-window f (add32 r 1) n)

pub length-contents : (p : Pipe) → length (contents p) ≡ count p
length-contents p = length-window p.bytes p.nread (count p)

abbrev pub advance : Pipe → Pipe
advance p = record p { nread = add32 p.nread 1 }

module _ (p : Pipe) (v : IsPipe p) where
  is_full-count : is_full p ≡ (count p == pipe_size)
  is_full-count = ground (arith, v.reads, v.writes, v.fits)

  pub is_empty-count : is_empty p ≡ (count p == 0)
  is_empty-count = ground (arith, v.reads, v.writes, v.fits)

  module _ (b : ℕ) (room : count p < pipe_size) where
    count-put : count (put p b) ≡ suc (count p)
    count-put = omega (arith, v.reads, v.writes, v.fits)

    put-IsPipe : IsPipe (put p b)
    put-IsPipe = record { reads = v.reads; writes = omega arith; fits = omega (arith, count-put) }

    contents-put : contents (put p b) ≡ contents p ++ (b ∷ [])
    contents-put = rw count-put (
        window-update p.bytes p.nread (count p) (p.nwrite % pipe_size) b v.reads
          (omega (arith, v.reads, v.writes, v.fits)) room)

  module _ (more : count p ≢ 0) where
    count-advance : count (advance p) ≡ count p - 1
    count-advance = omega (arith, v.reads, v.writes, v.fits)

    advance-IsPipe : IsPipe (advance p)
    advance-IsPipe = record {
      reads = omega arith;
      writes = v.writes;
      fits = omega (arith, count-advance, v.fits);
    }

    pub contents-advance : contents p ≡ p.bytes (p.nread % pipe_size) ∷ contents (advance p)
    contents-advance =
        window_of_ne_zero p.bytes p.nread (count p) more
        ∙ ap (λ k. p.bytes (p.nread % pipe_size) ∷ window p.bytes (add32 p.nread 1) k)
            (sym count-advance)

pub contents-empty : (p : Pipe) → count p ≡ 0 → contents p ≡ []
unfolding window
contents-empty p e = rw e refl

-- What a loop leaves alone.
pub record SameEnds (p q : Pipe) : Type 0 where
  pub locked : q.locked ≡ p.locked
  pub readopen : q.readopen ≡ p.readopen
  pub writeopen : q.writeopen ≡ p.writeopen

-- The loop of `pipewrite` appends as many bytes as fit.
pub record Filled (todo : List ℕ) (p : Pipe) (left : List ℕ) (q : Pipe) : Type 0 where
  pub valid : IsPipe q
  pub ends : SameEnds p q
  pub rest : left ≡ drop (pipe_size - count p) todo
  pub held : contents q ≡ contents p ++ take (pipe_size - count p) todo

-- The loop of `piperead` removes as many bytes from the front as there are, at most `n`.
pub record Drained (n : ℕ) (p : Pipe) (bs : List ℕ) (q : Pipe) : Type 0 where
  pub valid : IsPipe q
  pub ends : SameEnds p q
  pub out : bs ≡ take n (contents p)
  pub held : contents q ≡ drop n (contents p)

ends_self : (p : Pipe) → SameEnds p p
ends_self p = record { locked = refl; readopen = refl; writeopen = refl }

pub take-nil : (n : ℕ) → take n [] ≡ []
take-nil zero = refl
take-nil (suc n) = refl

pub drop-nil : (n : ℕ) → drop n [] ≡ []
drop-nil zero = refl
drop-nil (suc n) = refl

Filled-none : (todo : List ℕ) (p : Pipe) → IsPipe p → (count p ≡ pipe_size) → Filled todo p todo p
Filled-none todo p v e = record {
  valid = v;
  ends = ends_self p;
  rest = rw e refl;
  held = sym (append-nil (contents p)) ∙ ap (λ k. contents p ++ take (pipe_size - k) todo) (sym e);
}

Filled-put :
    (b : ℕ) (bs : List ℕ) (p : Pipe) (left : List ℕ) (q : Pipe)
    → IsPipe p
    → count p < pipe_size
    → Filled bs (put p b) left q
    → Filled (b ∷ bs) p left q
Filled-put b bs p left q v room w =
    let n = pipe_size - count (put p b) in
    let e : pipe_size - count p ≡ suc n = omega (arith, count-put p v b room) in
    record {
      valid = w.valid;
      ends = record {
        locked = w.ends.locked;
        readopen = w.ends.readopen;
        writeopen = w.ends.writeopen;
      };
      rest = rw e w.rest;
      held = rw e (
          w.held
          ∙ ap (λ l. l ++ take n bs) (contents-put p v b room)
          ∙ append_assoc (contents p) (b ∷ []) (take n bs));
    }

pub fill_lem : (todo : List ℕ) (p : Pipe) → IsPipe p → Filled todo p (fill todo p).0 (fill todo p).1
unfolding fill
fill_lem [] p v = record {
  valid = v;
  ends = ends_self p;
  rest = sym (drop-nil (pipe_size - count p));
  held = rw take-nil (sym (append-nil (contents p)));
}
fill_lem (b ∷ bs) p v = elim (eq-cases (count p) pipe_size) [
  | inl e ↦
      let full : is_full p ≡ true = is_full-count p v ∙ ground arith in
      rw full (Filled-none (b ∷ bs) p v e)
  | inr n ↦
      let room : is_full p ≡ false = is_full-count p v ∙ ground arith in
      let low : count p < pipe_size = omega (arith, v.fits) in
      rw room (
        Filled-put b bs p (fill bs (put p b)).0 (fill bs (put p b)).1 v low
          (fill_lem bs (put p b) (put-IsPipe p v b low)))
]

pub drain_lem : (n : ℕ) (p : Pipe) → IsPipe p → Drained n p (drain n p).0 (drain n p).1
unfolding drain
drain_lem zero p v = record { valid = v; ends = ends_self p; out = refl; held = refl }
drain_lem (suc n) p v = elim (eq-cases (count p) 0) [
  | inl e ↦
      let none_left : is_empty p ≡ true = is_empty-count p v ∙ ground arith in
      let bare = contents-empty p e in
      rw none_left
        (record { valid = v; ends = ends_self p; out = rw bare refl; held = rw bare refl })
  | inr m ↦
      let some_left : is_empty p ≡ false = is_empty-count p v ∙ ground arith in
      let w = drain_lem n (advance p) (advance-IsPipe p v m) in
      let e = contents-advance p v m in
      rw some_left (record {
        valid = w.valid;
        ends = record {
          locked = w.ends.locked;
          readopen = w.ends.readopen;
          writeopen = w.ends.writeopen;
        };
        out = ap (λ l. p.bytes (p.nread % pipe_size) ∷ l) w.out ∙ ap (take (suc n)) (sym e);
        held = w.held ∙ ap (drop (suc n)) (sym e);
      })
]
