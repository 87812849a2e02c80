-- ===== src/Manager/Parse.antt =====
-- `parsecmd` splits a line into its words, as far as `words` has room.
use hyu_os.Prelude.{
  ℕ, zero, suc, ◌+◌, ◌≤◌, ◌<◌, ◌≡◌, refl, sym, ◌∙◌, ap, ◌≢◌, inl, inr, false, Option, none, some,
  ◌>>=◌, List, [], ◌∷◌, ◌++◌, append_assoc, append-nil, arith, length, length-append, All, eq-cases,
  lt-cases, ◌==◌, if◌then◌else◌,
}
use hyu_os.Manager.{max_text, max_words, put_char, put_word, parse_loop, pad, parsecmd}

-- A word has neither a space nor a newline, and fits into `tmp`.
abbrev pub IsPlain : List ℕ → Type 0
IsPlain [] = Unit
IsPlain (c ∷ w) = (c ≢ 32) × (c ≢ 10) × IsPlain w

abbrev pub IsWord : List ℕ → Type 0
IsWord w = IsPlain w × (length w < max_text)

-- The words with a space between any two.
unfoldable pub joined : List (List ℕ) → List ℕ
joined [] = []
joined (w ∷ []) = w
joined (w ∷ v ∷ ws) = w ++ (32 ∷ joined (v ∷ ws))

put_char-eq :
    (tmp : List ℕ) (c : ℕ) → length tmp < max_text → put_char tmp c ≡ some (tmp ++ (c ∷ []))
put_char-eq tmp c h = ground arith

put_word-eq :
    (words : List (List ℕ)) (tmp : List ℕ)
    → length tmp < max_text
    → length words < max_words
    → put_word words tmp ≡ some (words ++ (tmp ∷ []))
put_word-eq words tmp h k = ground arith

-- One character of a word.
parse_char :
    (c : ℕ) (input tmp : List ℕ) (words : List (List ℕ))
    → c ≢ 32
    → c ≢ 10
    → length tmp < max_text
    → parse_loop (c ∷ input) tmp words ≡ parse_loop input (tmp ++ (c ∷ [])) words
unfolding parse_loop
parse_char c input tmp words h k l = ground (arith, put_char-eq tmp c l)

parse_space :
    (input tmp : List ℕ) (words : List (List ℕ))
    → parse_loop (32 ∷ input) tmp words ≡ (put_word words tmp >>= parse_loop input [])
unfolding parse_loop
parse_space input tmp words = refl

parse_newline :
    (input tmp : List ℕ) (words : List (List ℕ))
    → parse_loop (10 ∷ input) tmp words ≡ parse_loop input tmp words
unfolding parse_loop
parse_newline input tmp words = refl

length-put : (tmp : List ℕ) (c : ℕ) → length (tmp ++ (c ∷ [])) ≡ length tmp + 1
length-put tmp c = length-append tmp (c ∷ [])

-- A whole word.
parse_word :
    (w input tmp : List ℕ) (words : List (List ℕ))
    → IsPlain w
    → length tmp + length w < max_text
    → parse_loop (w ++ input) tmp words ≡ parse_loop input (tmp ++ w) words
parse_word [] input tmp words p h = ap (λ t. parse_loop input t words) (sym (append-nil tmp))
parse_word (c ∷ w) input tmp words p h =
    parse_char c (w ++ input) tmp words p.0 p.1 (omega arith)
    ∙ parse_word w input (tmp ++ (c ∷ [])) words p.2 (omega (arith, length-put tmp c))
    ∙ ap (λ t. parse_loop input t words) (append_assoc tmp (c ∷ []) w)

length-snoc : (words : List (List ℕ)) (w : List ℕ) → length (words ++ (w ∷ [])) ≡ length words + 1
length-snoc words w = length-append words (w ∷ [])

parse_last :
    (w : List ℕ) (words : List (List ℕ))
    → IsWord w
    → length words < max_words
    → parse_loop (w ++ (10 ∷ [])) [] words ≡ some (words ++ (w ∷ []))
parse_last w words p h =
    parse_word w (10 ∷ []) [] words p.0 (omega (arith, p.1))
    ∙ parse_newline [] w words
    ∙ (unfold parse_loop in put_word-eq words w p.1 h)

parse_joined :
    (w : List ℕ) (ws words : List (List ℕ))
    → All IsWord (w ∷ ws)
    → length words + length (w ∷ ws) ≤ max_words
    → parse_loop (joined (w ∷ ws) ++ (10 ∷ [])) [] words ≡ some (words ++ (w ∷ ws))
unfolding joined
parse_joined w [] words p h = parse_last w words p.0 (omega arith)
parse_joined w (v ∷ ws) words p h =
    ap (λ l. parse_loop l [] words) (append_assoc w (32 ∷ joined (v ∷ ws)) (10 ∷ []))
    ∙ parse_word w (32 ∷ (joined (v ∷ ws) ++ (10 ∷ []))) [] words p.0.0 (omega (arith, p.0.1))
    ∙ parse_space (joined (v ∷ ws) ++ (10 ∷ [])) w words
    ∙ ap (λ m. m >>= parse_loop (joined (v ∷ ws) ++ (10 ∷ [])) [])
        (put_word-eq words w p.0.1 (omega arith))
    ∙ parse_joined v ws (words ++ (w ∷ [])) p.1 (omega (arith, length-snoc words w))
    ∙ ap some (append_assoc words (w ∷ []) (v ∷ ws))

-- `parsecmd` reads back up to four words, each shorter than 100 characters and without a space or
-- a newline, that are joined by single spaces and end with a newline, and makes the rest of
-- `words` empty.
pub parsecmd-joined :
    (w : List ℕ) (ws : List (List ℕ))
    → All IsWord (w ∷ ws)
    → length (w ∷ ws) ≤ max_words
    → parsecmd (joined (w ∷ ws) ++ (10 ∷ [])) ≡ some (pad max_words (w ∷ ws))
unfolding parsecmd
parsecmd-joined w ws p h = rw (parse_joined w ws [] p (omega arith)) refl

-- The number of spaces in a line.
unfoldable pub spaces : List ℕ → ℕ
spaces [] = 0
spaces (c ∷ input) = if c == 32 then suc (spaces input) else spaces input

-- What becomes of the loop: the words go into `words`, or the first word too many is a fault.
abbrev pub Parses : ℕ → Option (List (List ℕ)) → Type 0
Parses n r =
    (n < max_words → (ws : List (List ℕ)) × (r ≡ some ws) × (length ws ≡ n + 1))
    × (max_words ≤ n → r ≡ none)

put_word-Parses :
    (words : List (List ℕ)) (tmp : List ℕ)
    → length tmp < max_text
    → Parses (length words) (put_word words tmp)
put_word-Parses words tmp h = (
  (λ k. (words ++ (tmp ∷ []), put_word-eq words tmp h k, length-snoc words tmp)),
  (λ k. ground arith),
)

Parses-space :
    (input tmp : List ℕ) (words : List (List ℕ))
    → length tmp < max_text
    → ((ws : List (List ℕ))
        → length ws ≡ length words + 1
        → Parses (length ws + spaces input) (parse_loop input [] ws))
    → Parses (length words + suc (spaces input)) (parse_loop (32 ∷ input) tmp words)
Parses-space input tmp words h rec = elim (lt-cases (length words) max_words) [
  | inl k ↦
      let p = rec (words ++ (tmp ∷ [])) (length-snoc words tmp) in
      let e =
        parse_space input tmp words
        ∙ ap (λ m. m >>= parse_loop input []) (put_word-eq words tmp h k) in
      let s = length-snoc words tmp in
      (
        (λ l. let (ws, g, n) = p.0 (omega arith) in (ws, e ∙ g, omega arith)),
        (λ l. e ∙ p.1 (omega arith)),
      )
  | inr k ↦
      let e =
        parse_space input tmp words
        ∙ ap (λ m. m >>= parse_loop input []) ((put_word-Parses words tmp h).1 k) in
      ((λ l. absurd (omega arith)), (λ l. e))
]

parse_loop-Parses :
    (input tmp : List ℕ) (words : List (List ℕ))
    → length tmp + length input < max_text
    → Parses (length words + spaces input) (parse_loop input tmp words)
unfolding spaces parse_loop
parse_loop-Parses [] tmp words h =
    let p = put_word-Parses words tmp (omega arith) in
    (
      (λ k. let (ws, e, l) = p.0 (omega arith) in (ws, (unfold parse_loop in e), omega arith)),
      (λ k. unfold parse_loop in p.1 (omega arith)),
    )
parse_loop-Parses (c ∷ input) tmp words h = elim (eq-cases c 32) [
  | inl e ↦ rw e (
      Parses-space input tmp words (omega arith)
        (λ ws l. parse_loop-Parses input [] ws (omega arith)))
  | inr n ↦ elim (eq-cases c 10) [
    | inl o ↦ rw o (parse_loop-Parses input tmp words (omega arith))
    | inr o ↦
        let t : (c == 32) ≡ false = ground arith in
        rw (t, parse_char c input tmp words n o (omega arith))
          (parse_loop-Parses input (tmp ++ (c ∷ [])) words (omega (arith, length-put tmp c)))
  ]
]

length-pad : (n : ℕ) (ws : List (List ℕ)) → length ws ≤ n → length (pad n ws) ≡ n
unfolding pad
length-pad zero [] h = refl
length-pad zero (w ∷ ws) h = absurd (omega arith)
length-pad (suc n) [] h = ap suc (length-pad n [] (omega arith))
length-pad (suc n) (w ∷ ws) h = ap suc (length-pad n ws (omega arith))

-- On a line of fewer than 100 characters `parsecmd` gives four words if the line has at most three
-- spaces, and writes beyond `words` exactly if it has more.
pub parsecmd-bounds :
    (input : List ℕ)
    → length input < max_text
    → (spaces input ≤ 3
        → (ws : List (List ℕ)) × (parsecmd input ≡ some ws) × (length ws ≡ max_words))
      × (4 ≤ spaces input → parsecmd input ≡ none)
unfolding parsecmd
parsecmd-bounds input h =
    let p = parse_loop-Parses input [] [] (omega arith) in
    (
      (λ k.
          let (ws, e, l) = p.0 (omega arith) in
          (pad max_words ws, rw e refl, length-pad max_words ws (omega arith))),
      (λ k. rw (p.1 (omega arith)) refl),
    )
