-- ===== src/Manager.antt =====
-- Project2/pmanager.c: the process manager's commands.
pub mod Parse
mod Tests
use hyu_os.Prelude.{
  ℕ, zero, suc, ◌+◌, Bool, true, false, Option, none, some, List, [], ◌∷◌, ◌++◌, length, ltb, ◌==◌,
  if◌then◌else◌, ◌>>=◌,
}
use hyu_os.Prelude.Int.{ℤ, pos, negsuc}
use hyu_os.Text.{strcmp, atoi}

-- `struct cmd` and what extends it.
pub data Cmd : Type 0 where
  list : Cmd
  kill : ℕ → Cmd
  execute : List ℕ → ℕ → Cmd
  limit : ℕ → ℕ → Cmd
  back : Cmd → Cmd

-- The bounds of `tmp` and of `words`.
abbrev pub max_text : ℕ
max_text = 100

abbrev pub max_words : ℕ
max_words = 4

-- `tmp[tmpidx] = c`, and `strcpy(words[wordcnt], tmp)` with the terminator: a write out of bounds
-- is a fault.
abbrev pub put_char : List ℕ → ℕ → Option (List ℕ)
put_char tmp c = if ltb (length tmp) max_text then some (tmp ++ (c ∷ [])) else none

abbrev pub put_word : List (List ℕ) → List ℕ → Option (List (List ℕ))
put_word words tmp =
    if ltb (length tmp) max_text
    then if ltb (length words) max_words then some (words ++ (tmp ∷ [])) else none
    else none

-- The loop of `parsecmd` over the rest of the input, with `tmp` and the words so far.
unfoldable pub parse_loop : List ℕ → List ℕ → List (List ℕ) → Option (List (List ℕ))
parse_loop [] tmp words = put_word words tmp
parse_loop (c ∷ input) tmp words = elim (c == 32) [
  | true ↦ put_word words tmp >>= parse_loop input []
  | false ↦ elim (c == 10) [
    | true ↦ parse_loop input tmp words
    | false ↦ put_char tmp c >>= λ tmp'. parse_loop input tmp' words
  ]
]

-- The words behind the last one are empty.
unfoldable pub pad : ℕ → List (List ℕ) → List (List ℕ)
pad zero words = words
pad (suc n) [] = [] ∷ pad n []
pad (suc n) (w ∷ words) = w ∷ pad n words

-- `parsecmd(input, words)`
unfoldable pub parsecmd : List ℕ → Option (List (List ℕ))
unfolding parse_loop pad
parsecmd input = do words ← parse_loop input [] []; some (pad max_words words)

-- `words[i]`
abbrev pub word_at : List (List ℕ) → ℕ → List ℕ
word_at [] i = []
word_at (w ∷ ws) zero = w
word_at (w ∷ ws) (suc i) = word_at ws i

abbrev pub is_zero : ℤ → Bool
is_zero (pos n) = n == 0
is_zero (negsuc n) = false

abbrev pub word_list : List ℕ
word_list = b'l' ∷ b'i' ∷ b's' ∷ b't' ∷ []

abbrev pub word_kill : List ℕ
word_kill = b'k' ∷ b'i' ∷ b'l' ∷ b'l' ∷ []

abbrev pub word_execute : List ℕ
word_execute = b'e' ∷ b'x' ∷ b'e' ∷ b'c' ∷ b'u' ∷ b't' ∷ b'e' ∷ []

abbrev pub word_memlim : List ℕ
word_memlim = b'm' ∷ b'e' ∷ b'm' ∷ b'l' ∷ b'i' ∷ b'm' ∷ []

abbrev pub word_exit : List ℕ
word_exit = b'e' ∷ b'x' ∷ b'i' ∷ b't' ∷ []

-- `executecmd(path, stacksize)`: it runs in the background.
abbrev pub executecmd : List ℕ → ℕ → Cmd
executecmd path stacksize = back (execute path stacksize)

-- `makecmd(words)`; `none` is the exit on an unknown command.
unfoldable pub makecmd : List (List ℕ) → Option Cmd
makecmd words =
    let verb = word_at words 0 in
    if is_zero (strcmp verb word_list)
    then some list
    else if is_zero (strcmp verb word_kill)
    then some (kill (atoi (word_at words 1)))
    else if is_zero (strcmp verb word_execute)
    then some (executecmd (word_at words 1) (atoi (word_at words 2)))
    else if is_zero (strcmp verb word_memlim)
    then some (limit (atoi (word_at words 1)) (atoi (word_at words 2)))
    else none

-- A system call that `runcmd` makes for its command; `exec2` gets the path as its argument vector
-- too.
pub data Call : Type 0 where
  call_list : Call
  call_kill : ℕ → Call
  call_exec2 : List ℕ → List ℕ → ℕ → Call
  call_setmemorylimit : ℕ → ℕ → Call

-- `runcmd(cmd)`: the call, and in which generation of children it is made.
unfoldable pub runcmd : ℕ → Cmd → ℕ × Call
runcmd n list = (n, call_list)
runcmd n (kill pid) = (n, call_kill pid)
runcmd n (execute path stacksize) = (n, call_exec2 path path stacksize)
runcmd n (limit pid size) = (n, call_setmemorylimit pid size)
runcmd n (back cmd) = runcmd (n + 1) cmd

-- How a line that `main` has read ends: the command runs in a child, the loop ends, or the
-- manager itself exits on an unknown command.
pub data Outcome : Type 0 where
  child : ℕ → Call → Outcome
  quit : Outcome
  command_error : Outcome

abbrev pub run_made : Option Cmd → Outcome
run_made none = command_error
run_made (some cmd) = let (n, c) = runcmd 1 cmd in child n c

-- The body of the loop of `main` for a line; `none` is a write out of bounds.
unfoldable pub run_line : List ℕ → Option Outcome
unfolding parsecmd makecmd runcmd
run_line line = do
  words ← parsecmd line
  if is_zero (strcmp (word_at words 0) word_exit)
      then some quit
      else some (run_made (makecmd words))
