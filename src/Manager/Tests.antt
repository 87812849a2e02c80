-- ===== src/Manager/Tests.antt =====
-- Lines typed to the process manager.
use hyu_os.Prelude.{ℕ, ◌≤◌, ◌≡◌, refl, none, some, List, [], ◌∷◌, ◌++◌, arith, length}
use hyu_os.Manager.{
  max_words, parsecmd, pad, run_line, child, call_kill, call_exec2, word_kill, word_execute,
}
use hyu_os.Text.{strcmp, atoi}
use hyu_os.Manager.Parse.{joined, spaces, parsecmd-joined, parsecmd-bounds}

-- `kill 12`
abbrev kill_12 : List (List ℕ)
kill_12 = word_kill ∷ (b'1' ∷ b'2' ∷ []) ∷ []

parsecmd-joined_example : parsecmd (joined kill_12 ++ (10 ∷ [])) ≡ some (pad max_words kill_12)
parsecmd-joined_example =
    parsecmd-joined word_kill ((b'1' ∷ b'2' ∷ []) ∷ []) (omega arith) (omega arith)

-- Five words.
parsecmd-bounds_example :
    (spaces (32 ∷ 32 ∷ 32 ∷ 32 ∷ []) ≤ 3
      → (ws : List (List ℕ)) × (parsecmd (32 ∷ 32 ∷ 32 ∷ 32 ∷ []) ≡ some ws)
        × (length ws ≡ max_words))
    × (4 ≤ spaces (32 ∷ 32 ∷ 32 ∷ 32 ∷ []) → parsecmd (32 ∷ 32 ∷ 32 ∷ 32 ∷ []) ≡ none)
parsecmd-bounds_example = parsecmd-bounds (32 ∷ 32 ∷ 32 ∷ 32 ∷ []) (omega arith)

run_kill : run_line (joined kill_12 ++ (10 ∷ [])) ≡ some (child 1 (call_kill 12))
unfolding run_line joined strcmp atoi
run_kill = refl

run_execute :
    run_line (joined (word_execute ∷ (b'a' ∷ []) ∷ (b'3' ∷ []) ∷ []) ++ (10 ∷ []))
    ≡ some (child 2 (call_exec2 (b'a' ∷ []) (b'a' ∷ []) 3))
unfolding run_line joined strcmp atoi
run_execute = refl
