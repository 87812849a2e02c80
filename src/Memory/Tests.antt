-- ===== src/Memory/Tests.antt =====
-- Calls on a small memory.
use hyu_os.Prelude.{◌+◌, ◌≡◌, refl, arith, ltb, if◌then◌else◌}
use hyu_os.Prelude.Int.{pos, negsuc}
use hyu_os.Memory.{Bytes, memset, memcmp, memmove, strncmp, strncpy, strlen}
use hyu_os.Memory.Move.{memmove_lem}
use hyu_os.Memory.Set.{memset_lem}

abbrev ramp : Bytes
ramp a = a

-- `abc`, twice: at 16 and at 32.
abbrev texts : Bytes
texts a =
    if ltb a 16
    then 0
    else if ltb a 19
    then a + 81
    else if ltb a 32
    then 0
    else if ltb a 35
    then a + 65
    else 0

-- The blocks overlap upwards, and downwards.
memmove_lem_example : memmove 12 10 5 ramp 16 ≡ 14
memmove_lem_example = memmove_lem 12 10 5 ramp (omega arith) 16

move_back : memmove 10 12 5 ramp 14 ≡ 16
move_back = memmove_lem 10 12 5 ramp (omega arith) 14

memset_lem_example : memset 8 257 8 ramp 15 ≡ 1
memset_lem_example = memset_lem 8 257 8 ramp 15

compare_ramp : memcmp 3 4 2 ramp ≡ negsuc 0
unfolding memcmp
compare_ramp = refl

compare_texts : strncmp 16 32 10 texts ≡ pos 0
unfolding strncmp
compare_texts = refl

copy_text : strncmp 64 16 10 (strncpy 64 16 8 texts) ≡ pos 0
unfolding strncmp strncpy
copy_text = refl

text_length : strlen 20 32 texts ≡ 3
unfolding strlen
text_length = refl
