-- ===== src/Pipe/Tests.antt =====
-- A pipe whose counters are about to wrap round, used by process 0 of the small kernel.
use hyu_os.Prelude.{◌≡◌, refl, true, false, [], ◌∷◌, ◌++◌, arith}
use hyu_os.Mlfq.Desk.{desk, desk_home, desk_view, desk-Inv}
use hyu_os.Pipe.{Pipe, System, pipewrite, piperead, wrote, got}
use hyu_os.Pipe.Ring.{contents, IsPipe, window}
use hyu_os.Pipe.Calls.{Ends, Ready, pipewrite_lem, piperead_lem}

abbrev wrapping : Pipe
wrapping = record {
  locked = false;
  bytes = λ i. i;
  nread = 4294967294;
  nwrite = 4294967295;
  readopen = true;
  writeopen = true;
}

abbrev plumbing : System
plumbing = record { pipe = wrapping; kernel = desk }

wrapping-IsPipe : IsPipe wrapping
wrapping-IsPipe = record { reads = omega arith; writes = omega arith; fits = omega arith }

desk-Ready : Ready 0 0 desk
desk-Ready = record { sound = (desk_home, desk_view, desk-Inv); on = refl; free = refl }

pipewrite_lem_example :
    (q : Pipe) × Ends (pipewrite 0 (7 ∷ 8 ∷ []) plumbing) (wrote 2) q
    × IsPipe q
    × (contents q ≡ contents wrapping ++ (7 ∷ 8 ∷ []))
pipewrite_lem_example = pipewrite_lem 0 0 plumbing wrapping-IsPipe refl desk-Ready (7 ∷ 8 ∷ [])

piperead_lem_example :
    (q : Pipe) × Ends (piperead 0 4 plumbing) (got (510 ∷ [])) q × IsPipe q × (contents q ≡ [])
unfolding window
piperead_lem_example = piperead_lem 0 0 plumbing wrapping-IsPipe refl desk-Ready 4
