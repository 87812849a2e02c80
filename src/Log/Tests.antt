-- ===== src/Log/Tests.antt =====
-- A transaction of one block, and a second block that joins it.
use hyu_os.Prelude.{ℕ, ◌≡◌, refl, inr, true, false, some, arith, ◌==◌, if◌then◌else◌}
use hyu_os.Log.{Log, Journal, commit, initlog, log_write}
use hyu_os.Log.Recover.{reboot, listed}
use hyu_os.Log.Crash.{initlog-commit}
use hyu_os.Log.Absorb.{IsLog, log_write-IsLog}

abbrev one_block : Log
one_block = record {
  locked = false;
  start = 2;
  size = 31;
  outstanding = 1;
  committing = false;
  lh = record { n = 1; block = λ i. 50 };
}

-- The machine stops after two writes: the log block and the header.
abbrev shelf : Journal
shelf = record {
  log = one_block;
  store = record {
    disk = λ b i. 0;
    cache = λ b i. if b == 50 then 7 else 0;
    dirty = λ b. b == 50;
    power = 2;
  };
}

-- The block is recovered although the commit did not get as far as writing it.
initlog-commit_example :
    (initlog 2 31 (reboot 5 one_block (commit shelf).store.disk)).store.disk 50
    ≡ shelf.store.cache 50
unfolding listed
initlog-commit_example =
    initlog-commit shelf (record { one = λ i j h k e. omega arith; out = λ i h. inr (omega arith) })
      31 5 one_block (omega arith) refl 50 (inr (omega arith))

log_write-IsLog_example :
    (j' : Journal) × (log_write 60 shelf ≡ some j')
    × IsLog 2 31 j'.log.lh.n j'.log.lh.block
    × (listed j'.log.lh.n j'.log.lh.block 60 ≡ true)
    × ((x : ℕ) → listed 1 (λ i. 50) x ≡ true → listed j'.log.lh.n j'.log.lh.block x ≡ true)
    × (j'.store.dirty 60 ≡ true)
    × (j'.log.locked ≡ false)
log_write-IsLog_example =
    log_write-IsLog shelf 60
      (record {
        room = omega arith;
        one = λ i j h k e. omega arith;
        out = λ i h. inr (omega arith);
      })
      (inr (omega arith)) refl (omega arith, refl) (omega arith)
