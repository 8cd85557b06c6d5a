-- ===== src/Log/Examples.antt =====
-- Runs of the log, and the theorems at concrete inputs: a log of 31 blocks from block 2 on, and
-- one operation that has written block 50.
use mit6s.Base.{
  ℕ, ◌-◌, ◌^◌, ◌≡◌, ◌≢◌, inl, inr, refl, arith, [], ◌∷◌, false, none, some, ◌==◌, if◌then◌else◌,
  update,
}
use mit6s.Log.{
  bread, Block, Disk, Header, Log, Kernel, view, modify, begin_op, log_write, commit, end_op,
  initlog, log_size, max_op_blocks,
}
use mit6s.Log.Copy.{All}
use mit6s.Log.Logged.{Home, Fits, Clean, Logged, Recoverable, Clean-Recoverable, boot}
use mit6s.Log.Recover.{recover_lem, zeroed}
use mit6s.Log.Commit.{Ready, Either, commit_lem}
use mit6s.Log.Crash.{Atomic, crash-Atomic}
use mit6s.Log.Budget.{Open, here, log_write_succeeds}
use mit6s.Log.Pins.{recover_underflow}
use mit6s.Log.Write.{LogWritten, log_write-Ready}

abbrev zeros : Disk
zeros b i = 0

abbrev sevens : Block
sevens i = 7

abbrev busy : Kernel
busy = record {
  disk = zeros;
  images = zeros ∷ [];
  cache = λ b. if 50 == b then some sevens else none;
  refcnt = λ b. if 50 == b then 1 else 0;
  log = record {
    lock = false;
    start = 2;
    size = 31;
    outstanding = 1;
    committing = false;
    lh = record { n = 1; block = λ _. 50 };
  };
  woken = 0;
}

busy-Ready : Ready 2 31 busy
unfolding view
busy-Ready = record {
  place = refl;
  fits = record {
    room = omega arith;
    home = λ j lt. inr (omega arith);
    once = λ j j' lo hi. absurd (omega arith);
  };
  empty = refl;
  clean = λ b hb far. ground (arith, far 0 (omega arith));
}

commit_images : (commit busy).disk 50 0 ≡ 7
unfolding commit mit6s.Log.write_log mit6s.Log.write_log_from mit6s.Log.log_block
    mit6s.Log.write_head mit6s.Log.install_trans mit6s.Log.install_from mit6s.Log.install_block
    mit6s.Log.bread mit6s.Log.bwrite mit6s.Log.modify mit6s.Log.bunpin view mit6s.Log.head_words
    mit6s.Log.set_header
commit_images = refl

crash-Atomic_example : All (Atomic 2 31 zeros (view busy)) (commit busy).images
crash-Atomic_example = crash-Atomic 2 31 busy busy-Ready refl

before : Recoverable 2 31 zeros zeros
before = Clean-Recoverable 2 31 zeros zeros (omega arith) (refl, λ b hb. refl)

commit_lem_example :
    Clean 2 31 (view busy) (commit busy).disk
    × All (Either 2 31 zeros (view busy)) (commit busy).images
    × ((b : ℕ) → Home 2 31 b → view (commit busy) b ≡ view busy b)
    × ((commit busy).log ≡ zeroed (busy.log))
commit_lem_example = commit_lem 2 31 busy busy-Ready (inl before, tt)

-- A disk as a crash after the commit point leaves it: block 3 is logged for block 50.
abbrev cut_off : Disk
cut_off b =
    if b == 2
    then (λ i. if i == 0 then 1 else if i == 1 then 50 else 0)
    else if b == 3
    then sevens
    else λ i. 0

abbrev one_block : Header
one_block = record { n = 1; block = λ _. 50 }

abbrev goal : Disk
goal b = if b == 50 then sevens else cut_off b

one_block-Fits : Fits 2 31 one_block
one_block-Fits = record {
  room = omega arith;
  home = λ j lt. inr (omega arith);
  once = λ j j' lo hi. absurd (omega arith);
}

cut_off-Logged : Logged 2 31 one_block goal cut_off
cut_off-Logged = record {
  head = record { len = refl; nums = λ i lt. ground arith };
  body = λ j lt. ground arith;
  others = λ b hb far. ground (arith, far 0 (omega arith));
}

recover_lem_example :
    Clean 2 31 goal (initlog 2 31 (boot cut_off)).disk
    × All (Recoverable 2 31 goal) (initlog 2 31 (boot cut_off)).images
recover_lem_example =
    recover_lem 2 31 goal cut_off (omega arith) (one_block, one_block-Fits, cut_off-Logged)

recover_underflow_example :
    ((initlog 2 31 (boot cut_off)).refcnt 50 ≡ 2 ^ 32 - 1)
    × ((bread 50 (initlog 2 31 (boot cut_off))).refcnt 50 ≡ 0)
recover_underflow_example =
    recover_underflow 2 31 cut_off one_block one_block-Fits cut_off-Logged.head 0 (omega arith)

abbrev written : Kernel
written = record (modify 60 sevens busy) {
  refcnt = update busy.refcnt 60 1;
  log = record (busy.log) { lh = record { n = 2; block = update (λ _. 50) 1 60 } };
}

log_write_runs : log_write 60 (modify 60 sevens busy) ≡ some written
unfolding log_write mit6s.Log.bpin mit6s.Log.set_header modify
log_write_runs = ground arith

log_write-Ready_example : LogWritten 2 31 60 sevens busy written
log_write-Ready_example =
    log_write-Ready 2 31 60 sevens busy written busy-Ready (inr (omega arith)) refl log_write_runs

abbrev opened : Open
opened = record { kernel = busy; budgets = 9 ∷ [] }

log_write_succeeds_example : log_write 60 (modify 60 sevens busy) ≢ none
log_write_succeeds_example =
    log_write_succeeds opened opened [] [] 8 60 sevens
      (record { counted = refl; room = omega arith; each = omega arith; quiet = λ q. absurd cc })
      (omega arith) here refl
