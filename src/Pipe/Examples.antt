-- ===== src/Pipe/Examples.antt =====
-- Runs of the pipe, and the theorems at concrete inputs.
use mit6s.Base.{
  ltb, ℕ, ◌+◌, ◌-◌, ◌^◌, List, [], ◌∷◌, ◌++◌, ◌≡◌, refl, arith, true, false, pos, replicate,
  length-replicate,
}
use mit6s.Pipe.{Sys, User, asleep, nwrite_chan, init_pipe, pipewrite, piperead}
use mit6s.Pipe.Ring.{IsValid, contents}
use mit6s.Pipe.Transfer.{Wrote, pipewrite_lem}
use mit6s.Pipe.Stream.{
  Turn, write_turn, read_turn, close_turn, run, sent_all, received_all, run_fifo,
}

abbrev junk : List ℕ
junk = replicate 512 0

abbrev fresh : Sys
unfolding init_pipe
fresh = record { pi = init_pipe junk; woken = []; freed = false }

-- Three bytes of user memory, 10, 11 and 12, at the addresses 0, 1 and 2.
abbrev user : User
user = record { mapped = λ a. ltb a 4096; byte = λ a. 10 + a }

abbrev script : List Turn
script = write_turn user 0 false (pos 3) 0 ∷ read_turn 100 false (pos 2) user ∷ close_turn true ∷ []

-- The counters pass 2 ^ 32 here.
abbrev wrapping : Sys
wrapping = record {
  pi = record {
    lock = false;
    bytes = junk;
    nread = 2 ^ 32 - 1;
    nwrite = 2 ^ 32 - 1;
    readopen = true;
    writeopen = true;
  };
  woken = [];
  freed = false;
}

wrapping-IsValid : IsValid (wrapping.pi)
wrapping-IsValid = record {
  storage = length-replicate {A = ℕ} 512 0;
  nread_word = omega arith;
  nwrite_word = omega arith;
  few = omega arith;
}

write_wrapping : contents (pipewrite user 0 false (pos 3) 0 wrapping).1.pi ≡ 10 ∷ 11 ∷ 12 ∷ []
unfolding pipewrite
write_wrapping = refl

write_sleeps : (pipewrite user 0 false (pos 600) 0 wrapping).0 ≡ asleep nwrite_chan 512
unfolding pipewrite
write_sleeps = refl

pipewrite_lem_example :
    (m : ℕ) × Wrote user 0 false
      (600 - 0)
      0
      m
      wrapping
      (pipewrite user 0 false (pos 600) 0 wrapping)
pipewrite_lem_example = pipewrite_lem user 0 false (pos 600) 0 wrapping wrapping-IsValid

abbrev holding_two : Sys
holding_two = record wrapping { pi = record (wrapping.pi) { nwrite = 1 } }

script_runs : received_all script wrapping ≡ 10 ∷ 11 ∷ []
unfolding received_all pipewrite piperead
script_runs = refl

run_fifo_example :
    IsValid (run script wrapping).pi
    × (contents (wrapping.pi) ++ sent_all script wrapping
        ≡ received_all script wrapping ++ contents (run script wrapping).pi)
run_fifo_example =
    run_fifo script wrapping (tt, ((omega arith, λ j lt. ground arith), (tt, tt))) wrapping-IsValid
