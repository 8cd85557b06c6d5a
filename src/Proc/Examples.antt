-- ===== src/Proc/Examples.antt =====
-- A table with `initproc`, a process that runs, and a child of it that has exited: tests, and the
-- theorems at work on it.
use mathlib.Core.Path.{subst}
use mit6s.Base.{
  inl, ℕ_discrete, ℕ, ◌+◌, ◌≡◌, ◌≢◌, refl, arith, none, some, true, false, ◌==◌, if◌then◌else◌, pos,
  minus_one, [],
}
use mit6s.Proc.{
  Scene, with_lk, outside, away, past_wakeup, sleeper_step, waker_step, fall_asleep, release,
  unused, sleeping, runnable, running, zombie, Proc, Table, no_chan, addr_chan, proc_chan, get,
  acquire, fork, kill, wait, exit, exit_files, wakeup, allocproc, returned, wait_from, reap, forked,
  find_unused, found, fork_into, dup_from, kill_from,
}
use mit6s.Proc.Handover.{Runs, begun, sleeper_moves, waker_moves, Runs-Woke}
use mit6s.Proc.Exit.{FilesClosed}
use mit6s.Proc.Zombie.{Exited, exit-Exited}
use mit6s.Proc.Family.{Raises, Family}
use mit6s.Proc.Life.{here, next, wakes, kills, Reach-Family, exit_succeeds}
use mit6s.Proc.Child.{ForkEnd, fork-ForkEnd}
use mit6s.Proc.Marked.{kill_zero-born_killed}

abbrev blank : Proc
blank = record {
  lock = false;
  state = unused;
  parent = none;
  chan = no_chan;
  killed = false;
  xstate = 0;
  pid = 0;
  kstack = 0;
  sz = 0;
  pagetable = none;
  trapframe = none;
  frame = record { epc = 0; sp = 0; a0 = 0; rest = λ i. 0 };
  context_ra = 0;
  context_sp = 0;
  ofile = λ fd. none;
  cwd = none;
  name = [];
}

abbrev table : Table
table = record {
  procs = λ j.
      if j == 0
      then record blank { pid = 1; state = sleeping; chan = proc_chan 0 }
      else if j == 1
      then record blank { pid = 2; state = running; parent = some 0; ofile = λ fd. some (fd + 1) }
      else if j == 2
      then record blank { pid = 3; state = zombie; parent = some 1; xstate = 7 }
      else blank;
  nextpid = 4;
  initproc = 0;
  calls = [];
}

table-Family : Family table
table-Family = record {
  init_slot = omega arith;
  init_alive = refl;
  init_top = refl;
  raised = λ j lj u nj. elim (ℕ_discrete 1 j) [
    | yes q ↦ subst (λ x. (p : ℕ) × Raises table x p) q (0, (refl, omega arith, refl, omega arith))
    | no n1 ↦ elim (ℕ_discrete 2 j) [
      | yes q ↦
          subst (λ x. (p : ℕ) × Raises table x p) q (1, (refl, omega arith, refl, omega arith))
      | no n2 ↦ absurd (ground arith)
    ]
  ];
  eldest = λ j lj u nj. ground arith;
  numbered = λ j lj u. ground arith;
  low = λ j lj. ground arith;
  apart = λ i j li lj ne lt. ground arith;
}

-- The process that waits gets its child's pid.
wait_result : (wait 1 0 false table).0 ≡ returned (pos 3)
unfolding wait wait_from reap
wait_result = refl

-- The child is in the first free slot.
fork_result : (fork 1 (some 5) (some 6) 9 true table).0 ≡ pos 4
unfolding fork forked allocproc find_unused found fork_into dup_from
fork_result = refl

kill_result : (kill 9 table).0 ≡ minus_one
unfolding kill kill_from
kill_result = refl

abbrev scene : Scene
scene = record { table = table; lk = true; condition = false; sleeper = with_lk; waker = outside }

-- The waker gets `lk` while the process still holds its own lock.
abbrev scene_end : Scene
scene_end = record {
  table = wakeup (addr_chan 9) (release 1 (fall_asleep 1 (addr_chan 9) (acquire 1 table)));
  lk = true;
  condition = true;
  sleeper = away;
  waker = past_wakeup;
}

scene-Runs : Runs 1 (addr_chan 9) scene scene_end
unfolding sleeper_step waker_step
scene-Runs =
    waker_moves
      (sleeper_moves (waker_moves (sleeper_moves (sleeper_moves begun refl) refl) refl) refl) refl

Runs-Woke_example : (away ≡ away) × ((get 1 scene_end.table).state ≡ runnable)
Runs-Woke_example =
    Runs-Woke 1 (addr_chan 9) {x = scene} {y = scene_end} (omega arith)
      (record { held = refl; untrue = refl; sleeper = refl; waker = refl }) scene-Runs (inl refl)

exit-Exited_example :
    (t : Table) × (exit 1 8 table ≡ some t)
    × FilesClosed 1 table (exit_files 1 table)
    × Exited 1 8 0 (exit_files 1 table) t
exit-Exited_example =
    exit-Exited 1 8 0 table (omega arith) (omega arith) (omega arith) (omega arith) refl (λ e. cc)

fork-ForkEnd_example :
    let (r, t) = fork 1 (some 5) (some 6) 9 true table in
    ForkEnd 1 (some 5) (some 6) 9 true table r t
fork-ForkEnd_example = fork-ForkEnd 1 (some 5) (some 6) 9 true table refl

Reach-Family_example : Family (wakeup (proc_chan 0) (kill 2 table).1)
Reach-Family_example = Reach-Family (next (next here (kills 2)) (wakes (proc_chan 0))) table-Family

exit_succeeds_example : exit 1 8 table ≢ none
exit_succeeds_example = exit_succeeds here table-Family 1 8 (omega arith) (omega arith) refl

kill_zero-born_killed_example :
    let (r, t) = kill 0 table in
    let (pid, u) = fork 1 (some 5) (some 6) 9 true t in
    (r ≡ pos 0) × (pid ≡ pos t.nextpid) × ((get 3 u).state ≡ runnable) × ((get 3 u).killed ≡ true)
kill_zero-born_killed_example =
    kill_zero-born_killed 1 3 5 6 9 table refl (omega arith) refl refl (λ j lt. ground arith)
