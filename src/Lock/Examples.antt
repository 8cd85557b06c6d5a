-- ===== src/Lock/Examples.antt =====
-- Two CPUs and one lock: the theorems at work on them.
use mit6s.Base.{ℕ, ◌≡◌, inl, refl, true, false, none, some}
use mit6s.Lock.{
  outside, spinning, releasing, System, initlock, holding, push_off, acquire_first, swap,
  acquire_last, release_first, release_last, set_lock, set_cpu, set_phase,
}
use mit6s.Lock.Steps.{Reach, here, next, acquires, swaps, owns, releases, Initial}
use mit6s.Lock.Inside.{Inside}
use mit6s.Lock.Exclusive.{Reach-Exclusive, release_last_succeeds}

abbrev start : System
start = record {
  locks = λ l. initlock;
  cpus = λ c. record { noff = 0; intena = false; intr = true };
  phase = λ c. outside;
}

start-Initial : Initial start
start-Initial = record { free = λ l. refl; idle = λ c. refl; none_off = λ c. refl }

-- CPU 0 enters the loop of `acquire` for lock 7, and so does CPU 1; CPU 1 swaps first.
abbrev one_in : System
one_in = set_phase 0 (spinning 7) (set_cpu 0 (push_off (start.cpus 0)) start)

abbrev two_in : System
two_in = set_phase 1 (spinning 7) (set_cpu 1 (push_off (one_in.cpus 1)) one_in)

abbrev contended : System
contended = acquire_last 1 7 (swap 0 7 (swap 1 7 two_in))

start-contended : Reach start contended
unfolding acquire_first holding swap push_off
start-contended =
    next
      (next
        (next (next (next here (acquires 0 7 one_in refl refl)) (acquires 1 7 two_in refl refl))
          (swaps 1 7 refl))
        (swaps 0 7 refl))
      (owns 1 7 refl)

Inside-one : Inside 1 7 contended
unfolding acquire_last swap
Inside-one = inl refl

Reach-Exclusive_example : Path ℕ 1 1 × ((contended.cpus 1).intr ≡ false)
Reach-Exclusive_example = Reach-Exclusive start-Initial start-contended 1 1 7 Inside-one Inside-one

abbrev leaving : System
leaving =
    set_phase 1 (releasing 7) (set_lock 7 (record (contended.locks 7) { cpu = none }) contended)

start-leaving : Reach start leaving
unfolding release_first holding acquire_last swap
start-leaving = next start-contended (releases 1 7 leaving refl refl)

release_last_succeeds_example :
    (u : System) × (release_last 1 7 leaving ≡ some u) × (u.phase 1 ≡ outside)
release_last_succeeds_example = release_last_succeeds start-Initial start-leaving 1 7 refl
