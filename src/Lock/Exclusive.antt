-- ===== src/Lock/Exclusive.antt =====
-- Mutual exclusion, whatever the CPUs do in whatever order.
use mathlib.Core.Path.{subst}
use mit6s.Base.{ℕ, ◌≡◌, inl, inr, sym, ap, ◌∙◌, arith, Bool, false, some, some_inj, update_self}
use mit6s.Lock.{Cpu, outside, releasing, System, release_last, set_cpu}
use mit6s.Lock.Steps.{
  Step, acquires, swaps, owns, releases, unlocks, toggles, Reach, here, next, Initial,
}
use mit6s.Lock.Inside.{Inside, Inv, Initial-Inv, update_cases, length-without}
use mit6s.Lock.Enter.{acquire_first-Inv, swap-Inv}
use mit6s.Lock.Leave.{acquire_last-Inv, release_first-Inv}
use mit6s.Lock.Unlock.{release_last-unlocked, unlocked-Inv}

toggled-Inv :
    (c : ℕ) (on : Bool) (s : System)
    → (s.cpus c).noff ≡ 0
    → Inv s
    → Inv (set_cpu c (record (s.cpus c) { intr = on }) s)
toggled-Inv c on s z v =
    let x : Cpu = record (s.cpus c) { intr = on } in
    record {
      held = v.held;
      distinct = v.distinct;
      locked = v.locked;
      inside = v.inside;
      alone = v.alone;
      count = λ d. elim (update_cases s.cpus c x d) [
        | inl (q, e) ↦ ap (λ y. Cpu.noff y) e ∙ ap (λ j. (s.cpus j).noff) q ∙ v.count d
        | inr (ne, e) ↦ ap (λ y. Cpu.noff y) e ∙ v.count d
      ];
      off = λ d nz. elim (update_cases s.cpus c x d) [
        | inl (q, e) ↦ absurd (nz (ap (λ y. Cpu.noff y) e ∙ z))
        | inr (ne, e) ↦ ap (λ y. Cpu.intr y) e ∙ v.off d (λ w. nz (ap (λ y. Cpu.noff y) e ∙ w))
      ];
      clear = v.clear;
    }

Step-Inv : {s t : System} → Step s t → Inv s → Inv t
Step-Inv {s} (acquires c l t out e) v = acquire_first-Inv c l s t out e v
Step-Inv {s} (swaps c l p) v = swap-Inv c l s p v
Step-Inv {s} (owns c l p) v = acquire_last-Inv c l s p v
Step-Inv {s} (releases c l t out e) v = release_first-Inv c l s t out e v
Step-Inv {s} (unlocks c l t p e) v =
    subst Inv (some_inj (sym (release_last-unlocked c l s p v) ∙ e)) (unlocked-Inv c l s p v)
Step-Inv {s} (toggles c on z) v = toggled-Inv c on s z v

Reach-Inv : {s t : System} → Reach s t → Inv s → Inv t
Reach-Inv here v = v
Reach-Inv (next r x) v = Step-Inv x (Reach-Inv r v)

-- In any order of steps of any number of CPUs, from a state in which no lock is held: at most one CPU
-- is inside of a lock, which is from its successful swap in `acquire` to its unlocking in `release`,
-- and as long as it is, its interrupts are off.
pub Reach-Exclusive :
    {s t : System}
    → Initial s
    → Reach s t
    → (c d l : ℕ) → Inside c l t
    → Inside d l t
    → (c ≡ d) × ((t.cpus c).intr ≡ false)
Reach-Exclusive {s} {t} i r c d l w w' =
    let v = Reach-Inv r (Initial-Inv s i) in
    let m = v.inside c l w in
    (
      v.alone c d l m (v.inside d l w'),
      v.off c (λ z. absurd (omega (arith, v.count c, length-without l (v.held c) m))),
    )

-- In any such order, a `release` that has begun ends without a panic of `pop_off`.
pub release_last_succeeds :
    {s t : System}
    → Initial s
    → Reach s t
    → (c l : ℕ) → t.phase c ≡ releasing l
    → (u : System) × (release_last c l t ≡ some u) × (u.phase c ≡ outside)
release_last_succeeds {s} {t} i r c l p =
    let v = Reach-Inv r (Initial-Inv s i) in
    (_, release_last-unlocked c l t p v, update_self t.phase c outside)
