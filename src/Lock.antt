-- ===== src/Lock.antt =====
-- kernel/spinlock.c: spin locks, which CPUs take with their interrupts off. A step is what one CPU
-- does up to the next atomic swap or the next store that another CPU may see; the steps of the
-- CPUs follow each other in any order. Locks and CPUs are named by numbers.
pub mod Steps
pub mod Inside
pub mod Enter
pub mod Leave
pub mod Unlock
pub mod Exclusive
mod Examples
use mit6s.Base.{
  ℕ, zero, suc, ◌+◌, ◌-◌, Bool, true, false, ◌&&◌, Option, none, some, ◌==◌, ltb, if◌then◌else◌,
  update,
}

-- `struct spinlock`; none is the null pointer.
pub record Spinlock : Type 0 where
  pub locked : Bool
  pub cpu : Option ℕ

-- `struct cpu`, and whether its interrupts are on.
pub record Cpu : Type 0 where
  pub noff : ℕ
  pub intena : Bool
  pub intr : Bool

-- Where a CPU stands: outside of `acquire` and `release`, in the loop of `acquire`, behind it but
-- before `lk->cpu = mycpu()`, or in `release` behind `lk->cpu = 0`.
pub data Phase : Type 0 where
  outside : Phase
  spinning taken releasing : ℕ → Phase

pub record System : Type 0 where
  pub locks : ℕ → Spinlock
  pub cpus : ℕ → Cpu
  pub phase : ℕ → Phase

-- `initlock(lk)`
abbrev pub initlock : Spinlock
initlock = record { locked = false; cpu = none }

-- `holding(lk)` on CPU `c`.
abbrev pub is_cpu : Option ℕ → ℕ → Bool
is_cpu none c = false
is_cpu (some d) c = d == c

unfoldable pub holding : ℕ → Spinlock → Bool
holding c lk = lk.locked && is_cpu lk.cpu c

-- `push_off()`
unfoldable pub push_off : Cpu → Cpu
push_off c = record {
  noff = c.noff + 1;
  intena = if c.noff == 0 then c.intr else c.intena;
  intr = false;
}

-- `pop_off()`; none is a panic.
unfoldable pub pop_off : Cpu → Option Cpu
pop_off c =
    if c.intr
    then none
    else if ltb c.noff 1
    then none
    else some (record c { noff = c.noff - 1; intr = (c.noff - 1 == 0) && c.intena })

abbrev pub set_lock : ℕ → Spinlock → System → System
set_lock l x s = record s { locks = update s.locks l x }

abbrev pub set_cpu : ℕ → Cpu → System → System
set_cpu c x s = record s { cpus = update s.cpus c x }

abbrev pub set_phase : ℕ → Phase → System → System
set_phase c x s = record s { phase = update s.phase c x }

-- `acquire(lk)` up to its loop; none is the panic.
unfoldable pub acquire_first : ℕ → ℕ → System → Option System
acquire_first c l s =
    if holding c (s.locks l)
    then none
    else some (set_phase c (spinning l) (set_cpu c (push_off (s.cpus c)) s))

-- One `__sync_lock_test_and_set(&lk->locked, 1)`.
unfoldable pub swap : ℕ → ℕ → System → System
swap c l s =
    let t = set_lock l (record (s.locks l) { locked = true }) s in
    if (s.locks l).locked then t else set_phase c (taken l) t

-- `lk->cpu = mycpu()`
unfoldable pub acquire_last : ℕ → ℕ → System → System
acquire_last c l s = set_phase c outside (set_lock l (record (s.locks l) { cpu = some c }) s)

-- `release(lk)` up to `lk->cpu = 0`; none is the panic.
unfoldable pub release_first : ℕ → ℕ → System → Option System
release_first c l s =
    if holding c (s.locks l)
    then some (set_phase c (releasing l) (set_lock l (record (s.locks l) { cpu = none }) s))
    else none

-- `__sync_lock_release(&lk->locked)` and `pop_off()`; none is a panic.
unfoldable pub release_last : ℕ → ℕ → System → Option System
release_last c l s =
    let t = set_lock l (record (s.locks l) { locked = false }) s in
    elim (pop_off (s.cpus c)) [ none ↦ none | some x ↦ some (set_phase c outside (set_cpu c x t)) ]
