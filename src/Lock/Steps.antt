-- ===== src/Lock/Steps.antt =====
-- What the CPUs may do, in any order.
use mit6s.Base.{ℕ, Bool, ◌≡◌, some}
use mit6s.Lock.{
  outside, spinning, taken, releasing, System, initlock, set_cpu, acquire_first, swap, acquire_last,
  release_first, release_last,
}

-- A CPU calls `acquire` or `release` when it is in neither, and goes on in the one that it is in.
-- When it has not pushed its interrupts off, it may turn them on or off.
pub data Step (s : System) : System → Type 0 where
  acquires : (c l : ℕ) (t : System) → s.phase c ≡ outside → acquire_first c l s ≡ some t → Step s t
  swaps : (c l : ℕ) → s.phase c ≡ spinning l → Step s (swap c l s)
  owns : (c l : ℕ) → s.phase c ≡ taken l → Step s (acquire_last c l s)
  releases : (c l : ℕ) (t : System) → s.phase c ≡ outside → release_first c l s ≡ some t → Step s t
  unlocks :
      (c l : ℕ) (t : System) → s.phase c ≡ releasing l → release_last c l s ≡ some t → Step s t
  toggles :
      (c : ℕ) (on : Bool)
      → (s.cpus c).noff ≡ 0
      → Step s (set_cpu c (record (s.cpus c) { intr = on }) s)

pub data Reach (s : System) : System → Type 0 where
  here : Reach s s
  next : {t u : System} → Reach s t → Step t u → Reach s u

-- No lock is held, and no CPU is in `acquire` or `release`.
pub record Initial (s : System) : Type 0 where
  pub free : (l : ℕ) → s.locks l ≡ initlock
  pub idle : (c : ℕ) → s.phase c ≡ outside
  pub none_off : (c : ℕ) → (s.cpus c).noff ≡ 0
