-- ===== src/Proc/Handover.antt =====
-- `sleep` against `wakeup`, step by step: no wakeup is lost.
use mathlib.Core.Path.{subst}
use mit6s.Base.{
  ℕ, ◌<◌, ◌≡◌, ◌⊎◌, inl, inr, refl, sym, Bool, true, false, Option, none, some, Bool-cases, ==_refl,
}
use mit6s.Proc.{
  nproc, runnable, sleeping, Chan, Table, get, acquire, release, fall_asleep, Sleeper, with_lk,
  with_both, with_p_lock, away, Waker, outside, inside, past_wakeup, left, Scene, sleeper_step,
  waker_step,
}
use mit6s.Proc.Wake.{wakeup-Woken}

-- The steps of both, in any order.
pub data Runs (i : ℕ) (c : Chan) (x : Scene) : Scene → Type 0 where
  begun : Runs i c x x
  sleeper_moves : {y z : Scene} → Runs i c x y → sleeper_step i c y ≡ some z → Runs i c x z
  waker_moves : {y z : Scene} → Runs i c x y → waker_step i c y ≡ some z → Runs i c x z

-- Process `i` has tested the condition, which is false, and calls `sleep` with `lk` held.
pub record Starts (x : Scene) : Type 0 where
  pub held : x.lk ≡ true
  pub untrue : x.condition ≡ false
  pub sleeper : x.sleeper ≡ with_lk
  pub waker : x.waker ≡ outside

-- What holds by where the two stand.
abbrev Stands : ℕ → Chan → Table → Bool → Bool → Sleeper → Waker → Type 0
Stands i c t lk k with_lk outside = (lk ≡ true) × (k ≡ false)
Stands i c t lk k with_both outside = (lk ≡ true) × (k ≡ false) × ((get i t).lock ≡ true)
Stands i c t lk k with_p_lock outside = (k ≡ false) × ((get i t).lock ≡ true)
Stands i c t lk k with_p_lock inside = (k ≡ true) × ((get i t).lock ≡ true)
Stands i c t lk k away outside = (k ≡ false) × ((get i t).state ≡ sleeping) × ((get i t).chan ≡ c)
Stands i c t lk k away inside = (k ≡ true) × ((get i t).state ≡ sleeping) × ((get i t).chan ≡ c)
Stands i c t lk k away past_wakeup = (k ≡ true) × ((get i t).state ≡ runnable)
Stands i c t lk k away left = (k ≡ true) × ((get i t).state ≡ runnable)
Stands i c t lk k _ _ = ⊥

abbrev pub Good : ℕ → Chan → Scene → Type 0
Good i c x = Stands i c x.table x.lk x.condition x.sleeper x.waker

-- What a step that is taken keeps.
abbrev Keeps : ℕ → Chan → Option Scene → Type 0
Keeps i c none = Unit {0}
Keeps i c (some x) = Good i c x

module _ (i : ℕ) (c : Chan) (t : Table) (lk k : Bool) where
  abbrev at : Sleeper → Waker → Scene
  at a w = record { table = t; lk = lk; condition = k; sleeper = a; waker = w }

  asleep_state : (get i (release i (fall_asleep i c t))).state ≡ sleeping
  asleep_state = rw (==_refl i) refl

  asleep_chan : (get i (release i (fall_asleep i c t))).chan ≡ c
  asleep_chan = rw (==_refl i) refl

  locked_now : (get i (acquire i t)).lock ≡ true
  locked_now = rw (==_refl i) refl

  sleeper-Keeps :
      (a : Sleeper) (w : Waker) → Stands i c t lk k a w → Keeps i c (sleeper_step i c (at a w))
  unfolding sleeper_step
  sleeper-Keeps with_lk outside (l, n) = elim (Bool-cases ((get i t).lock)) [
    | inl e ↦ rw e tt
    | inr e ↦ rw e (l, n, locked_now)
  ]
  sleeper-Keeps with_both outside (l, n, p) = (n, p)
  sleeper-Keeps with_p_lock outside (n, p) = (n, asleep_state, asleep_chan)
  sleeper-Keeps with_p_lock inside (n, p) = (n, asleep_state, asleep_chan)
  sleeper-Keeps away w g = tt
  sleeper-Keeps with_lk inside g = absurd g
  sleeper-Keeps with_lk past_wakeup g = absurd g
  sleeper-Keeps with_lk left g = absurd g
  sleeper-Keeps with_both inside g = absurd g
  sleeper-Keeps with_both past_wakeup g = absurd g
  sleeper-Keeps with_both left g = absurd g
  sleeper-Keeps with_p_lock past_wakeup g = absurd g
  sleeper-Keeps with_p_lock left g = absurd g

  waker-Keeps :
      (a : Sleeper) (w : Waker)
      → i < nproc
      → Stands i c t lk k a w
      → Keeps i c (waker_step i c (at a w))
  unfolding waker_step
  waker-Keeps with_lk outside lt (l, n) = rw l tt
  waker-Keeps with_both outside lt (l, n, p) = rw l tt
  waker-Keeps with_p_lock outside lt (n, p) = elim (Bool-cases lk) [
    | inl e ↦ rw e tt
    | inr e ↦ rw e (refl, p)
  ]
  waker-Keeps with_p_lock inside lt (n, p) = rw p tt
  waker-Keeps away outside lt (n, s, h) = elim (Bool-cases lk) [
    | inl e ↦ rw e tt
    | inr e ↦ rw e (refl, s, h)
  ]
  waker-Keeps away inside lt (n, s, h) = elim (Bool-cases ((get i t).lock)) [
    | inl e ↦ rw e tt
    | inr e ↦ rw e (n, (wakeup-Woken c t i lt).wakes s h)
  ]
  waker-Keeps away past_wakeup lt g = g
  waker-Keeps away left lt g = tt
  waker-Keeps with_lk inside lt g = absurd g
  waker-Keeps with_lk past_wakeup lt g = absurd g
  waker-Keeps with_lk left lt g = absurd g
  waker-Keeps with_both inside lt g = absurd g
  waker-Keeps with_both past_wakeup lt g = absurd g
  waker-Keeps with_both left lt g = absurd g
  waker-Keeps with_p_lock past_wakeup lt g = absurd g
  waker-Keeps with_p_lock left lt g = absurd g

Starts-Good : (i : ℕ) (c : Chan) (x : Scene) → Starts x → Good i c x
Starts-Good i c x s =
    subst (λ a. Stands i c x.table x.lk x.condition a x.waker) (sym s.sleeper)
      (subst (Stands i c x.table x.lk x.condition with_lk) (sym s.waker) (s.held, s.untrue))

Runs-Good : (i : ℕ) (c : Chan) {x y : Scene} → i < nproc → Starts x → Runs i c x y → Good i c y
Runs-Good i c {x = x} lt s begun = Starts-Good i c x s
Runs-Good i c lt s (sleeper_moves {y} r e) =
    subst (Keeps i c) e
      (sleeper-Keeps i c y.table y.lk y.condition y.sleeper y.waker (Runs-Good i c lt s r))
Runs-Good i c lt s (waker_moves {y} r e) =
    subst (Keeps i c) e
      (waker-Keeps i c y.table y.lk y.condition y.sleeper y.waker lt (Runs-Good i c lt s r))

-- The waker has called `wakeup`.
abbrev pub Woke : Waker → Type 0
Woke w = (w ≡ past_wakeup) ⊎ (w ≡ left)

Stands-Woke :
    (i : ℕ) (c : Chan) (t : Table) (lk k : Bool) (a : Sleeper) (w : Waker)
    → Woke w
    → Stands i c t lk k a w
    → (a ≡ away) × ((get i t).state ≡ runnable)
Stands-Woke i c t lk k away past_wakeup o g = (refl, g.1)
Stands-Woke i c t lk k away left o g = (refl, g.1)
Stands-Woke i c t lk k a outside o g = elim o [ inl e ↦ absurd cc | inr e ↦ absurd cc ]
Stands-Woke i c t lk k a inside o g = elim o [ inl e ↦ absurd cc | inr e ↦ absurd cc ]
Stands-Woke i c t lk k with_lk past_wakeup o g = absurd g
Stands-Woke i c t lk k with_lk left o g = absurd g
Stands-Woke i c t lk k with_both past_wakeup o g = absurd g
Stands-Woke i c t lk k with_both left o g = absurd g
Stands-Woke i c t lk k with_p_lock past_wakeup o g = absurd g
Stands-Woke i c t lk k with_p_lock left o g = absurd g

-- No wakeup is lost: let process `i` find the condition false and call `sleep` with `lk` held, and
-- let another process acquire `lk`, make the condition true and call `wakeup`, with the steps of
-- the two in any order. Once the other has called `wakeup`, process `i` has gone to sleep and is
-- runnable again.
pub Runs-Woke :
    (i : ℕ) (c : Chan) {x y : Scene}
    → i < nproc
    → Starts x
    → Runs i c x y
    → Woke y.waker
    → (y.sleeper ≡ away) × ((get i y.table).state ≡ runnable)
Runs-Woke i c {y = y} lt s r o =
    Stands-Woke i c y.table y.lk y.condition y.sleeper y.waker o (Runs-Good i c lt s r)
