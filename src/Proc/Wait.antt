-- ===== src/Proc/Wait.antt =====
-- `wait`: what the scan finds, and how the call ends.
use mathlib.Core.Path.{subst}
use mit6s.Base.{
  ℕ, ◌+◌, ◌≤◌, ◌<◌, ◌≡◌, ◌≢◌, ◌⊎◌, inl, inr, refl, ap, sym, ◌∙◌, arith, Bool, true, false,
  ℕ_discrete, ◌&&◌, ◌||◌, pos, minus_one,
}
use mit6s.Proc.{
  sleeping, zombie, Proc, proc_chan, is, Table, get, unlocked, is_parent, cleared, WaitEnd,
  returned, asleep,
}
use mit6s.Proc.Slots.{SameButLock, SameButLock-trans}

abbrev pub is_child : ℕ → ℕ → Table → Bool
is_child i j s = is_parent i (get j s).parent

abbrev pub is_dead_child : ℕ → ℕ → Table → Bool
is_dead_child i j s = is_child i j s && is (get j s).state zombie

abbrev pub SameCounts : Table → Table → Type 0
SameCounts s t = (t.nextpid ≡ s.nextpid) × (t.initproc ≡ s.initproc)

abbrev pub AllButLock : Table → Table → Type 0
AllButLock s t = (j : ℕ) → SameButLock (get j s) (get j t)

module _ (i addr : ℕ) (copied : Bool) (lo hi : ℕ) (kids : Bool) (s t : Table) where
  abbrev pub NoneDead : ℕ → Type 0
  NoneDead end = (x : ℕ) → lo ≤ x → x < end → is_dead_child i x s ≡ false

  -- The four ends of a scan of the processes from `lo` up to `hi`, given whether a child has been
  -- seen before.
  pub data WaitOf : WaitEnd → Type 0 where
    -- The first child that has exited is freed, and its pid returned.
    reaped :
        (j : ℕ)
        → lo ≤ j
        → j < hi
        → is_dead_child i j s ≡ true
        → NoneDead j
        → (addr ≡ 0) ⊎ (copied ≡ true)
        → get j t ≡ unlocked (cleared (get j s))
        → ((x : ℕ) → j ≢ x → SameButLock (get x s) (get x t))
        → SameCounts s t
        → WaitOf (returned (pos (get j s).pid))
    -- Its status could not be copied out.
    not_copied :
        (j : ℕ)
        → lo ≤ j
        → j < hi
        → is_dead_child i j s ≡ true
        → NoneDead j
        → addr ≢ 0
        → copied ≡ false
        → AllButLock s t
        → SameCounts s t
        → WaitOf (returned minus_one)
    -- There is no child, or the process is killed.
    gives_up :
        NoneDead hi
        → ((kids ≡ false) × ((x : ℕ) → lo ≤ x → x < hi → is_child i x s ≡ false))
          ⊎ ((get i s).killed ≡ true)
        → AllButLock s t
        → SameCounts s t
        → WaitOf (returned minus_one)
    -- There are children, none of which has exited.
    sleeps :
        NoneDead hi
        → (kids ≡ true) ⊎ ((x : ℕ) × (lo ≤ x) × (x < hi) × (is_child i x s ≡ true))
        → (get i s).killed ≡ false
        → get i t ≡ record (get i s) { lock = (get i t).lock; chan = proc_chan i; state = sleeping }
        → ((x : ℕ) → i ≢ x → SameButLock (get x s) (get x t))
        → SameCounts s t
        → WaitOf asleep

-- A process `lo` that is passed over, which changes at most its lock.
module _ (i lo : ℕ) (s u : Table) (nd : is_dead_child i lo s ≡ false) (same : AllButLock s u) where
  dead-same : (x : ℕ) → is_dead_child i x u ≡ is_dead_child i x s
  dead-same x = ap (λ p. is_parent i p.parent && is p.state zombie) (same x)

  child-same : (x : ℕ) → is_child i x u ≡ is_child i x s
  child-same x = ap (λ p. is_parent i p.parent) (same x)

  but_lock_trans :
      (t : Table) (x : ℕ) → SameButLock (get x u) (get x t) → SameButLock (get x s) (get x t)
  but_lock_trans t x = SameButLock-trans (get x s) (get x u) (get x t) (same x)

  none_dead :
      (end : ℕ)
      → ((x : ℕ) → lo + 1 ≤ x → x < end → is_dead_child i x u ≡ false)
      → (x : ℕ) → lo ≤ x
      → x < end
      → is_dead_child i x s ≡ false
  none_dead end h x a b = elim (ℕ_discrete lo x) [
    | yes q ↦ rw (sym q) nd
    | no nq ↦ sym (dead-same x) ∙ h x (omega arith) b
  ]

  no_child :
      (hi : ℕ) (kids : Bool)
      → kids || is_child i lo s ≡ false
      → ((x : ℕ) → lo + 1 ≤ x → x < hi → is_child i x u ≡ false)
      → (kids ≡ false) × ((x : ℕ) → lo ≤ x → x < hi → is_child i x s ≡ false)
  no_child hi true e h = absurd (ground arith)
  no_child hi false e h = (
    refl,
    λ x a b. elim (ℕ_discrete lo x) [
      | yes q ↦ rw (sym q) e
      | no nq ↦ sym (child-same x) ∙ h x (omega arith) b
    ],
  )

  some_child :
      (hi : ℕ) (kids : Bool)
      → lo < hi
      → (kids || is_child i lo s ≡ true)
        ⊎ ((x : ℕ) × (lo + 1 ≤ x) × (x < hi) × (is_child i x u ≡ true))
      → (kids ≡ true) ⊎ ((x : ℕ) × (lo ≤ x) × (x < hi) × (is_child i x s ≡ true))
  some_child hi true lt c = inl refl
  some_child hi false lt (inl e) = inr (lo, omega arith, lt, e)
  some_child hi false lt (inr (x, a, b, e)) = inr (x, omega arith, b, sym (child-same x) ∙ e)

  pub pass-WaitOf :
      (addr : ℕ) (copied : Bool) (hi : ℕ) (kids : Bool) (t : Table) {r : WaitEnd}
      → lo < hi
      → SameCounts s u
      → WaitOf i addr copied (lo + 1) hi (kids || is_child i lo s) u t r
      → WaitOf i addr copied lo hi kids s t r
  pass-WaitOf addr copied hi kids t lt sc (reaped j a b d n c e o g) =
      subst (λ m. WaitOf i addr copied lo hi kids s t (returned (pos m)))
        (sym (ap (λ p. p.pid) (same j)))
        (reaped j (omega arith) b (sym (dead-same j) ∙ d) (none_dead j n) c
          (e ∙ ap (λ p. unlocked (cleared p)) (same j)) (λ x nx. but_lock_trans t x (o x nx))
          (g.0 ∙ sc.0, g.1 ∙ sc.1))
  pass-WaitOf addr copied hi kids t lt sc (not_copied j a b d n c e o g) =
      not_copied j (omega arith) b (sym (dead-same j) ∙ d) (none_dead j n) c e
        (λ x. but_lock_trans t x (o x)) (g.0 ∙ sc.0, g.1 ∙ sc.1)
  pass-WaitOf addr copied hi kids t lt sc (gives_up n k o g) =
      gives_up (none_dead hi n)
        (elim k [
          | inl (e, h) ↦ inl (no_child hi kids e h)
          | inr e ↦ inr (ap (λ p. p.killed) (sym (same i)) ∙ e)
        ])
        (λ x. but_lock_trans t x (o x)) (g.0 ∙ sc.0, g.1 ∙ sc.1)
  pass-WaitOf addr copied hi kids t lt sc (sleeps n k l e o g) =
      let asleep_as : Proc → Proc =
        λ p. record p { lock = (get i t).lock; chan = proc_chan i; state = sleeping } in
      sleeps (none_dead hi n) (some_child hi kids lt k) (ap (λ p. p.killed) (sym (same i)) ∙ l)
        (e ∙ ap asleep_as (same i)) (λ x nx. but_lock_trans t x (o x nx)) (g.0 ∙ sc.0, g.1 ∙ sc.1)
