-- ===== src/Proc/Kin.antt =====
-- What parts of `exit` change of the processes other than the one that exits.
use mit6s.Base.{
  ℕ, ◌≡◌, ◌≢◌, ◌⊎◌, inl, inr, refl, ap, sym, ◌∙◌, arith, Bool-cases, Option, none, some, true,
  if◌then◌else◌,
}
use mit6s.Proc.{sleeping, runnable, Proc, proc_chan, is_parent}
use mit6s.Proc.Calm.{Rested, given_away}

-- Process `j` before and after: at most its lock and its parent have changed, and its state if it
-- slept in `wait`.
pub record Kin (j : ℕ) (p q : Proc) : Type 0 where
  pub others : q ≡ record p { lock = q.lock; state = q.state; parent = q.parent }
  pub stirred :
      (q.state ≡ p.state) ⊎ ((p.state ≡ sleeping) × (p.chan ≡ proc_chan j) × (q.state ≡ runnable))

pub Rested-Kin : (j : ℕ) (p q : Proc) → Rested j p q → Kin j p q
Rested-Kin j p q r = record {
  others =
      let with_parent : Option ℕ → Proc =
        λ x. record p { lock = q.lock; state = q.state; parent = x } in
      r.others ∙ ap with_parent (sym (ap (λ x. x.parent) r.others));
  stirred = r.stirred;
}

pub given_away-Kin : (j i init : ℕ) (p : Proc) → Kin j p (given_away i init p)
given_away-Kin j i init p = elim (Bool-cases (is_parent i p.parent)) [
  | inl e ↦ rw e (record { others = refl; stirred = inl refl })
  | inr e ↦ rw e (record { others = refl; stirred = inl refl })
]

pub Kin-trans : (j : ℕ) (p q r : Proc) → Kin j p q → Kin j q r → Kin j p r
Kin-trans j p q r a b = record {
  others =
      let moved : Proc → Proc =
        λ x. record x { lock = r.lock; state = r.state; parent = r.parent } in
      b.others ∙ ap moved a.others;
  stirred = elim (b.stirred) [
    | inl e ↦ elim (a.stirred) [ inl f ↦ inl (e ∙ f) | inr (f, g, h) ↦ inr (f, g, e ∙ h) ]
    | inr (f, g, h) ↦ elim (a.stirred) [
      | inl k ↦ inr (sym k ∙ f, sym (ap (λ x. x.chan) a.others) ∙ g, h)
      | inr (k, l, m) ↦ inr (k, l, h)
    ]
  ];
}

-- Asleep in `wait`, or already runnable: what a wakeup of process `j` makes runnable.
abbrev pub Waking : ℕ → Proc → Type 0
Waking j p = ((p.state ≡ sleeping) × (p.chan ≡ proc_chan j)) ⊎ (p.state ≡ runnable)

pub Kin-Waking : (j : ℕ) (p q : Proc) → Kin j p q → Waking j p → Waking j q
Kin-Waking j p q k w = elim (k.stirred) [
  | inr (f, g, h) ↦ inr h
  | inl e ↦ elim w [ inl (f, g) ↦ inl (e ∙ f, ap (λ x. x.chan) k.others ∙ g) | inr r ↦ inr (e ∙ r) ]
]

-- The parent of a process whose parent was `o`, after process `i` has given its children away.
abbrev pub new_parent : ℕ → ℕ → Option ℕ → Option ℕ
new_parent i init o = if is_parent i o then some init else o

pub given_away-parent :
    (i init : ℕ) (p : Proc) → (given_away i init p).parent ≡ new_parent i init p.parent
given_away-parent i init p = elim (Bool-cases (is_parent i p.parent)) [
  | inl e ↦ rw e refl
  | inr e ↦ rw e refl
]

pub is_parent-eq : (i : ℕ) (o : Option ℕ) → is_parent i o ≡ true → o ≡ some i
is_parent-eq i none e = absurd (ground arith)
is_parent-eq i (some j) e = ap some (ground arith)

pub not_away : (i init : ℕ) (p : Proc) → p.parent ≢ some i → given_away i init p ≡ p
not_away i init p ne = elim (Bool-cases (is_parent i p.parent)) [
  | inl e ↦ absurd (ne (is_parent-eq i p.parent e))
  | inr e ↦ rw e refl
]
