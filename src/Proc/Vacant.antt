-- ===== src/Proc/Vacant.antt =====
-- The search of `allocproc` for a process that is not in use.
use mathlib.Core.Path.{subst}
use mit6s.Base.{
  ℕ, zero, suc, ◌+◌, ◌≤◌, ◌<◌, ◌≡◌, ◌≢◌, inl, inr, refl, ap, sym, ◌∙◌, arith, Bool-cases, Option,
  none, some, Bool, true, false, ==_ne, ℕ_discrete,
}
use mit6s.Proc.{unused, is, Table, get, acquire, release, locked, find_unused}
use mit6s.Proc.Slots.{get-put, SameButLock, SameButLock-trans, pass-SameButLock, SameGlobals}

abbrev pub is_unused : ℕ → Table → Bool
is_unused i s = is (get i s).state unused

-- Process `i` is the first from `lo` on that is unused; its lock is held.
pub record Vacant (lo i : ℕ) (s t : Table) : Type 0 where
  pub free : is_unused i s ≡ true
  pub first : (j : ℕ) → lo ≤ j → j < i → is_unused j s ≡ false
  pub taken : get i t ≡ locked (get i s)
  pub others : (j : ℕ) → i ≢ j → SameButLock (get j s) (get j t)
  pub globals : SameGlobals s t

pub record AllUsed (lo hi : ℕ) (s t : Table) : Type 0 where
  pub used : (j : ℕ) → lo ≤ j → j < hi → is_unused j s ≡ false
  pub others : (j : ℕ) → SameButLock (get j s) (get j t)
  pub globals : SameGlobals s t

abbrev pub FindEnd : ℕ → ℕ → Table → Option ℕ × Table → Type 0
FindEnd lo hi s (some i, t) = (lo ≤ i) × (i < hi) × Vacant lo i s t
FindEnd lo hi s (none, t) = AllUsed lo hi s t

Vacant-here : (i : ℕ) (s : Table) → is_unused i s ≡ true → Vacant i i s (acquire i s)
Vacant-here i s e = record {
  free = e;
  first = λ j lo hi. absurd (omega arith);
  taken = get-put i (locked (get i s)) s;
  others = λ j ne. rw (==_ne i j ne) refl;
  globals = (refl, refl, refl);
}

find_unused-here :
    (k i : ℕ) (s : Table) → is_unused i s ≡ true → find_unused (suc k) i s ≡ (some i, acquire i s)
unfolding find_unused
find_unused-here k i s e = rw e refl

find_unused-pass :
    (k i : ℕ) (s : Table)
    → is_unused i s ≡ false
    → find_unused (suc k) i s ≡ find_unused k (i + 1) (release i (acquire i s))
unfolding find_unused
find_unused-pass k i s e = rw e refl

pass-FindEnd :
    (lo hi : ℕ) (s : Table) (out : Option ℕ × Table)
    → is_unused lo s ≡ false
    → FindEnd (lo + 1) hi (release lo (acquire lo s)) out
    → FindEnd lo hi s out
pass-FindEnd lo hi s (some i, t) u (le, lt, h) =
    let t' : Table = release lo (acquire lo s) in
    let same : (j : ℕ) → SameButLock (get j s) (get j t') = pass-SameButLock lo s in
    let un : (j : ℕ) → is_unused j t' ≡ is_unused j s = λ j. ap (λ p. is p.state unused) (same j) in
    (
      omega arith,
      lt,
      record {
        free = sym (un i) ∙ h.free;
        first = λ j a b. elim (ℕ_discrete lo j) [
          | yes q ↦ rw (sym q) u
          | no nq ↦ sym (un j) ∙ h.first j (omega arith) b
        ];
        taken = h.taken ∙ ap locked (same i);
        others = λ j nj. SameButLock-trans (get j s) (get j t') (get j t) (same j) (h.others j nj);
        globals = h.globals;
      },
    )
pass-FindEnd lo hi s (none, t) u h =
    let t' : Table = release lo (acquire lo s) in
    let same : (j : ℕ) → SameButLock (get j s) (get j t') = pass-SameButLock lo s in
    let un : (j : ℕ) → is_unused j t' ≡ is_unused j s = λ j. ap (λ p. is p.state unused) (same j) in
    record {
      used = λ j a b. elim (ℕ_discrete lo j) [
        | yes q ↦ rw (sym q) u
        | no nq ↦ sym (un j) ∙ h.used j (omega arith) b
      ];
      others = λ j. SameButLock-trans (get j s) (get j t') (get j t) (same j) (h.others j);
      globals = h.globals;
    }

-- The search ends at the first unused process of the range, or finds that there is none.
pub find_unused-FindEnd : (k i : ℕ) (s : Table) → FindEnd i (i + k) s (find_unused k i s)
unfolding find_unused
find_unused-FindEnd zero i s = record {
  used = λ j lo hi. absurd (omega arith);
  others = λ j. refl;
  globals = (refl, refl, refl);
}
find_unused-FindEnd (suc k) i s = elim (Bool-cases (is_unused i s)) [
  | inl e ↦
      subst (FindEnd i (i + suc k) s) (sym (find_unused-here k i s e))
        (omega arith, omega arith, Vacant-here i s e)
  | inr e ↦
      let eh : i + suc k ≡ i + 1 + k = omega arith in
      subst (FindEnd i (i + suc k) s) (sym (find_unused-pass k i s e)) (
        rw eh (
          pass-FindEnd i (i + 1 + k) s _ e
            (find_unused-FindEnd k (i + 1) (release i (acquire i s)))))
]
