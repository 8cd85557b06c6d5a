-- ===== src/Lock/Leave.antt =====
-- The end of `acquire` and the steps of `release` keep the invariant.
use mathlib.Core.Path.{subst}
use mit6s.Base.{
  ℕ, ◌≡◌, ◌≢◌, inl, inr, sym, ap, ◌∙◌, arith, Bool, true, false, ◌&&◌, Option, none, some, some_inj,
  update, Bool-cases,
}
use mit6s.Lock.{
  Spinlock, Phase, outside, taken, releasing, System, is_cpu, holding, acquire_last, release_first,
  set_lock, set_phase,
}
use mit6s.Lock.Inside.{In, spins, Inv, update_cases}

-- What a phase of CPU `d` says after CPU `c` has gone to another one.
pub other_phase :
    (f : ℕ → Phase) (c d : ℕ) (x y : Phase) → x ≢ y → update f c x d ≡ y → (c ≢ d) × (f d ≡ y)
other_phase f c d x y ne p = elim (update_cases f c x d) [
  | inl (q, e) ↦ absurd (ne (sym e ∙ p))
  | inr (nd, e) ↦ (nd, sym e ∙ p)
]

same_spins :
    (f : ℕ → Phase) (c : ℕ) (x : Phase)
    → spins x ≡ spins (f c)
    → (d : ℕ) → spins (update f c x d) ≡ spins (f d)
same_spins f c x h d = elim (update_cases f c x d) [
  | inl (q, e) ↦ ap spins e ∙ h ∙ ap (λ j. spins (f j)) q
  | inr (nd, e) ↦ ap spins e
]

-- A change of the field `cpu` of a lock leaves `locked` as it is.
same_locked :
    (f : ℕ → Spinlock) (l : ℕ) (o : Option ℕ) (k : ℕ)
    → (update f l (record (f l) { cpu = o }) k).locked ≡ (f k).locked
same_locked f l o k = elim (update_cases f l (record (f l) { cpu = o }) k) [
  | inl (q, e) ↦ ap (λ y. Spinlock.locked y) e ∙ ap (λ j. (f j).locked) q
  | inr (ne, e) ↦ ap (λ y. Spinlock.locked y) e
]

pub acquire_last-Inv :
    (c l : ℕ) (s : System) → s.phase c ≡ taken l → Inv s → Inv (acquire_last c l s)
unfolding acquire_last
acquire_last-Inv c l s tk v =
    let x : Spinlock = record (s.locks l) { cpu = some c } in
    let mine : In l (v.held c) = v.inside c l (inr (inl tk)) in
    record {
      held = v.held;
      distinct = v.distinct;
      locked = λ d k m. same_locked s.locks l (some c) k ∙ v.locked d k m;
      inside = λ d k w. elim w [
        | inl o ↦ elim (update_cases s.locks l x k) [
          | inl (q, e) ↦
              let cd : c ≡ d = some_inj (sym (ap (λ y. Spinlock.cpu y) e) ∙ o) in
              subst (λ j. In k (v.held j)) cd (subst (λ j. In j (v.held c)) q mine)
          | inr (ne, e) ↦ v.inside d k (inl (sym (ap (λ y. Spinlock.cpu y) e) ∙ o))
        ]
        | inr (inl p) ↦
            v.inside d k (inr (inl (other_phase s.phase c d outside (taken k) (λ e. cc) p).1))
        | inr (inr p) ↦
            v.inside d k (inr (inr (other_phase s.phase c d outside (releasing k) (λ e. cc) p).1))
      ];
      alone = v.alone;
      count = λ d.
          let z : spins outside ≡ spins (s.phase c) = sym (ap spins tk) in
          omega (arith, v.count d, same_spins s.phase c outside z d);
      off = v.off;
      clear = λ d k p.
          let (nd, p') = other_phase s.phase c d outside (releasing k) (λ e. cc) p in
          elim (update_cases s.locks l x k) [
            | inl (q, e) ↦ absurd (
                nd (
                  v.alone c d k (subst (λ j. In j (v.held c)) q mine)
                    (v.inside d k (inr (inr p')))))
            | inr (ne, e) ↦ ap (λ y. Spinlock.cpu y) e ∙ v.clear d k p'
          ];
    }

holding-cpu : (c : ℕ) (x : Spinlock) → holding c x ≡ true → x.cpu ≡ some c
unfolding holding
holding-cpu c x h = is_cpu-some (x.locked) (x.cpu) h
  where
    is_cpu-some : (b : Bool) (o : Option ℕ) → (b && is_cpu o c) ≡ true → o ≡ some c
    is_cpu-some true none h = absurd (cc (h))
    is_cpu-some true (some d) h = let e : d ≡ c = ground arith in ap some e
    is_cpu-some false o h = absurd (cc (h))

releasing_inj : {l k : ℕ} → releasing l ≡ releasing k → l ≡ k
releasing_inj e = cc

pub release_first-Inv :
    (c l : ℕ) (s t : System) → s.phase c ≡ outside → release_first c l s ≡ some t → Inv s → Inv t
unfolding release_first
release_first-Inv c l s t out e v = elim (Bool-cases (holding c (s.locks l))) [
  | inr h ↦ absurd (cc (rw h at e))
  | inl h ↦ subst Inv (some_inj (rw h at e)) (released (holding-cpu c (s.locks l) h))
]
  where
    released :
        (s.locks l).cpu ≡ some c
        → Inv (set_phase c (releasing l) (set_lock l (record (s.locks l) { cpu = none }) s))
    released o =
        let x : Spinlock = record (s.locks l) { cpu = none } in
        let mine : In l (v.held c) = v.inside c l (inl o) in
        record {
          held = v.held;
          distinct = v.distinct;
          locked = λ d k m. same_locked s.locks l none k ∙ v.locked d k m;
          inside = λ d k w. elim w [
            | inl o ↦ elim (update_cases s.locks l x k) [
              | inl (q, e) ↦ absurd (cc (sym (ap (λ y. Spinlock.cpu y) e) ∙ o))
              | inr (ne, e) ↦ v.inside d k (inl (sym (ap (λ y. Spinlock.cpu y) e) ∙ o))
            ]
            | inr (inl p) ↦
                v.inside d k
                  (inr (inl (other_phase s.phase c d (releasing l) (taken k) (λ e. cc) p).1))
            | inr (inr p) ↦ elim (update_cases s.phase c (releasing l) d) [
              | inl (q, e) ↦
                  let lk : l ≡ k = releasing_inj (sym e ∙ p) in
                  subst (λ j. In j (v.held d)) lk (subst (λ j. In l (v.held j)) q mine)
              | inr (nd, e) ↦ v.inside d k (inr (inr (sym e ∙ p)))
            ]
          ];
          alone = v.alone;
          count = λ d.
              let z : spins (releasing l) ≡ spins (s.phase c) = sym (ap spins out) in
              omega (arith, v.count d, same_spins s.phase c (releasing l) z d);
          off = v.off;
          clear = λ d k p. elim (update_cases s.locks l x k) [
            | inl (q, e) ↦ ap (λ y. Spinlock.cpu y) e
            | inr (ne, e) ↦
                ap (λ y. Spinlock.cpu y) e ∙ elim (update_cases s.phase c (releasing l) d) [
                  | inl (q, f) ↦ absurd (ne (releasing_inj (sym f ∙ p)))
                  | inr (nd, f) ↦ v.clear d k (sym f ∙ p)
                ]
          ];
        }
