-- ===== src/Lock/Unlock.antt =====
-- The end of `release` keeps the invariant, and `pop_off` does not panic in it.
use mathlib.Core.Path.{subst}
use mit6s.Base.{
  ℕ, ◌-◌, ◌≡◌, ◌≢◌, inl, inr, refl, sym, ap, ◌∙◌, arith, Bool, false, ◌&&◌, some, ◌==◌, ltb, List,
  update, update_self, update_ne, ℕ_discrete,
}
use mit6s.Lock.{
  Spinlock, Cpu, outside, taken, releasing, System, pop_off, release_last, set_lock, set_phase,
  set_cpu,
}
use mit6s.Lock.Inside.{
  In, Distinct, spins, Inv, update_cases, without, In-without, without-Distinct, without-In,
  length-without,
}
use mit6s.Lock.Leave.{other_phase}

-- The CPU after `pop_off`.
abbrev pub popped : Cpu → Cpu
popped c = record c { noff = c.noff - 1; intr = (c.noff - 1 == 0) && c.intena }

pop_off-popped : (c : Cpu) → c.intr ≡ false → c.noff ≢ 0 → pop_off c ≡ some (popped c)
unfolding pop_off
pop_off-popped c i ne = let e : ltb c.noff 1 ≡ false = ground arith in rw (i, e) refl

abbrev unlocked : ℕ → ℕ → System → System
unlocked c l s =
    set_phase c outside
      (set_cpu c (popped (s.cpus c)) (set_lock l (record (s.locks l) { locked = false }) s))

module _ (c l : ℕ) (s : System) (rel : s.phase c ≡ releasing l) (v : Inv s) where
  mine : In l (v.held c)
  mine = v.inside c l (inr (inr rel))

  some_off : (s.cpus c).noff ≢ 0
  some_off z = absurd (omega (arith, v.count c, length-without l (v.held c) mine))

  -- `release` past its first part does not panic.
  pub release_last-unlocked : release_last c l s ≡ some (unlocked c l s)
  unfolding release_last
  release_last-unlocked =
      let e = pop_off-popped (s.cpus c) (v.off c some_off) some_off in rw (e, release_last) refl

  abbrev less : ℕ → List ℕ
  less = update v.held c (without l (v.held c))

  abbrev x : Spinlock
  x = record (s.locks l) { locked = false }

  -- What is held after the step was held before, and is another lock.
  less-In : (d k : ℕ) → In k (less d) → In k (v.held d) × (l ≢ k)
  less-In d k m = elim (update_cases v.held c (without l (v.held c)) d) [
    | inl (q, e) ↦
        let (a, b) = In-without l k (v.held c) (v.distinct c) (subst (In k) e m) in
        (subst (λ j. In k (v.held j)) q a, b)
    | inr (ne, e) ↦
        let a = subst (In k) e m in
        (a, λ r. ne (v.alone c d l mine (subst (λ j. In j (v.held d)) (sym r) a)))
  ]

  -- Another lock that was held is held.
  In-less : (d k : ℕ) → In k (v.held d) → ((c ≡ d) → l ≢ k) → In k (less d)
  In-less d k m ne = elim (update_cases v.held c (without l (v.held c)) d) [
    | inl (q, e) ↦
        subst (In k) (sym e)
          (without-In l k (v.held c) (subst (λ j. In k (v.held j)) (sym q) m) (ne q))
    | inr (nd, e) ↦ subst (In k) (sym e) m
  ]

  cpu_same : (k : ℕ) → (update s.locks l x k).cpu ≡ (s.locks k).cpu
  cpu_same k = elim (update_cases s.locks l x k) [
    | inl (q, e) ↦ ap (λ y. Spinlock.cpu y) e ∙ ap (λ j. (s.locks j).cpu) q
    | inr (ne, e) ↦ ap (λ y. Spinlock.cpu y) e
  ]

  pub unlocked-Inv : Inv (unlocked c l s)
  unlocked-Inv = record {
    held = less;
    distinct = λ d. elim (update_cases v.held c (without l (v.held c)) d) [
      | inl (q, e) ↦ subst Distinct (sym e) (without-Distinct l (v.held c) (v.distinct c))
      | inr (ne, e) ↦ subst Distinct (sym e) (v.distinct d)
    ];
    locked = λ d k m.
        let (a, ne) = less-In d k m in
        ap (λ y. Spinlock.locked y) (update_ne s.locks l x k ne) ∙ v.locked d k a;
    inside = λ d k w. elim w [
      | inl o ↦
          let o' : (s.locks k).cpu ≡ some d = sym (cpu_same k) ∙ o in
          In-less d k (v.inside d k (inl o'))
            (λ q r. cc (v.clear c l rel, ap (λ j. (s.locks j).cpu) r, o'))
      | inr (inl p) ↦
          let (nd, p') = other_phase s.phase c d outside (taken k) (λ e. cc) p in
          In-less d k (v.inside d k (inr (inl p'))) (λ q. absurd (nd q))
      | inr (inr p) ↦
          let (nd, p') = other_phase s.phase c d outside (releasing k) (λ e. cc) p in
          In-less d k (v.inside d k (inr (inr p'))) (λ q. absurd (nd q))
    ];
    alone = λ d d' k m m'. v.alone d d' k ((less-In d k m).0) ((less-In d' k m').0);
    count = λ d. elim (ℕ_discrete c d) [
      | yes q ↦
          let e1 : less d ≡ without l (v.held c) =
            ap less (sym q) ∙ update_self v.held c (without l (v.held c)) in
          let e2 : update s.phase c outside d ≡ outside =
            ap (update s.phase c outside) (sym q) ∙ update_self s.phase c outside in
          let e3 : update s.cpus c (popped (s.cpus c)) d ≡ popped (s.cpus c) =
            ap (update s.cpus c (popped (s.cpus c))) (sym q)
            ∙ update_self s.cpus c (popped (s.cpus c)) in
          let z : spins (s.phase c) ≡ 0 = ap spins rel in
          rw (e1, e2, e3) (omega (arith, v.count c, length-without l (v.held c) mine))
      | no ne ↦
          rw
            (
              update_ne v.held c (without l (v.held c)) d ne,
              update_ne s.phase c outside d ne,
              update_ne s.cpus c (popped (s.cpus c)) d ne,
            )
            (v.count d)
    ];
    off = λ d nz. elim (update_cases s.cpus c (popped (s.cpus c)) d) [
      | inl (q, e) ↦
          let n : (popped (s.cpus c)).noff ≢ 0 = λ z. nz (ap (λ y. Cpu.noff y) e ∙ z) in
          ap (λ y. Cpu.intr y) e ∙ still_off ((s.cpus c).noff - 1) ((s.cpus c).intena) n
      | inr (ne, e) ↦ ap (λ y. Cpu.intr y) e ∙ v.off d (λ z. nz (ap (λ y. Cpu.noff y) e ∙ z))
    ];
    clear = λ d k p.
        let (nd, p') = other_phase s.phase c d outside (releasing k) (λ e. cc) p in
        cpu_same k ∙ v.clear d k p';
  }
    where
      still_off : (n : ℕ) (b : Bool) → n ≢ 0 → ((n == 0) && b) ≡ false
      still_off n b ne = let e : (n == 0) ≡ false = ground arith in rw e refl
