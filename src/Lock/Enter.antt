-- ===== src/Lock/Enter.antt =====
-- The steps of `acquire` keep the invariant.
use mathlib.Core.Path.{subst}
use mit6s.Base.{
  ℕ, ◌≡◌, ◌⊎◌, inl, inr, sym, ap, ◌∙◌, arith, true, false, some, some_inj, List, ◌∷◌, length,
  update, update_self, update_ne, ℕ_discrete, Bool-cases,
}
use mit6s.Lock.{
  Spinlock, Cpu, outside, spinning, taken, System, holding, push_off, acquire_first, swap, set_lock,
  set_phase, set_cpu,
}
use mit6s.Lock.Inside.{In, Distinct, spins, Inv, update_cases}

-- A CPU that enters the loop of `acquire` or finds the lock taken is inside of nothing new.
abbrev spun : ℕ → ℕ → System → System
spun c l s = set_phase c (spinning l) (set_cpu c (push_off (s.cpus c)) s)

spun-Inv : (c l : ℕ) (s : System) → s.phase c ≡ outside → Inv s → Inv (spun c l s)
unfolding push_off
spun-Inv c l s out v = record {
  held = v.held;
  distinct = v.distinct;
  locked = v.locked;
  inside = λ d k w. v.inside d k (elim w [
    | inl o ↦ inl o
    | inr (inl p) ↦ elim (update_cases s.phase c (spinning l) d) [
      | inl (q, e) ↦ absurd (cc (sym e ∙ p))
      | inr (ne, e) ↦ inr (inl (sym e ∙ p))
    ]
    | inr (inr p) ↦ elim (update_cases s.phase c (spinning l) d) [
      | inl (q, e) ↦ absurd (cc (sym e ∙ p))
      | inr (ne, e) ↦ inr (inr (sym e ∙ p))
    ]
  ]);
  alone = v.alone;
  count = λ d. elim (ℕ_discrete c d) [
    | yes q ↦
        let e1 : update s.cpus c (push_off (s.cpus c)) d ≡ push_off (s.cpus c) =
          ap (update s.cpus c (push_off (s.cpus c))) (sym q)
          ∙ update_self s.cpus c (push_off (s.cpus c)) in
        let e2 : update s.phase c (spinning l) d ≡ spinning l =
          ap (update s.phase c (spinning l)) (sym q) ∙ update_self s.phase c (spinning l) in
        let z : spins (s.phase c) ≡ 0 = ap spins out in
        let hq : length (v.held c) ≡ length (v.held d) = ap (λ k. length (v.held k)) q in
        rw (e1, e2) (omega (arith, v.count c))
    | no ne ↦
        rw (update_ne s.cpus c (push_off (s.cpus c)) d ne, update_ne s.phase c (spinning l) d ne)
          (v.count d)
  ];
  off = λ d nz. elim (update_cases s.cpus c (push_off (s.cpus c)) d) [
    | inl (q, e) ↦ ap (λ x. Cpu.intr x) e
    | inr (ne, e) ↦ ap (λ x. Cpu.intr x) e ∙ v.off d (λ z. nz (ap (λ x. Cpu.noff x) e ∙ z))
  ];
  clear = λ d k p. elim (update_cases s.phase c (spinning l) d) [
    | inl (q, e) ↦ absurd (cc (sym e ∙ p))
    | inr (ne, e) ↦ v.clear d k (sym e ∙ p)
  ];
}

pub acquire_first-Inv :
    (c l : ℕ) (s t : System) → s.phase c ≡ outside → acquire_first c l s ≡ some t → Inv s → Inv t
unfolding acquire_first
acquire_first-Inv c l s t out e v = elim (Bool-cases (holding c (s.locks l))) [
  | inl h ↦ absurd (cc (rw h at e))
  | inr h ↦ subst Inv (some_inj (rw h at e)) (spun-Inv c l s out v)
]

-- The lock was free: the CPU is inside of it now.
abbrev won : ℕ → ℕ → System → System
won c l s = set_phase c (taken l) (set_lock l (record (s.locks l) { locked = true }) s)

won-Inv :
    (c l : ℕ) (s : System)
    → s.phase c ≡ spinning l
    → (s.locks l).locked ≡ false
    → Inv s
    → Inv (won c l s)
won-Inv c l s spin unl v =
    let x : Spinlock = record (s.locks l) { locked = true } in
    let nobody : (d : ℕ) → ¬ (In l (v.held d)) = λ d m. cc (v.locked d l m, unl) in
    let more : ℕ → List ℕ = update v.held c (l ∷ v.held c) in
    let split : (d k : ℕ) → In k (more d) → ((c ≡ d) × (k ≡ l)) ⊎ In k (v.held d) = λ d k m.
      elim (update_cases v.held c (l ∷ v.held c) d) [
        | inl (q, f) ↦ elim (subst (In k) f m) [
          | inl r ↦ inl (q, r)
          | inr m' ↦ inr (subst (λ j. In k (v.held j)) q m')
        ]
        | inr (nd, f) ↦ inr (subst (In k) f m)
      ] in
    record {
      held = more;
      distinct = λ d. elim (update_cases v.held c (l ∷ v.held c) d) [
        | inl (q, e) ↦ subst Distinct (sym e) (nobody c, v.distinct c)
        | inr (ne, e) ↦ subst Distinct (sym e) (v.distinct d)
      ];
      locked = λ d k m. elim (update_cases s.locks l x k) [
        | inl (q, e) ↦ ap (λ y. Spinlock.locked y) e
        | inr (ne, e) ↦
            ap (λ y. Spinlock.locked y) e
            ∙ elim (split d k m) [ inl (r, z) ↦ absurd (ne (sym z)) | inr m' ↦ v.locked d k m' ]
      ];
      inside = λ d k w. elim (update_cases v.held c (l ∷ v.held c) d) [
        | inl (q, f) ↦ subst (In k) (sym f) (elim w [
          | inl o ↦ inr (subst (λ j. In k (v.held j)) (sym q) (v.inside d k (inl (old_cpu k ∙ o))))
          | inr (inl p) ↦
              let e : taken l ≡ taken k =
                sym (ap (update s.phase c (taken l)) (sym q) ∙ update_self s.phase c (taken l))
                ∙ p in
              inl (sym (taken_inj e))
          | inr (inr p) ↦ absurd (
              cc (
                sym (ap (update s.phase c (taken l)) (sym q) ∙ update_self s.phase c (taken l))
                ∙ p))
        ])
        | inr (nd, f) ↦ subst (In k) (sym f) (
            v.inside d k (elim w [
              | inl o ↦ inl (old_cpu k ∙ o)
              | inr (inl p) ↦ inr (inl (sym (update_ne s.phase c (taken l) d nd) ∙ p))
              | inr (inr p) ↦ inr (inr (sym (update_ne s.phase c (taken l) d nd) ∙ p))
            ]))
      ];
      alone = λ d d' k m m'. elim (split d k m) [
        | inl (q, z) ↦ elim (split d' k m') [
          | inl (q', z') ↦ sym q ∙ q'
          | inr n ↦ absurd (nobody d' (subst (λ j. In j (v.held d')) z n))
        ]
        | inr n ↦ elim (split d' k m') [
          | inl (q', z') ↦ absurd (nobody d (subst (λ j. In j (v.held d)) z' n))
          | inr n' ↦ v.alone d d' k n n'
        ]
      ];
      count = λ d. elim (ℕ_discrete c d) [
        | yes q ↦
            let e1 : more d ≡ l ∷ v.held c =
              ap more (sym q) ∙ update_self v.held c (l ∷ v.held c) in
            let e2 : update s.phase c (taken l) d ≡ taken l =
              ap (update s.phase c (taken l)) (sym q) ∙ update_self s.phase c (taken l) in
            let z : spins (s.phase c) ≡ 1 = ap spins spin in
            let ec : (s.cpus d).noff ≡ (s.cpus c).noff = ap (λ j. (s.cpus j).noff) (sym q) in
            rw (e1, e2) (omega (arith, v.count c))
        | no ne ↦
            rw (update_ne v.held c (l ∷ v.held c) d ne, update_ne s.phase c (taken l) d ne)
              (v.count d)
      ];
      off = v.off;
      clear = λ d k p. elim (update_cases s.phase c (taken l) d) [
        | inl (q, e) ↦ absurd (cc (sym e ∙ p))
        | inr (ne, e) ↦ sym (old_cpu k) ∙ v.clear d k (sym e ∙ p)
      ];
    }
  where
    old_cpu :
        (k : ℕ) → (s.locks k).cpu ≡ (update s.locks l (record (s.locks l) { locked = true }) k).cpu
    old_cpu k = elim (update_cases s.locks l (record (s.locks l) { locked = true }) k) [
      | inl (q, e) ↦ sym (ap (λ y. Spinlock.cpu y) e ∙ ap (λ j. (s.locks j).cpu) q)
      | inr (ne, e) ↦ sym (ap (λ y. Spinlock.cpu y) e)
    ]

    taken_inj : {k : ℕ} → taken l ≡ taken k → l ≡ k
    taken_inj e = cc

-- The lock was taken: nothing has changed.
lost-Inv :
    (l : ℕ) (s : System)
    → (s.locks l).locked ≡ true
    → Inv s
    → Inv (set_lock l (record (s.locks l) { locked = true }) s)
lost-Inv l s lk v =
    let x : Spinlock = record (s.locks l) { locked = true } in
    let same : (k : ℕ) → (update s.locks l x k).cpu ≡ (s.locks k).cpu = λ k.
      elim (update_cases s.locks l x k) [
        | inl (q, e) ↦ ap (λ y. Spinlock.cpu y) e ∙ ap (λ j. (s.locks j).cpu) q
        | inr (ne, e) ↦ ap (λ y. Spinlock.cpu y) e
      ] in
    record {
      held = v.held;
      distinct = v.distinct;
      locked = λ d k m. elim (update_cases s.locks l x k) [
        | inl (q, e) ↦ ap (λ y. Spinlock.locked y) e
        | inr (ne, e) ↦ ap (λ y. Spinlock.locked y) e ∙ v.locked d k m
      ];
      inside = λ d k w. v.inside d k (elim w [ inl o ↦ inl (sym (same k) ∙ o) | inr p ↦ inr p ]);
      alone = v.alone;
      count = v.count;
      off = v.off;
      clear = λ d k p. same k ∙ v.clear d k p;
    }

pub swap-Inv : (c l : ℕ) (s : System) → s.phase c ≡ spinning l → Inv s → Inv (swap c l s)
unfolding swap
swap-Inv c l s spin v = elim (Bool-cases ((s.locks l).locked)) [
  | inl h ↦ rw h (lost-Inv l s h v)
  | inr h ↦ rw h (won-Inv c l s spin h v)
]
