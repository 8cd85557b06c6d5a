-- ===== src/Proc/Calm.antt =====
-- Parts of `exit` that change of a process at most its lock, and its state from asleep in `wait` to
-- runnable; and `reparent`.
use mit6s.Base.{
  ℕ, zero, suc, ◌+◌, ◌<◌, ◌≡◌, ◌⊎◌, inl, inr, refl, ap, sym, ◌∙◌, arith, Bool-cases, some, true,
  false, if◌then◌else◌, ==_refl, ==_ne, ℕ_discrete, ◌&&◌, leb, ltb,
}
use mit6s.Proc.{
  nproc, sleeping, runnable, Proc, proc_chan, same_chan, is, Table, get, put, unlocked, acquire,
  release, wakeup1, is_parent, reparent_from, reparent,
}
use mit6s.Proc.Slots.{get-put}
use mit6s.Proc.Wake.{same_chan-eq, is-eq, is_refl, same_chan_refl, and-true}

-- Process `j` before and after.
pub record Rested (j : ℕ) (p q : Proc) : Type 0 where
  pub others : q ≡ record p { lock = q.lock; state = q.state }
  pub stirred :
      (q.state ≡ p.state) ⊎ ((p.state ≡ sleeping) × (p.chan ≡ proc_chan j) × (q.state ≡ runnable))

pub record Calm (s t : Table) : Type 0 where
  pub each : (j : ℕ) → Rested j (get j s) (get j t)
  pub same : (t.nextpid ≡ s.nextpid) × (t.initproc ≡ s.initproc)
  pub calls : t.calls ≡ s.calls

Rested-trans : (j : ℕ) (p q r : Proc) → Rested j p q → Rested j q r → Rested j p r
Rested-trans j p q r a b = record {
  others =
      let moved : Proc → Proc = λ x. record x { lock = r.lock; state = r.state } in
      b.others ∙ ap moved a.others;
  stirred = elim (b.stirred) [
    | inl e ↦ elim (a.stirred) [ inl f ↦ inl (e ∙ f) | inr (f, g, h) ↦ inr (f, g, e ∙ h) ]
    | inr (f, g, h) ↦ elim (a.stirred) [
      | inl k ↦ inr (sym k ∙ f, sym (ap (λ x. x.chan) a.others) ∙ g, h)
      | inr (k, l, m) ↦ inr (k, l, h)
    ]
  ];
}

pub Calm-trans : {s t u : Table} → Calm s t → Calm t u → Calm s u
Calm-trans {s} {t} {u} a b = record {
  each = λ j. Rested-trans j (get j s) (get j t) (get j u) (a.each j) (b.each j);
  same = (b.same.0 ∙ a.same.0, b.same.1 ∙ a.same.1);
  calls = b.calls ∙ a.calls;
}

pub acquire-Calm : (i : ℕ) (s : Table) → Calm s (acquire i s)
acquire-Calm i s = record {
  each = λ j. elim (ℕ_discrete i j) [
    | yes e ↦ rw (sym e, ==_refl i) (record { others = refl; stirred = inl refl })
    | no ne ↦ rw (==_ne i j ne) (record { others = refl; stirred = inl refl })
  ];
  same = (refl, refl);
  calls = refl;
}

pub release-Calm : (i : ℕ) (s : Table) → Calm s (release i s)
release-Calm i s = record {
  each = λ j. elim (ℕ_discrete i j) [
    | yes e ↦ rw (sym e, ==_refl i) (record { others = refl; stirred = inl refl })
    | no ne ↦ rw (==_ne i j ne) (record { others = refl; stirred = inl refl })
  ];
  same = (refl, refl);
  calls = refl;
}

-- `wakeup1(p)` with the lock held.
pub record Told (i : ℕ) (s t : Table) : Type 0 where
  pub calm : Calm s t
  pub awake : (get i s).state ≡ sleeping → (get i s).chan ≡ proc_chan i → (get i t).state ≡ runnable

pub wakeup1-Told :
    (i : ℕ) (s : Table) → (get i s).lock ≡ true → (t : Table) × (wakeup1 i s ≡ some t) × Told i s t
unfolding wakeup1
wakeup1-Told i s l =
    elim (Bool-cases (same_chan (get i s).chan (proc_chan i) && is (get i s).state sleeping)) [
      | inl e ↦
          let (c, z) = and-true _ _ e in
          rw (l, e)
            (
              _,
              refl,
              record {
                calm = record {
                  each = λ j. elim (ℕ_discrete i j) [
                    | yes q ↦
                        rw (sym q, ==_refl i)
                          (record {
                            others = refl;
                            stirred = inr (
                              is-eq (get i s).state sleeping z,
                              same_chan-eq (get i s).chan (proc_chan i) c,
                              refl,
                            );
                          })
                    | no ne ↦ rw (==_ne i j ne) (record { others = refl; stirred = inl refl })
                  ];
                  same = (refl, refl);
                  calls = refl;
                };
                awake = λ f g. ap (λ p. p.state) (get-put i _ s);
              },
            )
      | inr e ↦
          rw (l, e)
            (
              s,
              refl,
              record {
                calm = record {
                  each = λ j. record { others = refl; stirred = inl refl };
                  same = (refl, refl);
                  calls = refl;
                };
                awake =
                    λ f g. absurd (ground (arith, is_refl sleeping, same_chan_refl (proc_chan i)));
              },
            )
    ]

reparent_from-child :
    (k j i : ℕ) (s : Table)
    → is_parent i (get j s).parent ≡ true
    → reparent_from (suc k) j i s
      ≡ reparent_from k
          (j + 1)
          i
          (put j (unlocked (record (get j s) { parent = some s.initproc })) s)
unfolding reparent_from
reparent_from-child k j i s e = rw e refl

reparent_from-other :
    (k j i : ℕ) (s : Table)
    → is_parent i (get j s).parent ≡ false
    → reparent_from (suc k) j i s ≡ reparent_from k (j + 1) i s
unfolding reparent_from
reparent_from-other k j i s e = rw e refl

-- What `reparent` makes of a process.
abbrev pub given_away : ℕ → ℕ → Proc → Proc
given_away i init p = if is_parent i p.parent then unlocked (record p { parent = some init }) else p

-- The loop of `reparent`: the children of `i` in the range become children of `initproc`.
reparent_from-procs :
    (k j i : ℕ) (s : Table) (x : ℕ)
    → (reparent_from k j i s).procs x
      ≡ (if leb j x && ltb x (j + k) then given_away i s.initproc (s.procs x) else s.procs x)
unfolding reparent_from
reparent_from-procs zero j i s x = ground arith
reparent_from-procs (suc k) j i s x = elim (Bool-cases (is_parent i (get j s).parent)) [
  | inl e ↦
      ap (λ t. t.procs x) (reparent_from-child k j i s e)
      ∙ reparent_from-procs k (j + 1) i _ x
      ∙ ground arith
  | inr e ↦
      ap (λ t. t.procs x) (reparent_from-other k j i s e)
      ∙ reparent_from-procs k (j + 1) i s x
      ∙ ground arith
]

reparent_from-same :
    (k j i : ℕ) (s : Table)
    → ((reparent_from k j i s).nextpid ≡ s.nextpid)
      × ((reparent_from k j i s).initproc ≡ s.initproc)
unfolding reparent_from
reparent_from-same zero j i s = (refl, refl)
reparent_from-same (suc k) j i s = elim (Bool-cases (is_parent i (get j s).parent)) [
  | inl e ↦ rw (reparent_from-child k j i s e) (reparent_from-same k (j + 1) i _)
  | inr e ↦ rw (reparent_from-other k j i s e) (reparent_from-same k (j + 1) i s)
]

-- `reparent(p)` gives all children of `i` to `initproc`, and changes nothing else but their locks.
pub reparent-procs :
    (i : ℕ) (s : Table) (x : ℕ)
    → x < nproc
    → get x (reparent i s) ≡ given_away i s.initproc (get x s)
unfolding reparent
reparent-procs i s x lt = reparent_from-procs nproc 0 i s x ∙ ground arith

pub reparent-same :
    (i : ℕ) (s : Table)
    → ((reparent i s).nextpid ≡ s.nextpid) × ((reparent i s).initproc ≡ s.initproc)
unfolding reparent
reparent-same i s = reparent_from-same nproc 0 i s

reparent_from-calls : (k j i : ℕ) (s : Table) → (reparent_from k j i s).calls ≡ s.calls
unfolding reparent_from
reparent_from-calls zero j i s = refl
reparent_from-calls (suc k) j i s = reparent_from-calls k (j + 1) i _ ∙ ground arith

pub reparent-calls : (i : ℕ) (s : Table) → (reparent i s).calls ≡ s.calls
unfolding reparent
reparent-calls i s = reparent_from-calls nproc 0 i s
