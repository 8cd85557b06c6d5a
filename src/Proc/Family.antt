-- ===== src/Proc/Family.antt =====
-- The invariant of the process table: who is whose parent, and which pids are in use.
use mathlib.Core.Path.{subst}
use mit6s.Base.{
  ℕ, ◌≤◌, ◌<◌, ◌≡◌, ◌≢◌, ◌⊎◌, inl, inr, refl, ap, sym, ◌∙◌, arith, none, some, Bool, true, false,
  ℕ_discrete,
}
use mit6s.Proc.{nproc, unused, zombie, is, ProcState, Proc, Table, get}
use mit6s.Proc.Slots.{SameButLock}
use mit6s.Proc.Vacant.{is_unused}

-- In use, and not exited.
abbrev pub alive : ProcState → Bool
alive unused = false
alive zombie = false
alive _ = true

-- Process `p` is a living parent of process `j`, and older.
abbrev pub Raises : Table → ℕ → ℕ → Type 0
Raises s j p =
    ((get j s).parent ≡ some p)
    × (p < nproc)
    × (alive (get p s).state ≡ true)
    × ((get p s).pid < (get j s).pid)

-- The invariant, with `init` the process `initproc`.
pub record FamilyOf (init : ℕ) (s : Table) : Type 0 where
  pub init_slot : init < nproc
  pub init_alive : alive (get init s).state ≡ true
  pub init_top : (get init s).parent ≡ none
  -- No process in use is an orphan.
  pub raised : (j : ℕ) → j < nproc → is_unused j s ≡ false → j ≢ init → (p : ℕ) × Raises s j p
  pub eldest :
      (j : ℕ) → j < nproc → is_unused j s ≡ false → j ≢ init → (get init s).pid < (get j s).pid
  pub numbered : (j : ℕ) → j < nproc → is_unused j s ≡ false → 0 < (get j s).pid
  pub low : (j : ℕ) → j < nproc → (get j s).pid < s.nextpid
  pub apart :
      (i j : ℕ) → i < nproc → j < nproc → i ≢ j → 0 < (get i s).pid → (get i s).pid ≢ (get j s).pid

abbrev pub Family : Table → Type 0
Family s = FamilyOf s.initproc s

-- Two states of a process that the invariant does not tell apart.
pub record Seen (p q : Proc) : Type 0 where
  pub pid : q.pid ≡ p.pid
  pub parent : q.parent ≡ p.parent
  pub living : alive q.state ≡ alive p.state
  pub free : is q.state unused ≡ is p.state unused

pub SameButLock-Seen : (p q : Proc) → SameButLock p q → Seen p q
SameButLock-Seen p q e = record {
  pid = ap (λ r. r.pid) e;
  parent = ap (λ r. r.parent) e;
  living = ap (λ r. alive r.state) e;
  free = ap (λ r. is r.state unused) e;
}

-- A change of one process, not `initproc`, that keeps the invariant: a living process keeps its
-- pid and lives on; a new pid is fresh; and a process in use has a living, older parent.
pub record Change (i : ℕ) (s t : Table) : Type 0 where
  pub slot : i < nproc
  pub not_init : i ≢ s.initproc
  pub lives :
      alive (get i s).state ≡ true
      → (alive (get i t).state ≡ true) × ((get i t).pid ≡ (get i s).pid)
  pub fresh :
      ((get i t).pid ≡ 0)
      ⊎ (((get i t).pid ≡ (get i s).pid)
          ⊎ ((s.nextpid ≤ (get i t).pid) × ((get i t).pid < t.nextpid)))
  pub placed :
      is_unused i t ≡ false
      → (0 < (get i t).pid)
        × ((get s.initproc s).pid < (get i t).pid)
        × ((p : ℕ) × ((get i t).parent ≡ some p)
            × (p < nproc)
            × (p ≢ i)
            × (alive (get p s).state ≡ true)
            × ((get p s).pid < (get i t).pid))
  pub others : (j : ℕ) → i ≢ j → j < nproc → Seen (get j s) (get j t)
  pub counted : s.nextpid ≤ t.nextpid
  pub init : t.initproc ≡ s.initproc

module _ (i : ℕ) (s t : Table) (c : Change i s t) (f : Family s) where
  -- A living process is alive after the change, with the same pid.
  stays :
      (p : ℕ)
      → p < nproc
      → alive (get p s).state ≡ true
      → (alive (get p t).state ≡ true) × ((get p t).pid ≡ (get p s).pid)
  stays p lp a = elim (ℕ_discrete i p) [
    | yes e ↦
        subst
          (λ x.
            alive (get x s).state ≡ true
            → (alive (get x t).state ≡ true) × ((get x t).pid ≡ (get x s).pid))
          e c.lives a
    | no ne ↦ ((c.others p ne lp).living ∙ a, (c.others p ne lp).pid)
  ]

  pid_moves :
      (j : ℕ)
      → j < nproc
      → ((get j t).pid ≡ 0)
        ⊎ (((get j t).pid ≡ (get j s).pid)
            ⊎ ((j ≡ i) × (s.nextpid ≤ (get j t).pid) × ((get j t).pid < t.nextpid)))
  pid_moves j lj = elim (ℕ_discrete i j) [
    | yes e ↦
        subst
          (λ x.
            ((get x t).pid ≡ 0)
            ⊎ (((get x t).pid ≡ (get x s).pid)
                ⊎ ((x ≡ i) × (s.nextpid ≤ (get x t).pid) × ((get x t).pid < t.nextpid))))
          e
          (elim (c.fresh) [
            | inl z ↦ inl z
            | inr (inl z) ↦ inr (inl z)
            | inr (inr (z, w)) ↦ inr (inr (refl, z, w))
          ])
    | no ne ↦ inr (inl (c.others j ne lj).pid)
  ]

  pub change-FamilyOf : FamilyOf s.initproc t
  change-FamilyOf =
      let n : ℕ = s.initproc in
      let (ia, ip) = stays n f.init_slot f.init_alive in
      record {
        init_slot = f.init_slot;
        init_alive = ia;
        init_top = (c.others n c.not_init f.init_slot).parent ∙ f.init_top;
        raised = λ j lj u nj. elim (ℕ_discrete i j) [
          | yes e ↦
              let (_, _, (p, ep, lp, np, ap_, lt)) =
                c.placed (subst (λ x. is_unused x t ≡ false) (sym e) u) in
              let (pa, pp) = stays p lp ap_ in
              (p, subst (λ x. Raises t x p) e (ep, lp, pa, omega (arith, pp)))
          | no ne ↦
              let o = c.others j ne lj in
              let (p, (ep, lp, ap_, lt)) = f.raised j lj (sym o.free ∙ u) nj in
              let (pa, pp) = stays p lp ap_ in
              let ej = o.pid in (p, (o.parent ∙ ep, lp, pa, omega (arith, pp, ej)))
        ];
        eldest = λ j lj u nj. elim (ℕ_discrete i j) [
          | yes e ↦
              let (_, lt, _) = c.placed (subst (λ x. is_unused x t ≡ false) (sym e) u) in
              subst (λ x. (get n t).pid < (get x t).pid) e (omega (arith, ip))
          | no ne ↦
              let o = c.others j ne lj in
              let lt = f.eldest j lj (sym o.free ∙ u) nj in let ej = o.pid in omega (arith, ip, ej)
        ];
        numbered = λ j lj u. elim (ℕ_discrete i j) [
          | yes e ↦
              let (lt, _, _) = c.placed (subst (λ x. is_unused x t ≡ false) (sym e) u) in
              subst (λ x. 0 < (get x t).pid) e lt
          | no ne ↦
              let o = c.others j ne lj in
              let lt = f.numbered j lj (sym o.free ∙ u) in let ej = o.pid in omega arith
        ];
        low = λ j lj.
            let l = f.low j lj in
            let m = c.counted in
            elim (pid_moves j lj) [
              | inl z ↦ let k = f.low n f.init_slot in omega arith
              | inr (inl z) ↦ omega arith
              | inr (inr (e, z, w)) ↦ w
            ];
        apart = λ x y lx ly ne pos e.
            let k = f.low x lx in
            let l = f.low y ly in
            elim (pid_moves x lx) [
              | inl z ↦ omega arith
              | inr (inl z) ↦ elim (pid_moves y ly) [
                | inl w ↦ omega arith
                | inr (inl w) ↦ f.apart x y lx ly ne (omega arith) (sym z ∙ e ∙ w)
                | inr (inr (q, w, v)) ↦ omega arith
              ]
              | inr (inr (q, z, v)) ↦ elim (pid_moves y ly) [
                | inl w ↦ omega arith
                | inr (inl w) ↦ omega arith
                | inr (inr (r, w, v')) ↦ ne (q ∙ sym r)
              ]
            ];
      }

pub Change-Family : (i : ℕ) (s t : Table) → Change i s t → Family s → Family t
Change-Family i s t c f = subst (λ n. FamilyOf n t) (sym c.init) (change-FamilyOf i s t c f)

-- A change that the invariant does not see.
pub Quiet-Family :
    (s t : Table)
    → ((j : ℕ) → j < nproc → Seen (get j s) (get j t))
    → (t.nextpid ≡ s.nextpid) × (t.initproc ≡ s.initproc)
    → Family s
    → Family t
Quiet-Family s t q g f =
    let n : ℕ = s.initproc in
    let p : (j : ℕ) → j < nproc → (get j t).pid ≡ (get j s).pid = λ j lj. (q j lj).pid in
    let pn = p n f.init_slot in
    subst (λ m. FamilyOf m t) (sym g.1)
      (record {
        init_slot = f.init_slot;
        init_alive = (q n f.init_slot).living ∙ f.init_alive;
        init_top = (q n f.init_slot).parent ∙ f.init_top;
        raised = λ j lj u nj.
            let (r, (er, lr, a, lt)) = f.raised j lj (sym (q j lj).free ∙ u) nj in
            let pr = p r lr in
            let pj = p j lj in (r, ((q j lj).parent ∙ er, lr, (q r lr).living ∙ a, omega arith));
        eldest = λ j lj u nj.
            let lt = f.eldest j lj (sym (q j lj).free ∙ u) nj in let pj = p j lj in omega arith;
        numbered = λ j lj u.
            let lt = f.numbered j lj (sym (q j lj).free ∙ u) in let pj = p j lj in omega arith;
        low = λ j lj. let lt = f.low j lj in let pj = p j lj in omega (arith, g.0);
        apart = λ x y lx ly ne pos e.
            f.apart x y lx ly ne (subst (λ m. 0 < m) (p x lx) pos) (sym (p x lx) ∙ e ∙ p y ly);
      })
