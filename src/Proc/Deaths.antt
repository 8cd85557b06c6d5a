-- ===== src/Proc/Deaths.antt =====
-- `exit` keeps the invariant of the process table.
use mathlib.Core.Path.{subst}
use mit6s.Base.{
  ℕ, ◌<◌, ◌≡◌, ◌≢◌, inl, inr, refl, ap, sym, ◌∙◌, arith, some, true, false, ℕ_discrete, some_inj,
  ==_refl, ==_ne,
}
use mit6s.Proc.{nproc, unused, is, Proc, Table, get, exit_files, exit}
use mit6s.Proc.Exit.{FilesClosed}
use mit6s.Proc.Kin.{Kin, new_parent}
use mit6s.Proc.Zombie.{Exited, exit-Exited}
use mit6s.Proc.Vacant.{is_unused}
use mit6s.Proc.Family.{alive, Raises, Seen, Family, FamilyOf, Quiet-Family}
use mit6s.Proc.Keeps.{alive-used}

FilesClosed-Family : (i : ℕ) (s t : Table) → FilesClosed i s t → Family s → Family t
FilesClosed-Family i s t d =
    Quiet-Family s t
      (λ j lj. elim (ℕ_discrete i j) [
        | yes q ↦
            subst (λ x. Seen (get x s) (get x t)) q
              (record {
                pid = ap (λ p. p.pid) d.self;
                parent = ap (λ p. p.parent) d.self;
                living = ap (λ p. alive p.state) d.self;
                free = ap (λ p. is p.state unused) d.self;
              })
        | no ne ↦
            subst (Seen (get j s)) (sym (d.others j ne))
              (record { pid = refl; parent = refl; living = refl; free = refl })
      ])
      d.same

less_irrefl : (a b : ℕ) → a < b → a ≢ b
less_irrefl a b lt e = omega arith

-- A parent is not its own child's child.
no_circle :
    (s : Table) (f : Family s) (i o : ℕ)
    → i < nproc
    → o < nproc
    → (get i s).parent ≡ some o
    → (get o s).pid < (get i s).pid
    → alive (get o s).state ≡ true
    → (get o s).parent ≢ some i
no_circle s f i o li lo ep lt oa e = elim (ℕ_discrete o s.initproc) [
  | yes q ↦ absurd (cc (sym (ap (λ x. (get x s).parent) q) ∙ e, f.init_top))
  | no ne ↦
      let (p, (eo, lp, pa, lt')) = f.raised o lo (alive-used (get o s).state oa) ne in
      let ei : p ≡ i = some_inj (sym eo ∙ e) in
      let el : (get p s).pid ≡ (get i s).pid = ap (λ x. (get x s).pid) ei in absurd (omega arith)
]

pub no_own_parent :
    (s : Table) (f : Family s) (i : ℕ)
    → i < nproc
    → alive (get i s).state ≡ true
    → (get i s).parent ≢ some i
no_own_parent s f i li a e = elim (ℕ_discrete i s.initproc) [
  | yes q ↦ absurd (cc (sym (ap (λ x. (get x s).parent) q) ∙ e, f.init_top))
  | no ne ↦
      let (p, (eo, lp, pa, lt)) = f.raised i li (alive-used (get i s).state a) ne in
      less_irrefl (get p s).pid (get i s).pid lt (ap (λ x. (get x s).pid) (some_inj (sym eo ∙ e)))
]

-- What `exit` does to another process, its parent apart.
Kin-seen :
    (j : ℕ) (p q : Proc)
    → Kin j p q
    → (alive q.state ≡ alive p.state) × (is q.state unused ≡ is p.state unused)
Kin-seen j p q k = elim (k.stirred) [
  | inl e ↦ (ap alive e, ap (λ x. is x unused) e)
  | inr (a, b, c) ↦
      (ap alive c ∙ sym (ap alive a), ap (λ x. is x unused) c ∙ sym (ap (λ x. is x unused) a))
]

module _ (i status o : ℕ) (s t : Table) (f : Family s) (w : Exited i status o s t) (li : i < nproc)
    (ni : i ≢ s.initproc) (ai : alive (get i s).state ≡ true) where
  pid_kept : (j : ℕ) → j < nproc → (get j t).pid ≡ (get j s).pid
  pid_kept j lj = elim (ℕ_discrete i j) [
    | yes q ↦ subst (λ x. (get x t).pid ≡ (get x s).pid) q (ap (λ p. p.pid) w.dead)
    | no ne ↦ ap (λ p. p.pid) (w.others j ne lj).others
  ]

  use_kept : (j : ℕ) → j < nproc → is_unused j t ≡ false → is_unused j s ≡ false
  use_kept j lj u = elim (ℕ_discrete i j) [
    | yes q ↦ subst (λ x. is_unused x s ≡ false) q (alive-used (get i s).state ai)
    | no ne ↦ sym (Kin-seen j _ _ (w.others j ne lj)).1 ∙ u
  ]

  life_kept :
      (j : ℕ) → j < nproc → i ≢ j → alive (get j s).state ≡ true → alive (get j t).state ≡ true
  life_kept j lj ne a = (Kin-seen j _ _ (w.others j ne lj)).0 ∙ a

  -- The parent of a process after the exit.
  raised_kept :
      (j : ℕ) → j < nproc → is_unused j t ≡ false → j ≢ s.initproc → (p : ℕ) × Raises t j p
  raised_kept j lj u nj =
      let uj = use_kept j lj u in
      let n : ℕ = s.initproc in
      let (p, (ep, lp, pa, lt)) = f.raised j lj uj nj in
      let ej = pid_kept j lj in
      let epp = pid_kept p lp in
      let en = pid_kept n f.init_slot in
      elim (ℕ_discrete i j) [
        | yes q ↦
            let apart : i ≢ p = λ e.
              less_irrefl (get p s).pid (get j s).pid lt (ap (λ x. (get x s).pid) (sym e ∙ q)) in
            (
              p,
              (
                subst (λ x. (get x t).parent ≡ (get x s).parent) q (ap (λ r. r.parent) w.dead) ∙ ep,
                lp,
                life_kept p lp apart pa,
                omega arith,
              ),
            )
        | no ne ↦
            let moved = w.parents j ne lj ∙ ap (new_parent i n) ep in
            elim (ℕ_discrete p i) [
              | yes e ↦
                  let older = f.eldest j lj uj nj in
                  (
                    n,
                    (
                      moved ∙ rw (e, ==_refl i) refl,
                      f.init_slot,
                      life_kept n f.init_slot ni f.init_alive,
                      omega arith,
                    ),
                  )
              | no np ↦ (
                p,
                (
                  moved ∙ rw (==_ne p i np) refl,
                  lp,
                  life_kept p lp (λ q. np (sym q)) pa,
                  omega arith,
                ),
              )
            ]
      ]

  Exited-Family : Family t
  Exited-Family =
      let n : ℕ = s.initproc in
      let en = pid_kept n f.init_slot in
      subst (λ m. FamilyOf m t) (sym w.same.1)
        (record {
          init_slot = f.init_slot;
          init_alive = life_kept n f.init_slot ni f.init_alive;
          init_top = w.parents n ni f.init_slot ∙ ap (new_parent i n) f.init_top;
          raised = raised_kept;
          eldest = λ j lj u nj.
              let lt = f.eldest j lj (use_kept j lj u) nj in let ej = pid_kept j lj in omega arith;
          numbered = λ j lj u.
              let lt = f.numbered j lj (use_kept j lj u) in let ej = pid_kept j lj in omega arith;
          low = λ j lj. let lt = f.low j lj in let ej = pid_kept j lj in omega (arith, w.same.0);
          apart = λ x y lx ly ne lt e.
              f.apart x y lx ly ne (subst (λ m. 0 < m) (pid_kept x lx) lt)
                (sym (pid_kept x lx) ∙ e ∙ pid_kept y ly);
        })

-- A living process other than `initproc` can exit, whatever else goes on, without a panic.
pub exit-living :
    (i status : ℕ) (s : Table)
    → Family s
    → i < nproc
    → i ≢ s.initproc
    → alive (get i s).state ≡ true
    → (o : ℕ) × (t : Table) × (exit i status s ≡ some t)
      × Exited i status o (exit_files i s) t
      × Family t
exit-living i status s f li ni ai =
    let (o, (ep, lo, oa, lt)) = f.raised i li (alive-used (get i s).state ai) ni in
    let apart : i ≢ o =
      λ e. less_irrefl (get o s).pid (get i s).pid lt (ap (λ x. (get x s).pid) (sym e)) in
    let (t, et, d, w) =
      exit-Exited i status o s li lo apart ni ep (no_circle s f i o li lo ep lt oa) in
    let df : Family (exit_files i s) = FilesClosed-Family i s (exit_files i s) d f in
    let ai' : alive (get i (exit_files i s)).state ≡ true = ap (λ p. alive p.state) d.self ∙ ai in
    (o, t, et, w, Exited-Family i status o (exit_files i s) t df w li (λ q. ni (q ∙ d.same.1)) ai')
