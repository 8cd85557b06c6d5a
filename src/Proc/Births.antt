-- ===== src/Proc/Births.antt =====
-- `allocproc` and `fork` keep the invariant of the process table.
use mathlib.Core.Path.{subst}
use mit6s.Base.{
  ℕ, ◌<◌, ◌≡◌, ◌≢◌, ◌⊎◌, inl, inr, refl, ap, sym, ◌∙◌, arith, Option, none, some, Bool, true, false,
}
use mit6s.Proc.{
  nproc, unused, sleeping, runnable, running, zombie, is, ProcState, Table, get, release, freeproc,
  allocproc, fork_into, forked, fork,
}
use mit6s.Proc.Slots.{freeproc-at, freeproc-ne, freeproc-globals}
use mit6s.Proc.Vacant.{is_unused}
use mit6s.Proc.Alloc.{Around, Made, no_page, no_pagetable, made, AllocEnd, allocproc-AllocEnd}
use mit6s.Proc.Fork.{Forked, fork_into-Forked}
use mit6s.Proc.Family.{alive, Seen, Family, Change, Quiet-Family, Change-Family, SameButLock-Seen}

pub dead_unused : (x : ProcState) → is x unused ≡ true → alive x ≢ true
dead_unused unused e a = absurd (ground arith)
dead_unused sleeping e a = absurd (ground arith)
dead_unused runnable e a = absurd (ground arith)
dead_unused running e a = absurd (ground arith)
dead_unused zombie e a = absurd (ground arith)

-- The slot taken is unused before and after, with a pid that is new or 0.
unused-Change :
    (i : ℕ) (s t : Table)
    → Family s
    → i < nproc
    → is_unused i s ≡ true
    → Around i s t
    → is_unused i t ≡ true
    → ((get i t).pid ≡ 0) ⊎ ((get i t).pid ≡ s.nextpid)
    → Change i s t
unused-Change i s t f li u w v p = record {
  slot = li;
  not_init = λ e. dead_unused (get i s).state u (ap (λ x. alive (get x s).state) e ∙ f.init_alive);
  lives = λ a. absurd (dead_unused (get i s).state u a);
  fresh = elim p [ inl z ↦ inl z | inr e ↦ inr (inr (omega arith, omega (arith, w.counted))) ];
  placed = λ n. absurd (cc (v, n));
  others = λ j ne lj. SameButLock-Seen (get j s) (get j t) (w.others j ne);
  counted = omega (arith, w.counted);
  init = w.init;
}

pub Made-unused :
    (page pagetable : Option ℕ) (forkret : ℕ) (s : Table) (i : ℕ) (t : Table) (r : Option ℕ)
    → is_unused i s ≡ true
    → Made page pagetable forkret s i t r
    → (is_unused i t ≡ true) × (((get i t).pid ≡ 0) ⊎ ((get i t).pid ≡ s.nextpid))
Made-unused page pagetable forkret s i t _ u (no_page a e) =
    (ap (λ p. is p.state unused) e ∙ u, inr (ap (λ p. p.pid) e))
Made-unused page pagetable forkret s i t _ u (no_pagetable a st pid l k tf) =
    (ap (λ x. is x unused) st, inl pid)
Made-unused page pagetable forkret s i t _ u (made tf pt a b e q) =
    (ap (λ p. is p.state unused) e ∙ u, inr (ap (λ p. p.pid) e))

AllocEnd-Family :
    (page pagetable : Option ℕ) (forkret : ℕ) (s : Table) (out : Option ℕ × Table)
    → AllocEnd page pagetable forkret s out
    → Family s
    → Family out.1
AllocEnd-Family page pagetable forkret s (r, t) (inl (e, h)) f =
    let (n, p, _) = h.globals in
    Quiet-Family s t (λ j lj. SameButLock-Seen (get j s) (get j t) (h.others j)) (n, p) f
AllocEnd-Family page pagetable forkret s (r, t) (inr (i, lt, u, first, w, m)) f =
    let (v, p) = Made-unused page pagetable forkret s i t r u m in
    Change-Family i s t (unused-Change i s t f lt u w v p) f

-- `fork` gives the fresh process `np` to its parent `i`.
Forked-Change :
    (i np : ℕ) (s t : Table)
    → Family s
    → np < nproc
    → i < nproc
    → i ≢ np
    → is_unused np s ≡ true
    → alive (get i s).state ≡ true
    → 0 < (get np s).pid
    → (get i s).pid < (get np s).pid
    → (get s.initproc s).pid < (get np s).pid
    → Forked i np s t
    → Change np s t
Forked-Change i np s t f ln li apart u a some_pid old older w =
    let ep : (get np t).pid ≡ (get np s).pid = ap (λ p. p.pid) w.child in
    record {
      slot = ln;
      not_init =
          λ e. dead_unused (get np s).state u (ap (λ x. alive (get x s).state) e ∙ f.init_alive);
      lives = λ b. absurd (dead_unused (get np s).state u b);
      fresh = inr (inl ep);
      placed = λ n.
          (omega arith, omega arith, (i, ap (λ p. p.parent) w.child, li, apart, a, omega arith));
      others = λ j ne lj.
          subst (Seen (get j s)) (sym (w.others j ne))
            (record { pid = refl; parent = refl; living = refl; free = refl });
      counted = omega (arith, w.same.0);
      init = w.same.1;
    }

-- `freeproc` of a process that was never made runnable.
freed-Change :
    (i : ℕ) (s : Table)
    → Family s
    → i < nproc
    → is_unused i s ≡ true
    → Change i s (release i (freeproc i s))
freed-Change i s f li u =
    let e = freeproc-at i s in
    let g = freeproc-globals i s in
    record {
      slot = li;
      not_init =
          λ q. dead_unused (get i s).state u (ap (λ x. alive (get x s).state) q ∙ f.init_alive);
      lives = λ b. absurd (dead_unused (get i s).state u b);
      fresh = inl (ap (λ p. p.pid) e);
      placed = λ n. absurd (cc (ap (λ p. is p.state unused) e, n));
      others = λ j ne lj.
          subst (Seen (get j s)) (sym (freeproc-ne i s j ne))
            (record { pid = refl; parent = refl; living = refl; free = refl });
      counted = omega (arith, g.0);
      init = g.1;
    }

forked-Family :
    (i : ℕ) (page pagetable : Option ℕ) (forkret : ℕ) (copied : Bool) (s : Table)
    (out : Option ℕ × Table)
    → i < nproc
    → (get i s).state ≡ running
    → AllocEnd page pagetable forkret s out
    → Family s
    → Family (forked i copied out).1
unfolding forked
forked-Family i page pagetable forkret copied s (none, t) li r e f =
    AllocEnd-Family page pagetable forkret s (none, t) e f
forked-Family i page pagetable forkret copied s (some np, t) li r (inl (q, h)) f = absurd cc
forked-Family i page pagetable forkret copied s (some np, t) li r
      (inr (m, lt, u, first, w, made tf pt a b e q)) f =
    let (ut, pid) = Made-unused page pagetable forkret s np t (some np) u (made tf pt a b e q) in
    let ft : Family t = Change-Family np s t (unused-Change np s t f lt u w ut pid) f in
    let ai : alive (get i s).state ≡ true = ap alive r in
    let ni : np ≢ i =
      λ q. dead_unused (get np s).state u (ap (λ x. alive (get x s).state) q ∙ ai) in
    let nn : np ≢ s.initproc =
      λ q. dead_unused (get np s).state u (ap (λ x. alive (get x s).state) q ∙ f.init_alive) in
    let oi = w.others i ni in
    let pi = ap (λ p. p.pid) oi in
    let pn = ap (λ p. p.pid) (w.others s.initproc nn) in
    let ep = ap (λ p. p.pid) e in
    let li' = f.low i li in
    let ln' = f.low s.initproc f.init_slot in
    let older : (get s.initproc t).pid < (get np t).pid = omega arith in
    elim copied as (λ c. Family (forked i c (some np, t)).1) [
      | false ↦ Change-Family np t (release np (freeproc np t)) (freed-Change np t ft lt ut) ft
      | true ↦
          Change-Family np t (fork_into i np t).1
            (Forked-Change i np t _ ft lt li (λ q. ni (sym q)) ut (ap (λ p. alive p.state) oi ∙ ai)
              (omega arith) (omega arith)
              (subst (λ n. (get n t).pid < (get np t).pid) (sym w.init) older)
              (fork_into-Forked i np t (λ q. ni (sym q))).1)
            ft
    ]

pub fork-Family :
    (i : ℕ) (page pagetable : Option ℕ) (forkret : ℕ) (copied : Bool) (s : Table)
    → i < nproc
    → (get i s).state ≡ running
    → Family s
    → Family (fork i page pagetable forkret copied s).1
unfolding fork
fork-Family i page pagetable forkret copied s li r f =
    forked-Family i page pagetable forkret copied s (allocproc page pagetable forkret s) li r
      (allocproc-AllocEnd page pagetable forkret s) f
