-- ===== src/Proc/Child.antt =====
-- `fork` from its call to its return.
use mathlib.Core.Path.{subst}
use mit6s.Base.{
  ℕ, ◌+◌, ◌<◌, ◌≡◌, ◌≢◌, ◌≤◌, ◌∷◌, ◌⊎◌, inl, inr, refl, ap, ap₂, sym, ◌∙◌, arith, Option, none,
  some, Bool, true, false, ℕ_discrete, Bool-cases, pos, minus_one, ℤ,
}
use mit6s.Proc.Files.{open_files, called}
use mit6s.Proc.{
  idup, filedup, nproc, nofile, pgsize, unused, is, Proc, Table, get, release, freeproc, allocproc,
  fork_into, forked, fork,
}
use mit6s.Proc.Slots.{SameButLock, freeproc-at, freeproc-ne}
use mit6s.Proc.Vacant.{is_unused}
use mit6s.Proc.Alloc.{Around, Made, no_page, no_pagetable, made, AllocEnd, allocproc-AllocEnd}
use mit6s.Proc.Fork.{child_of, fork_into-Forked}
use mit6s.Proc.Births.{Made-unused}

-- The child `np` of process `i`.
pub record Born (i np tf pt forkret : ℕ) (s t : Table) : Type 0 where
  pub slot : np < nproc
  pub free : is_unused np s ≡ true
  pub first : (j : ℕ) → j < np → is_unused j s ≡ false
  pub files : ℕ → Option ℕ
  pub child : get np t ≡ record (child_of i (get i s) (get np s)) {
    pid = s.nextpid;
    trapframe = some tf;
    pagetable = some pt;
    context_ra = forkret;
    context_sp = (get np s).kstack + pgsize;
    ofile = files;
  }
  pub shared : (fd f : ℕ) → fd < nofile → (get i s).ofile fd ≡ some f → files fd ≡ some f
  pub kept : (fd : ℕ) → (nofile ≤ fd) ⊎ ((get i s).ofile fd ≡ none) → files fd ≡ (get np s).ofile fd
  pub calls :
      t.calls ≡ idup (get i s).cwd ∷ called filedup (open_files nofile 0 (get i s).ofile) s.calls
  pub others : (j : ℕ) → np ≢ j → SameButLock (get j s) (get j t)
  pub counted : t.nextpid ≡ s.nextpid + 1

-- No child: the processes in use are as before, and the others are still unused.
pub record Unborn (s t : Table) : Type 0 where
  pub used : (j : ℕ) → is_unused j s ≡ false → SameButLock (get j s) (get j t)
  pub free : (j : ℕ) → is_unused j t ≡ is_unused j s

pub lt_cases : (m n : ℕ) → (m ≡ n) ⊎ ((m < n) ⊎ (n < m))
lt_cases m n = omega arith

pub first_unique :
    (m n : ℕ) (s : Table)
    → is_unused m s ≡ true
    → is_unused n s ≡ true
    → ((j : ℕ) → j < m → is_unused j s ≡ false)
    → ((j : ℕ) → j < n → is_unused j s ≡ false)
    → m ≡ n
first_unique m n s u v f g = elim (lt_cases m n) [
  | inl e ↦ e
  | inr (inl lt) ↦ absurd (cc (g m lt, u))
  | inr (inr lt) ↦ absurd (cc (f n lt, v))
]

forked-into :
    (i np : ℕ) (copied : Bool) (t : Table)
    → copied ≡ true
    → forked i copied (some np, t) ≡ fork_into i np t
unfolding forked
forked-into i np copied t y = rw y refl

module _ (i : ℕ) (page pagetable : Option ℕ) (forkret : ℕ) (copied : Bool) (s : Table) where
  pub data ForkEnd : ℤ → Table → Type 0 where
    failed :
        (t : Table)
        → ((j : ℕ) → j < nproc → is_unused j s ≡ false)
          ⊎ ((page ≡ none) ⊎ ((pagetable ≡ none) ⊎ (copied ≡ false)))
        → Unborn s t
        → ForkEnd minus_one t
    born :
        (np tf pt : ℕ) (t : Table)
        → page ≡ some tf
        → pagetable ≡ some pt
        → copied ≡ true
        → Born i np tf pt forkret s t
        → ForkEnd (pos s.nextpid) t

  -- One slot that stays unused, and the others untouched.
  slot-Unborn :
      (np : ℕ) (t : Table)
      → is_unused np s ≡ true
      → is_unused np t ≡ true
      → ((j : ℕ) → np ≢ j → SameButLock (get j s) (get j t))
      → Unborn s t
  slot-Unborn np t u v o = record {
    used = λ j e. elim (ℕ_discrete np j) [
      | yes q ↦ absurd (cc (ap (λ x. is_unused x s) q, u, e))
      | no ne ↦ o j ne
    ];
    free = λ j. elim (ℕ_discrete np j) [
      | yes q ↦ subst (λ x. is_unused x t ≡ is_unused x s) q (v ∙ sym u)
      | no ne ↦ ap (λ p. is p.state unused) (o j ne)
    ];
  }

  Made-none :
      (np : ℕ) (t : Table)
      → Made page pagetable forkret s np t none
      → ((j : ℕ) → j < nproc → is_unused j s ≡ false)
        ⊎ ((page ≡ none) ⊎ ((pagetable ≡ none) ⊎ (copied ≡ false)))
  Made-none np t (no_page a e) = inr (inl a)
  Made-none np t (no_pagetable a st p l k tf) = inr (inr (inl a))

  made-ForkEnd :
      (np tf pt : ℕ) (t : Table)
      → is_unused i s ≡ false
      → np < nproc
      → is_unused np s ≡ true
      → ((j : ℕ) → j < np → is_unused j s ≡ false)
      → Around np s t
      → page ≡ some tf
      → pagetable ≡ some pt
      → get np t ≡ record (get np s) {
        lock = true;
        pid = s.nextpid;
        trapframe = some tf;
        pagetable = some pt;
        context_ra = forkret;
        context_sp = (get np s).kstack + pgsize;
      }
      → t.calls ≡ s.calls
      → ForkEnd (forked i copied (some np, t)).0 (forked i copied (some np, t)).1
  unfolding forked
  made-ForkEnd np tf pt t iu lt u first w ep et e q = elim (Bool-cases copied) [
    | inr n ↦
        let v : Table = release np (freeproc np t) in
        rw n (
          failed v (inr (inr (inr refl))) (
            slot-Unborn np v u (ap (λ p. is p.state unused) (freeproc-at np t)) (λ j ne.
              subst (SameButLock (get j s)) (sym (freeproc-ne np t j ne)) (w.others j ne))))
    | inl y ↦
        let apart : np ≢ i = λ q. cc (ap (λ x. is_unused x s) q, u, iu) in
        let (r, f) = fork_into-Forked i np t (λ q. apart (sym q)) in
        let v : Table = (fork_into i np t).1 in
        let make : Proc → Proc → Proc = λ p q. record (child_of i p q) { ofile = f.files } in
        let oi = w.others i apart in
        let er : (fork_into i np t).0 ≡ pos s.nextpid = r ∙ ap (λ p. pos p.pid) e in
        let b : Born i np tf pt forkret s v = record {
          slot = lt;
          free = u;
          first = first;
          files = f.files;
          child = f.child ∙ ap₂ make oi e;
          shared = λ fd g l h. f.shared fd g l (ap (λ p. p.ofile fd) oi ∙ h);
          kept = λ fd out.
              f.kept fd (elim out [ inl l ↦ inl l | inr h ↦ inr (ap (λ p. p.ofile fd) oi ∙ h) ])
              ∙ ap (λ p. p.ofile fd) e;
          calls =
              f.calls
              ∙ ap₂ (λ p cs. idup p.cwd ∷ called filedup (open_files nofile 0 p.ofile) cs) oi q;
          others = λ j ne. subst (SameButLock (get j s)) (sym (f.others j ne)) (w.others j ne);
          counted = f.same.0 ∙ w.counted;
        } in
        subst (λ o. ForkEnd o.0 o.1) (sym (forked-into i np copied t y))
          (subst (λ z. ForkEnd z v) (sym er) (born np tf pt v ep et y b))
  ]

  forked-ForkEnd :
      (out : Option ℕ × Table)
      → is_unused i s ≡ false
      → AllocEnd page pagetable forkret s out
      → ForkEnd (forked i copied out).0 (forked i copied out).1
  unfolding forked
  forked-ForkEnd (none, t) iu (inl (e, h)) =
      failed t (inl (λ j lj. h.used j (omega arith) lj))
        (record { used = λ j u. h.others j; free = λ j. ap (λ p. is p.state unused) (h.others j) })
  forked-ForkEnd (some np, t) iu (inl (e, h)) = absurd cc
  forked-ForkEnd (none, t) iu (inr (np, lt, u, first, w, m)) =
      failed t (Made-none np t m)
        (slot-Unborn np t u (Made-unused page pagetable forkret s np t none u m).0 w.others)
  forked-ForkEnd (some np, t) iu (inr (m, lt, u, first, w, made tf pt a b e q)) =
      made-ForkEnd np tf pt t iu lt u first w a b e q

-- `fork` by a process in use: either it returns -1, because all processes are in use or memory
-- ran out, and all processes in use are as before, but for locks, and the others still unused; or it returns the new pid, and the first unused process
-- is a child of the caller, runnable, with the caller's memory size, registers but 0 in `a0`,
-- current directory, name and open files (where the caller has none open, its slot has what stood
-- there before), and all others are as before. Then `filedup` has been called once for each open
-- file and `idup` for the directory, and nothing else.
pub fork-ForkEnd :
    (i : ℕ) (page pagetable : Option ℕ) (forkret : ℕ) (copied : Bool) (s : Table)
    → is_unused i s ≡ false
    → let (r, t) = fork i page pagetable forkret copied s in
      ForkEnd i page pagetable forkret copied s r t
unfolding fork
fork-ForkEnd i page pagetable forkret copied s iu =
    forked-ForkEnd i page pagetable forkret copied s (allocproc page pagetable forkret s) iu
      (allocproc-AllocEnd page pagetable forkret s)
