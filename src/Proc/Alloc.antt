-- ===== src/Proc/Alloc.antt =====
-- `allocproc`: the process that it makes, and what its failures leave.
use mathlib.Core.Path.{subst}
use mit6s.Base.{
  ℕ, ◌+◌, ◌<◌, ◌≡◌, ◌≢◌, ◌⊎◌, inl, inr, refl, ap, ap₂, sym, ◌∙◌, arith, Option, none, some, true,
  false, ==_refl, ==_ne,
}
use mit6s.Proc.{nproc, pgsize, unused, Proc, Table, get, put, allocproc, found}
use mit6s.Proc.Slots.{SameButLock, freeproc-at, freeproc-ne, freeproc-globals}
use mit6s.Proc.Vacant.{is_unused, Vacant, AllUsed, FindEnd, find_unused-FindEnd}

-- What an `allocproc` that takes slot `i` leaves of the rest: the others, and the next pid.
pub record Around (i : ℕ) (s t : Table) : Type 0 where
  pub others : (j : ℕ) → i ≢ j → SameButLock (get j s) (get j t)
  pub counted : t.nextpid ≡ s.nextpid + 1
  pub init : t.initproc ≡ s.initproc

module _ (page pagetable : Option ℕ) (forkret : ℕ) (s : Table) where
  -- The three ends that `allocproc` can have once it has found slot `i`.
  pub data Made (i : ℕ) (t : Table) : Option ℕ → Type 0 where
    no_page :
        page ≡ none
        → get i t ≡ record (get i s) { lock = false; pid = s.nextpid; trapframe = none }
        → Made i t none
    no_pagetable :
        pagetable ≡ none
        → (get i t).state ≡ unused
        → (get i t).pid ≡ 0
        → (get i t).lock ≡ false
        → (get i t).killed ≡ false
        → (get i t).trapframe ≡ none
        → Made i t none
    made :
        (tf pt : ℕ)
        → page ≡ some tf
        → pagetable ≡ some pt
        → get i t ≡ record (get i s) {
          lock = true;
          pid = s.nextpid;
          trapframe = some tf;
          pagetable = some pt;
          context_ra = forkret;
          context_sp = (get i s).kstack + pgsize;
        }
        → t.calls ≡ s.calls
        → Made i t (some i)

  abbrev pub AllocEnd : Option ℕ × Table → Type 0
  AllocEnd (r, t) =
      ((r ≡ none) × AllUsed 0 nproc s t)
      ⊎ ((i : ℕ) × (i < nproc)
          × (is_unused i s ≡ true)
          × ((j : ℕ) → j < i → is_unused j s ≡ false)
          × Around i s t
          × Made i t r)

  Around-put :
      (i : ℕ) (t u : Table)
      → Vacant 0 i s t
      → ((j : ℕ) → i ≢ j → get j u ≡ get j t)
      → u.nextpid ≡ t.nextpid + 1
      → u.initproc ≡ t.initproc
      → Around i s u
  Around-put i t u v same n p = record {
    others = λ j ne. subst (SameButLock (get j s)) (sym (same j ne)) (v.others j ne);
    counted = n ∙ ap (λ x. x + 1) (v.globals.0);
    init = p ∙ v.globals.1;
  }

found-AllocEnd :
    (page pagetable : Option ℕ) (forkret : ℕ) (s : Table) (out : Option ℕ × Table)
    → FindEnd 0 nproc s out
    → AllocEnd page pagetable forkret s (found page pagetable forkret out)
unfolding found
found-AllocEnd page pagetable forkret s (none, t) h = inl (refl, h)
found-AllocEnd none pagetable forkret s (some i, t) (le, lt, h) =
    let make : Proc → ℕ → Proc = λ p n. record p { lock = false; pid = n; trapframe = none } in
    inr (
      i,
      lt,
      h.free,
      (λ j a. h.first j (omega arith) a),
      Around-put none pagetable forkret s i t _ h (λ j ne. rw (==_ne i j ne) refl) refl refl,
      no_page refl (rw (==_refl i) (ap₂ make h.taken h.globals.0)),
    )
found-AllocEnd (some tf) none forkret s (some i, t) (le, lt, h) =
    let u : Table =
      put i (record (get i t) { pid = t.nextpid; trapframe = some tf })
        (record t { nextpid = t.nextpid + 1 }) in
    let v : Table = put i (record (get i u) { pagetable = none }) u in
    let e = freeproc-at i v in
    let (en, ep) = freeproc-globals i v in
    inr (
      i,
      lt,
      h.free,
      (λ j a. h.first j (omega arith) a),
      Around-put (some tf) none forkret s i t _ h
          (λ j ne. freeproc-ne i v j ne ∙ rw (==_ne i j ne) refl) en ep,
      no_pagetable refl (ap (λ p. p.state) e) (ap (λ p. p.pid) e) (ap (λ p. p.lock) e)
          (ap (λ p. p.killed) e) (ap (λ p. p.trapframe) e),
    )
found-AllocEnd (some tf) (some pt) forkret s (some i, t) (le, lt, h) =
    let make : Proc → ℕ → Proc = λ p n. record p {
      pid = n;
      trapframe = some tf;
      pagetable = some pt;
      context_ra = forkret;
      context_sp = p.kstack + pgsize;
    } in
    inr (
      i,
      lt,
      h.free,
      (λ j a. h.first j (omega arith) a),
      Around-put (some tf) (some pt) forkret s i t _ h (λ j ne. rw (==_ne i j ne) refl) refl refl,
      made tf pt refl refl (rw (==_refl i) (ap₂ make h.taken h.globals.0)) (h.globals.2),
    )

pub allocproc-AllocEnd :
    (page pagetable : Option ℕ) (forkret : ℕ) (s : Table)
    → AllocEnd page pagetable forkret s (allocproc page pagetable forkret s)
unfolding allocproc
allocproc-AllocEnd page pagetable forkret s =
    found-AllocEnd page pagetable forkret s _ (find_unused-FindEnd nproc 0 s)
