-- ===== src/Proc/Slots.antt =====
-- Processes in the table: what a store, a lock taken or a lock released leaves as it was.
use mit6s.Base.{
  ℕ, ◌≡◌, ◌≢◌, refl, sym, ap, ◌∙◌, Option, none, some, ==_refl, ==_ne, ℕ_discrete, update_self,
  update_ne,
}
use mit6s.Proc.{
  Call, Proc, Table, get, put, acquire, release, call_some, cleared, unlocked, freeproc,
  proc_freepagetable, kfree,
}

pub get-put : (i : ℕ) (p : Proc) (s : Table) → get i (put i p s) ≡ p
get-put i p s = update_self s.procs i p

pub get-put_ne : (i : ℕ) (p : Proc) (s : Table) (j : ℕ) → i ≢ j → get j (put i p s) ≡ get j s
get-put_ne i p s j ne = update_ne s.procs i p j ne

-- The same process, its lock apart.
abbrev pub SameButLock : Proc → Proc → Type 0
SameButLock p q = q ≡ record p { lock = q.lock }

pub SameButLock-trans : (p q r : Proc) → SameButLock p q → SameButLock q r → SameButLock p r
SameButLock-trans p q r e f = cc

pub pass-SameButLock :
    (i : ℕ) (s : Table) (j : ℕ) → SameButLock (get j s) (get j (release i (acquire i s)))
pass-SameButLock i s j = elim (ℕ_discrete i j) [
  | yes e ↦ rw (sym e, ==_refl i) refl
  | no ne ↦ rw (==_ne i j ne) refl
]

-- What stands beside the processes is the same.
abbrev pub SameGlobals : Table → Table → Type 0
SameGlobals s t = (t.nextpid ≡ s.nextpid) × (t.initproc ≡ s.initproc) × (t.calls ≡ s.calls)

call_some-procs : (o : Option ℕ) (f : ℕ → Call) (s : Table) → (call_some o f s).procs ≡ s.procs
call_some-procs none f s = refl
call_some-procs (some x) f s = refl

call_some-globals :
    (o : Option ℕ) (f : ℕ → Call) (s : Table)
    → ((call_some o f s).nextpid ≡ s.nextpid) × ((call_some o f s).initproc ≡ s.initproc)
call_some-globals none f s = (refl, refl)
call_some-globals (some x) f s = (refl, refl)

-- The table after the pages of process `i` have been freed.
abbrev freed : ℕ → Table → Table
freed i s =
    call_some (get i s).pagetable (λ pt. proc_freepagetable pt (get i s).sz)
      (call_some (get i s).trapframe kfree s)

freed-same :
    (i : ℕ) (s : Table)
    → ((freed i s).procs ≡ s.procs)
      × ((freed i s).nextpid ≡ s.nextpid)
      × ((freed i s).initproc ≡ s.initproc)
freed-same i s =
    let f : ℕ → Call = λ pt. proc_freepagetable pt (get i s).sz in
    let t : Table = call_some (get i s).trapframe kfree s in
    (
      call_some-procs (get i s).pagetable f t ∙ call_some-procs (get i s).trapframe kfree s,
      (call_some-globals (get i s).pagetable f t).0
          ∙ (call_some-globals (get i s).trapframe kfree s).0,
      (call_some-globals (get i s).pagetable f t).1
          ∙ (call_some-globals (get i s).trapframe kfree s).1,
    )

-- What `freeproc` and the release after it leave in the slot, and elsewhere.
pub freeproc-at :
    (i : ℕ) (s : Table) → get i (release i (freeproc i s)) ≡ unlocked (cleared (get i s))
unfolding freeproc
freeproc-at i s = rw (==_refl i) refl

pub freeproc-ne : (i : ℕ) (s : Table) (j : ℕ) → i ≢ j → get j (release i (freeproc i s)) ≡ get j s
unfolding freeproc
freeproc-ne i s j ne = rw (==_ne i j ne) (ap (λ f. f j) (freed-same i s).0)

pub freeproc-globals :
    (i : ℕ) (s : Table)
    → ((release i (freeproc i s)).nextpid ≡ s.nextpid)
      × ((release i (freeproc i s)).initproc ≡ s.initproc)
unfolding freeproc
freeproc-globals i s = let (_, n, p) = freed-same i s in (n, p)
