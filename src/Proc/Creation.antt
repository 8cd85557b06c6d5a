-- ===== src/Proc/Creation.antt =====
-- kernel/proc.c: `allocpid`, `freeproc`, `allocproc` and `fork`.
use mit6s.Base.{
  ℕ, zero, suc, ◌+◌, Bool, false, not, Option, none, some, [], if◌then◌else◌, ℤ, pos, minus_one,
  update,
}
use mit6s.Proc.State.{
  nproc, nofile, pgsize, is, Proc, Call, Table, get, put, call, acquire, release, unused, runnable,
  no_chan, kfree, proc_freepagetable, filedup, idup,
}

-- `allocpid()`
abbrev pub allocpid : Table → ℕ × Table
allocpid s = (s.nextpid, record s { nextpid = s.nextpid + 1 })

-- `if(page) kfree(page)` and the like.
abbrev pub call_some : Option ℕ → (ℕ → Call) → Table → Table
call_some none f s = s
call_some (some x) f s = call (f x) s

-- What `freeproc` stores into the process.
abbrev pub cleared : Proc → Proc
cleared p = record p {
  trapframe = none;
  pagetable = none;
  sz = 0;
  pid = 0;
  parent = none;
  name = [];
  chan = no_chan;
  killed = false;
  xstate = 0;
  state = unused;
}

-- `freeproc(p)`
unfoldable pub freeproc : ℕ → Table → Table
freeproc i s =
    let p = get i s in
    let t = call_some p.trapframe kfree s in
    let u = call_some p.pagetable (λ pt. proc_freepagetable pt p.sz) t in put i (cleared p) u

-- The search of `allocproc` for a process that is not used; it stops with the lock held.
unfoldable pub find_unused : ℕ → ℕ → Table → Option ℕ × Table
find_unused zero i s = (none, s)
find_unused (suc k) i s =
    let rest = find_unused k (i + 1) (release i (acquire i s)) in
    if is (get i s).state unused then (some i, acquire i s) else rest

-- `allocproc` after its search: its end, or what follows the label `found`.
unfoldable pub found : Option ℕ → Option ℕ → ℕ → Option ℕ × Table → Option ℕ × Table
found page pagetable forkret (none, s) = (none, s)
found page pagetable forkret (some i, s) =
    let (pid, t) = allocpid s in
    let u = put i (record (get i t) { pid = pid; trapframe = page }) t in
    elim page [
      | none ↦ (none, release i u)
      | some tf ↦
          let v = put i (record (get i u) { pagetable = pagetable }) u in
          elim pagetable [
            | none ↦ (none, release i (freeproc i v))
            | some pt ↦ (
              some i,
              put i
                  (record (get i v) {
                    context_ra = forkret;
                    context_sp = (get i v).kstack + pgsize;
                  })
                  v,
            )
          ]
    ]

-- `allocproc()`, given what `kalloc` and `proc_pagetable` answer and the address of `forkret`.
unfoldable pub allocproc : Option ℕ → Option ℕ → ℕ → Table → Option ℕ × Table
allocproc page pagetable forkret s = found page pagetable forkret (find_unused nproc 0 s)

-- The loop of `fork` over the open files, from descriptor `fd` on, with `k` left.
unfoldable pub dup_from : ℕ → ℕ → ℕ → ℕ → Table → Table
dup_from zero fd i np s = s
dup_from (suc k) fd i np s = dup_from k (fd + 1) i np (elim ((get i s).ofile fd) [
  | none ↦ s
  | some f ↦
      put np (record (get np s) { ofile = update (get np s).ofile fd (some f) })
        (call (filedup f) s)
])

-- `fork()` from `np->sz = p->sz` on: process `i` makes `np` its child.
unfoldable pub fork_into : ℕ → ℕ → Table → ℤ × Table
fork_into i np s =
    let t =
      put np
        (record (get np s) {
          sz = (get i s).sz;
          parent = some i;
          frame = record ((get i s).frame) { a0 = 0 };
        })
        s in
    let u = dup_from nofile 0 i np t in
    let v =
      put np (record (get np u) { cwd = (get i u).cwd; name = (get i u).name; state = runnable })
        (call (idup (get i u).cwd) u) in
    (pos (get np v).pid, release np v)

-- `fork()` after its call of `allocproc`.
unfoldable pub forked : ℕ → Bool → Option ℕ × Table → ℤ × Table
forked i copied (none, s) = (minus_one, s)
forked i copied (some np, s) =
    if not copied then (minus_one, release np (freeproc np s)) else fork_into i np s

-- `fork()` by process `i`, given what `allocproc` asks for and whether `uvmcopy` succeeds.
unfoldable pub fork : ℕ → Option ℕ → Option ℕ → ℕ → Bool → Table → ℤ × Table
fork i page pagetable forkret copied s = forked i copied (allocproc page pagetable forkret s)
