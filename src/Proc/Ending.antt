-- ===== src/Proc/Ending.antt =====
-- kernel/proc.c: `reparent`, `exit` and `wait`.
use mit6s.Base.{
  ℕ, zero, suc, ◌+◌, Bool, true, false, not, ◌&&◌, ◌||◌, Option, none, some, ◌==◌, if◌then◌else◌, ℤ,
  pos, minus_one, update,
}
use mit6s.Proc.State.{
  nproc, nofile, is, Table, get, put, call, unlocked, acquire, release, sleeping, zombie, proc_chan,
  fileclose, iput, begin_op, end_op, copyout,
}
use mit6s.Proc.Scheduling.{wakeup1}
use mit6s.Proc.Creation.{freeproc}

-- The loop of `exit` over the open files, from descriptor `fd` on, with `k` left.
unfoldable pub close_from : ℕ → ℕ → ℕ → Table → Table
close_from zero fd i s = s
close_from (suc k) fd i s = close_from k (fd + 1) i (elim ((get i s).ofile fd) [
  | none ↦ s
  | some f ↦
      put i (record (get i s) { ofile = update (get i s).ofile fd none }) (call (fileclose f) s)
])

abbrev pub is_parent : ℕ → Option ℕ → Bool
is_parent i none = false
is_parent i (some j) = j == i

-- The loop of `reparent(p)` from process `j` on, with `k` left.
unfoldable pub reparent_from : ℕ → ℕ → ℕ → Table → Table
reparent_from zero j i s = s
reparent_from (suc k) j i s = reparent_from k (j + 1) i (
    if is_parent i (get j s).parent
    then put j (unlocked (record (get j s) { parent = some s.initproc })) s
    else s)

unfoldable pub reparent : ℕ → Table → Table
reparent i s = reparent_from nproc 0 i s

-- `exit` up to `p->cwd = 0`.
unfoldable pub exit_files : ℕ → Table → Table
exit_files i s =
    let t = close_from nofile 0 i s in
    let u = call end_op (call (iput (get i t).cwd) (call begin_op t)) in
    put i (record (get i u) { cwd = none }) u

-- `exit` from `acquire(&original_parent->lock)` on, for the original parent `o`.
unfoldable pub exit_zombie : ℕ → ℕ → ℕ → Table → Option Table
exit_zombie i status o s = elim (wakeup1 o (reparent i (acquire i (acquire o s)))) [
  | none ↦ none
  | some t ↦ some (release o (put i (record (get i t) { xstate = status; state = zombie }) t))
]

-- `exit` after `wakeup1(initproc)`; none is the use of a null parent.
unfoldable pub exit_parent : ℕ → ℕ → Table → Option Table
exit_parent i status s =
    let t = acquire i (release s.initproc s) in
    elim ((get i t).parent) [ none ↦ none | some o ↦ exit_zombie i status o (release i t) ]

-- `exit(status)`, up to its call of `sched`, by process `i`; none is a panic or a null pointer.
unfoldable pub exit : ℕ → ℕ → Table → Option Table
exit i status s =
    if i == s.initproc
    then none
    else let t = exit_files i s in
      elim (wakeup1 t.initproc (acquire t.initproc t)) [
        | none ↦ none
        | some u ↦ exit_parent i status u
      ]

-- How a stretch of `wait` ends.
pub data WaitEnd : Type 0 where
  returned : ℤ → WaitEnd
  asleep : WaitEnd

-- What `wait` does with a child `j` that has exited. `copied` is what `copyout` answers.
unfoldable pub reap : ℕ → ℕ → Bool → ℕ → Table → ℤ × Table
reap i addr copied j s =
    let np = get j s in
    if not (addr == 0) && not copied
    then (minus_one, release i (release j s))
    else let t = if addr == 0 then s else call (copyout addr np.xstate) s in
      (pos np.pid, release i (release j (freeproc j t)))

-- The scan of `wait` by process `i` from process `j` on, with `k` left, and what follows it.
unfoldable pub wait_from : ℕ → ℕ → ℕ → ℕ → Bool → Bool → Table → WaitEnd × Table
wait_from zero j i addr copied havekids s =
    if not havekids || (get i s).killed
    then (returned minus_one, release i s)
    else (asleep, put i (record (get i s) { chan = proc_chan i; state = sleeping }) s)
wait_from (suc k) j i addr copied havekids s =
    let t = acquire j s in
    let next = wait_from k (j + 1) i addr copied havekids s in
    let next_child = wait_from k (j + 1) i addr copied true (release j t) in
    if is_parent i (get j s).parent
    then (if is (get j t).state zombie
        then (let (r, u) = reap i addr copied j t in (returned r, u))
        else next_child)
    else next

-- `wait(addr)` by process `i`, up to its return or its next `sleep`, after which the scan starts
-- again. `p->lock` is taken first.
unfoldable pub wait : ℕ → ℕ → Bool → Table → WaitEnd × Table
wait i addr copied s = wait_from nproc 0 i addr copied false (acquire i s)
