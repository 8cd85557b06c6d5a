-- ===== src/Proc/Life.antt =====
-- Processes that run, in any order: what all tables that can be reached have in common.
use mit6s.Base.{ℕ, ◌<◌, ◌≡◌, ◌≢◌, sym, ap, ◌∙◌, some_inj, Option, some, none, Bool}
use mathlib.Core.Path.{subst}
use mit6s.Proc.{
  nproc, running, Table, Chan, get, wakeup, kill, yield, sleep, sleep_end, schedule, fork, exit,
  wait,
}
use mit6s.Proc.Family.{alive, Family}
use mit6s.Proc.Keeps.{
  wakeup-Family, kill-Family, yield-Family, sleep-Family, sleep_end-Family, schedule-Family,
}
use mit6s.Proc.Births.{fork-Family}
use mit6s.Proc.Deaths.{exit-living}
use mit6s.Proc.Reaps.{wait-Family}

-- One operation. `fork`, `exit`, `wait`, `yield` and `sleep` are called by a process that runs;
-- what allocation and copying answer is arbitrary.
pub data Step (s : Table) : Table → Type 0 where
  wakes : (c : Chan) → Step s (wakeup c s)
  kills : (pid : ℕ) → Step s (kill pid s).1
  schedules : (i : ℕ) → Step s (schedule i s).1
  resumes : (i : ℕ) → Step s (sleep_end i s)
  yields : (i : ℕ) → (get i s).state ≡ running → Step s (yield i s)
  sleeps_on : (i : ℕ) (c : Chan) → (get i s).state ≡ running → Step s (sleep i c s)
  forks :
      (i : ℕ) (page pagetable : Option ℕ) (forkret : ℕ) (copied : Bool)
      → i < nproc
      → (get i s).state ≡ running
      → Step s (fork i page pagetable forkret copied s).1
  exits :
      (i status : ℕ) (t : Table)
      → i < nproc
      → (get i s).state ≡ running
      → i ≢ s.initproc
      → exit i status s ≡ some t
      → Step s t
  waits :
      (i addr : ℕ) (copied : Bool)
      → i < nproc
      → (get i s).state ≡ running
      → Step s (wait i addr copied s).1

pub data Reach (s : Table) : Table → Type 0 where
  here : Reach s s
  next : {t u : Table} → Reach s t → Step t u → Reach s u

Step-Family : {s t : Table} → Step s t → Family s → Family t
Step-Family {s} (wakes c) f = wakeup-Family c s f
Step-Family {s} (kills pid) f = kill-Family pid s f
Step-Family {s} (schedules i) f = schedule-Family i s f
Step-Family {s} (resumes i) f = sleep_end-Family i s f
Step-Family {s} (yields i r) f = yield-Family i s r f
Step-Family {s} (sleeps_on i c r) f = sleep-Family i c s r f
Step-Family {s} (forks i page pagetable forkret copied li r) f =
    fork-Family i page pagetable forkret copied s li r f
Step-Family {s} (exits i status t li r ni e) f =
    let (o, u, eu, w, g) = exit-living i status s f li ni (ap alive r) in
    subst Family (some_inj (sym eu ∙ e)) g
Step-Family {s} (waits i addr copied li r) f = wait-Family i addr copied s li r f

-- Whatever the processes do, in any order, the table stays well formed: `initproc` lives; every
-- other process in use has a parent that is alive and older, so that none is an orphan; and the
-- pids of processes in use are positive, below the next one, and no two the same.
pub Reach-Family : {s t : Table} → Reach s t → Family s → Family t
Reach-Family here f = f
Reach-Family (next r st) f = Step-Family st (Reach-Family r f)

-- In every table that can be reached from a well-formed one, a running process other than
-- `initproc` can exit without a panic.
pub exit_succeeds :
    {s t : Table}
    → Reach s t
    → Family s
    → (i status : ℕ) → i < nproc
    → i ≢ t.initproc
    → (get i t).state ≡ running
    → exit i status t ≢ none
exit_succeeds {t = t} r f i status li ni st e =
    let (o, u, eu, w, g) = exit-living i status t (Reach-Family r f) li ni (ap alive st) in
    cc (eu, e)
