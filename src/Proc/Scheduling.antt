-- ===== src/Proc/Scheduling.antt =====
-- kernel/proc.c: `wakeup`, `wakeup1`, `kill`, `sched`, `yield`, `sleep` and `scheduler`.
use mit6s.Base.{
  ℕ, zero, suc, ◌+◌, Bool, true, false, not, ◌&&◌, Option, none, some, ◌==◌, if◌then◌else◌, ℤ, pos,
  minus_one,
}
use mit6s.Proc.State.{
  nproc, is, Chan, same_chan, Proc, Table, get, put, locked, unlocked, acquire, release, sleeping,
  runnable, running, no_chan, proc_chan,
}

-- The body of the `if` of `wakeup`.
abbrev pub woken : Chan → Proc → Proc
woken c p = if is p.state sleeping && same_chan p.chan c then record p { state = runnable } else p

-- `wakeup(chan)`: the loop from process `i` on, with `k` left.
unfoldable pub wakeup_from : ℕ → ℕ → Chan → Table → Table
wakeup_from zero i c s = s
wakeup_from (suc k) i c s =
    wakeup_from k (i + 1) c (put i (unlocked (woken c (locked (get i s)))) s)

unfoldable pub wakeup : Chan → Table → Table
wakeup c s = wakeup_from nproc 0 c s

-- `wakeup1(p)`; none is the panic.
unfoldable pub wakeup1 : ℕ → Table → Option Table
wakeup1 i s =
    let p = get i s in
    if not p.lock
    then none
    else if same_chan p.chan (proc_chan i) && is p.state sleeping
    then some (put i (record p { state = runnable }) s)
    else some s

-- What `kill` does to its victim.
abbrev pub killed_proc : Proc → Proc
killed_proc p =
    let q = record p { killed = true } in
    if is q.state sleeping then record q { state = runnable } else q

-- `kill(pid)`: the loop from process `i` on, with `k` left. A process that is passed over has its
-- lock taken and released.
unfoldable pub kill_from : ℕ → ℕ → ℕ → Table → ℤ × Table
kill_from zero i pid s = (minus_one, s)
kill_from (suc k) i pid s =
    let rest = kill_from k (i + 1) pid (release i (acquire i s)) in
    if (get i s).pid == pid
    then (pos 0, put i (unlocked (killed_proc (locked (get i s)))) s)
    else rest

unfoldable pub kill : ℕ → Table → ℤ × Table
kill pid s = kill_from nproc 0 pid s

-- The checks of `sched`; `noff` and `intr` are what the CPU says. False is one of the panics.
pub sched_ok : ℕ → ℕ → Bool → Table → Bool
sched_ok i noff intr s = (get i s).lock && noff == 1 && not (is (get i s).state running) && not intr

-- `yield()`, up to its call of `sched`.
unfoldable pub yield : ℕ → Table → Table
yield i s = let t = acquire i s in put i (record (get i t) { state = runnable }) t

-- `p->chan = chan; p->state = SLEEPING;`
abbrev pub fall_asleep : ℕ → Chan → Table → Table
fall_asleep i c s = put i (record (get i s) { chan = c; state = sleeping }) s

-- `sleep(chan, lk)` up to its call of `sched`, for an `lk` that is not `p->lock`; `lk` is released
-- by the caller's model, and by `sleeper_step` below.
unfoldable pub sleep : ℕ → Chan → Table → Table
sleep i c s = fall_asleep i c (acquire i s)

-- What `sleep` does when the process runs again.
unfoldable pub sleep_end : ℕ → Table → Table
sleep_end i s = release i (put i (record (get i s) { chan = no_chan }) s)

-- The body of the loop of `scheduler` for process `i`: whether it switches to the process, whose
-- lock is then held until the process comes back.
unfoldable pub schedule : ℕ → Table → Bool × Table
schedule i s =
    let t = acquire i s in
    if is (get i t).state runnable
    then (true, put i (record (get i t) { state = running }) t)
    else (false, release i t)

-- Where a process stands in `sleep`: about to acquire `p->lock`, with both locks, with `p->lock`
-- alone, or switched away.
pub data Sleeper : Type 0 where
  with_lk with_both with_p_lock away : Sleeper

-- Where another stands that wakes it: about to acquire `lk`, with `lk` and the condition made true,
-- past its call of `wakeup`, or past its release of `lk`.
pub data Waker : Type 0 where
  outside inside past_wakeup left : Waker

-- A process in `sleep` and another that wakes it, with the lock `lk` and the condition it guards.
pub record Scene : Type 0 where
  pub table : Table
  pub lk : Bool
  pub condition : Bool
  pub sleeper : Sleeper
  pub waker : Waker

-- A step of process `i` in `sleep(c, lk)`; none while it has to wait. `sched` ends in the scheduler,
-- which releases `p->lock`.
unfoldable pub sleeper_step : ℕ → Chan → Scene → Option Scene
sleeper_step i c x = elim (x.sleeper) [
  | with_lk ↦
      if (get i x.table).lock
      then none
      else some (record x { table = acquire i x.table; sleeper = with_both })
  | with_both ↦ some (record x { lk = false; sleeper = with_p_lock })
  | with_p_lock ↦ some (record x { table = release i (fall_asleep i c x.table); sleeper = away })
  | away ↦ none
]

-- A step of the waker. Of the locks that `wakeup` takes, that of process `i` may be held.
unfoldable pub waker_step : ℕ → Chan → Scene → Option Scene
waker_step i c x = elim (x.waker) [
  | outside ↦ if x.lk then none else some (record x { lk = true; condition = true; waker = inside })
  | inside ↦
      if (get i x.table).lock
      then none
      else some (record x { table = wakeup c x.table; waker = past_wakeup })
  | past_wakeup ↦ some (record x { lk = false; waker = left })
  | left ↦ none
]
