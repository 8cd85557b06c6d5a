-- ===== src/Proc/Wake.antt =====
-- `wakeup` and `sleep`: who is woken.
use mit6s.Base.{
  ℕ, zero, suc, ◌+◌, ◌<◌, ◌≡◌, ◌≢◌, ◌⊎◌, inl, inr, refl, ap, ◌∙◌, arith, Bool, true, false, ◌&&◌,
  if◌then◌else◌, ltb, leb, ==_refl, Bool-cases,
}
use mit6s.Proc.{
  nproc, ProcState, unused, sleeping, runnable, running, zombie, is, Chan, no_chan, proc_chan,
  addr_chan, same_chan, Proc, Table, get, locked, unlocked, woken, wakeup_from, wakeup, sleep,
  sleep_end, schedule,
}

wakeup_from-procs :
    (k i : ℕ) (c : Chan) (s : Table) (x : ℕ)
    → (wakeup_from k i c s).procs x
      ≡ (if leb i x && ltb x (i + k) then unlocked (woken c (locked (s.procs x))) else s.procs x)
unfolding wakeup_from
wakeup_from-procs zero i c s x = ground arith
wakeup_from-procs (suc k) i c s x = wakeup_from-procs k (i + 1) c _ x ∙ ground arith

wakeup_from-rest :
    (k i : ℕ) (c : Chan) (s : Table)
    → ((wakeup_from k i c s).nextpid ≡ s.nextpid)
      × ((wakeup_from k i c s).initproc ≡ s.initproc)
      × ((wakeup_from k i c s).calls ≡ s.calls)
unfolding wakeup_from
wakeup_from-rest zero i c s = (refl, refl, refl)
wakeup_from-rest (suc k) i c s = wakeup_from-rest k (i + 1) c _

pub same_chan_refl : (c : Chan) → same_chan c c ≡ true
same_chan_refl no_chan = refl
same_chan_refl (proc_chan i) = ==_refl i
same_chan_refl (addr_chan a) = ==_refl a

pub same_chan-eq : (c d : Chan) → same_chan c d ≡ true → c ≡ d
same_chan-eq no_chan no_chan h = refl
same_chan-eq no_chan (proc_chan j) h = absurd (ground arith)
same_chan-eq no_chan (addr_chan j) h = absurd (ground arith)
same_chan-eq (proc_chan i) no_chan h = absurd (ground arith)
same_chan-eq (proc_chan i) (proc_chan j) h = ap proc_chan (ground arith)
same_chan-eq (proc_chan i) (addr_chan j) h = absurd (ground arith)
same_chan-eq (addr_chan i) no_chan h = absurd (ground arith)
same_chan-eq (addr_chan i) (proc_chan j) h = absurd (ground arith)
same_chan-eq (addr_chan i) (addr_chan j) h = ap addr_chan (ground arith)

pub is-eq : (a b : ProcState) → is a b ≡ true → a ≡ b
is-eq unused unused h = refl
is-eq unused sleeping h = absurd (ground arith)
is-eq unused runnable h = absurd (ground arith)
is-eq unused running h = absurd (ground arith)
is-eq unused zombie h = absurd (ground arith)
is-eq sleeping unused h = absurd (ground arith)
is-eq sleeping sleeping h = refl
is-eq sleeping runnable h = absurd (ground arith)
is-eq sleeping running h = absurd (ground arith)
is-eq sleeping zombie h = absurd (ground arith)
is-eq runnable unused h = absurd (ground arith)
is-eq runnable sleeping h = absurd (ground arith)
is-eq runnable runnable h = refl
is-eq runnable running h = absurd (ground arith)
is-eq runnable zombie h = absurd (ground arith)
is-eq running unused h = absurd (ground arith)
is-eq running sleeping h = absurd (ground arith)
is-eq running runnable h = absurd (ground arith)
is-eq running running h = refl
is-eq running zombie h = absurd (ground arith)
is-eq zombie unused h = absurd (ground arith)
is-eq zombie sleeping h = absurd (ground arith)
is-eq zombie runnable h = absurd (ground arith)
is-eq zombie running h = absurd (ground arith)
is-eq zombie zombie h = refl

pub is_refl : (a : ProcState) → is a a ≡ true
is_refl unused = refl
is_refl sleeping = refl
is_refl runnable = refl
is_refl running = refl
is_refl zombie = refl

pub and-true : (a b : Bool) → a && b ≡ true → (a ≡ true) × (b ≡ true)
and-true true b h = (refl, h)
and-true false b h = absurd (ground arith)

-- What a `wakeup` of `c` makes of a process `p`.
pub record Woken (c : Chan) (p q : Proc) : Type 0 where
  pub wakes : p.state ≡ sleeping → p.chan ≡ c → q.state ≡ runnable
  pub keeps : (p.state ≢ sleeping) ⊎ (p.chan ≢ c) → q.state ≡ p.state
  pub others : q ≡ record p { lock = false; state = q.state }

woken-Woken : (c : Chan) (p : Proc) → Woken c p (unlocked (woken c (locked p)))
woken-Woken c p = elim (Bool-cases (is p.state sleeping && same_chan p.chan c)) [
  | inl e ↦ rw e (record {
    wakes = λ h g. refl;
    keeps = λ h. absurd (
        let (a, b) = and-true _ _ e in
        elim h [ inl n ↦ n (is-eq p.state sleeping a) | inr n ↦ n (same_chan-eq p.chan c b) ]);
    others = refl;
  })
  | inr e ↦ rw e (record {
    wakes = λ h g. absurd (ground (arith, is_refl sleeping, same_chan_refl c));
    keeps = λ h. refl;
    others = refl;
  })
]

pub wakeup-procs :
    (c : Chan) (s : Table) (i : ℕ)
    → i < nproc
    → get i (wakeup c s) ≡ unlocked (woken c (locked (get i s)))
unfolding wakeup
wakeup-procs c s i lt = wakeup_from-procs nproc 0 c s i ∙ ground arith

pub wakeup-same :
    (c : Chan) (s : Table)
    → ((wakeup c s).nextpid ≡ s.nextpid) × ((wakeup c s).initproc ≡ s.initproc)
unfolding wakeup
wakeup-same c s = let (n, p, _) = wakeup_from-rest nproc 0 c s in (n, p)

-- `wakeup(chan)` makes exactly the processes runnable that sleep on `chan`, and changes nothing
-- else in the table, apart from the locks, which it leaves free.
pub wakeup-Woken :
    (c : Chan) (s : Table) (i : ℕ) → i < nproc → Woken c (get i s) (get i (wakeup c s))
wakeup-Woken c s i lt = rw (wakeup-procs c s i lt) (woken-Woken c (get i s))

sleep-at :
    (c : Chan) (s : Table) (i : ℕ)
    → get i (sleep i c s) ≡ record (get i s) { lock = true; state = sleeping; chan = c }
unfolding sleep
sleep-at c s i = rw (==_refl i) refl

sleep_end-at :
    (s : Table) (i : ℕ) → get i (sleep_end i s) ≡ record (get i s) { lock = false; chan = no_chan }
unfolding sleep_end
sleep_end-at s i = rw (==_refl i) refl

schedule-at :
    (s : Table) (i : ℕ)
    → (get i s).state ≡ runnable
    → ((schedule i s).0 ≡ true)
      × (get i (schedule i s).1 ≡ record (get i s) { lock = true; state = running })
unfolding schedule
schedule-at s i e = rw (==_refl i, e, ==_refl i) (refl, refl)

-- A sleep leaves no trace: let process `i` go to sleep on a channel, let that channel be woken, let
-- the scheduler find the process, and let its `sleep` end, each as one step. Then the
-- scheduler has switched to it, and the process is as before, running, with its channel cleared
-- and its lock free.
pub sleep-wakeup_runs :
    (c : Chan) (s : Table) (i : ℕ)
    → i < nproc
    → let (switched, t) = schedule i (wakeup c (sleep i c s)) in
      (switched ≡ true)
      × (get i (sleep_end i t) ≡ record (get i s) { lock = false; state = running; chan = no_chan })
sleep-wakeup_runs c s i lt =
    let z = sleep i c s in
    let w = wakeup-Woken c z i lt in
    let ez = sleep-at c s i in
    let idle : Proc → Proc = λ p. record p { lock = false; chan = no_chan } in
    let on_cpu : Proc → Proc = λ p. record p { lock = true; state = running } in
    let in_state : ProcState → Proc → Proc = λ x p. record p { lock = false; state = x } in
    let er : (get i (wakeup c z)).state ≡ runnable =
      w.wakes (ap (λ p. p.state) ez) (ap (λ p. p.chan) ez) in
    let (go, e) = schedule-at (wakeup c z) i er in
    (
      go,
      sleep_end-at _ i
          ∙ ap idle (e ∙ ap on_cpu (w.others ∙ ap (in_state (get i (wakeup c z)).state) ez)),
    )
