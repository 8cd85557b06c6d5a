-- ===== src/Proc/Keeps.antt =====
-- `wakeup`, `kill` and the scheduling operations keep the invariant of the process table.
use mathlib.Core.Path.{subst}
use mit6s.Base.{
  ℕ, ◌≡◌, ◌≢◌, inl, inr, refl, ap, sym, ◌∙◌, arith, true, false, ℕ_discrete, Bool-cases, ◌&&◌,
  ==_refl, ==_ne,
}
use mit6s.Proc.{
  no_chan, unused, sleeping, runnable, running, zombie, is, ProcState, Proc, Table, Chan, same_chan,
  get, locked, unlocked, woken, wakeup, kill, yield, sleep, sleep_end, schedule,
}
use mit6s.Proc.Wake.{wakeup-procs, wakeup-same, is-eq, and-true}
use mit6s.Proc.Kill.{victim_of, kill-KillEnd}
use mit6s.Proc.Family.{alive, Seen, Family, Quiet-Family, SameButLock-Seen}

pub alive-used : (x : ProcState) → alive x ≡ true → is x unused ≡ false
alive-used unused e = absurd (ground arith)
alive-used sleeping e = refl
alive-used runnable e = refl
alive-used running e = refl
alive-used zombie e = refl

-- A change of lock and channel, and of the state between two in which a process is alive.
pub Seen-alive :
    (p q : Proc)
    → q.pid ≡ p.pid
    → q.parent ≡ p.parent
    → alive p.state ≡ true
    → alive q.state ≡ true
    → Seen p q
Seen-alive p q a b c d = record {
  pid = a;
  parent = b;
  living = d ∙ sym c;
  free = alive-used q.state d ∙ sym (alive-used p.state c);
}

woken-Seen : (c : Chan) (p : Proc) → Seen p (unlocked (woken c (locked p)))
woken-Seen c p = elim (Bool-cases (is p.state sleeping && same_chan p.chan c)) [
  | inl e ↦
      let st : p.state ≡ sleeping = is-eq p.state sleeping (and-true _ _ e).0 in
      rw e (Seen-alive p _ refl refl (ap alive st) refl)
  | inr e ↦ rw e (record { pid = refl; parent = refl; living = refl; free = refl })
]

victim-Seen : (p : Proc) → Seen p (victim_of p)
victim-Seen p = elim (Bool-cases (is p.state sleeping)) [
  | inl e ↦ rw e (Seen-alive p _ refl refl (ap alive (is-eq p.state sleeping e)) refl)
  | inr e ↦ rw e (record { pid = refl; parent = refl; living = refl; free = refl })
]

pub wakeup-Family : (c : Chan) (s : Table) → Family s → Family (wakeup c s)
wakeup-Family c s =
    Quiet-Family s (wakeup c s)
      (λ j lj. subst (Seen (get j s)) (sym (wakeup-procs c s j lj)) (woken-Seen c (get j s)))
      (wakeup-same c s)

pub kill-Family : (pid : ℕ) (s : Table) → Family s → Family (kill pid s).1
kill-Family pid s = elim (kill-KillEnd pid s) [
  | inl (e, (i, lo, lt, h)) ↦
      let (n, p, _) = h.globals in
      Quiet-Family s (kill pid s).1
        (λ j lj. elim (ℕ_discrete i j) [
          | yes q ↦
              subst (λ x. Seen (get x s) (get x (kill pid s).1)) q
                (subst (Seen (get i s)) (sym h.victim) (victim-Seen (get i s)))
          | no ne ↦ SameButLock-Seen _ _ (h.others j ne)
        ])
        (n, p)
  | inr (e, h) ↦
      let (n, p, _) = h.globals in
      Quiet-Family s (kill pid s).1 (λ j lj. SameButLock-Seen _ _ (h.others j)) (n, p)
]

-- A store to one process that the invariant does not see.
put-Family :
    (i : ℕ) (q : Proc) (s t : Table)
    → Seen (get i s) q
    → get i t ≡ q
    → ((j : ℕ) → i ≢ j → get j t ≡ get j s)
    → (t.nextpid ≡ s.nextpid) × (t.initproc ≡ s.initproc)
    → Family s
    → Family t
put-Family i q s t v e o = Quiet-Family s t (λ j lj. elim (ℕ_discrete i j) [
  | yes k ↦ subst (λ x. Seen (get x s) (get x t)) k (subst (Seen (get i s)) (sym e) v)
  | no ne ↦
      subst (Seen (get j s)) (sym (o j ne))
        (record { pid = refl; parent = refl; living = refl; free = refl })
])

pub yield-Family : (i : ℕ) (s : Table) → (get i s).state ≡ running → Family s → Family (yield i s)
unfolding yield
yield-Family i s r =
    put-Family i _ s (yield i s)
      (Seen-alive (get i s) (record (get i s) { lock = true; state = runnable }) refl refl
        (ap alive r) refl)
      (rw (==_refl i) refl) (λ j ne. rw (==_ne i j ne) refl) (refl, refl)

pub sleep-Family :
    (i : ℕ) (c : Chan) (s : Table) → (get i s).state ≡ running → Family s → Family (sleep i c s)
unfolding sleep
sleep-Family i c s r =
    put-Family i _ s (sleep i c s)
      (Seen-alive (get i s) (record (get i s) { lock = true; chan = c; state = sleeping }) refl refl
        (ap alive r) refl)
      (rw (==_refl i) refl) (λ j ne. rw (==_ne i j ne) refl) (refl, refl)

pub sleep_end-Family : (i : ℕ) (s : Table) → Family s → Family (sleep_end i s)
unfolding sleep_end
sleep_end-Family i s =
    put-Family i (record (get i s) { lock = false; chan = no_chan }) s (sleep_end i s)
      (record { pid = refl; parent = refl; living = refl; free = refl }) (rw (==_refl i) refl)
      (λ j ne. rw (==_ne i j ne) refl) (refl, refl)

pub schedule-Family : (i : ℕ) (s : Table) → Family s → Family (schedule i s).1
unfolding schedule
schedule-Family i s = elim (Bool-cases (is (get i s).state runnable)) [
  | inl e ↦
      let st : (get i s).state ≡ runnable = is-eq (get i s).state runnable e in
      rw (==_refl i, e)
        (put-Family i _ s _
          (Seen-alive (get i s) (record (get i s) { lock = true; state = running }) refl refl
            (ap alive st) refl)
          (rw (==_refl i) refl) (λ j ne. rw (==_ne i j ne) refl) (refl, refl))
  | inr e ↦
      rw (==_refl i, e)
        (put-Family i (record (get i s) { lock = false }) s _
          (record { pid = refl; parent = refl; living = refl; free = refl }) (rw (==_refl i) refl)
          (λ j ne. rw (==_ne i j ne) refl) (refl, refl))
]
