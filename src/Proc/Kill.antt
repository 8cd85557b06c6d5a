-- ===== src/Proc/Kill.antt =====
-- `kill`: the victim, and what is left alone.
use mathlib.Core.Path.{subst}
use mit6s.Base.{
  ℕ, zero, suc, ◌+◌, ◌≤◌, ◌<◌, ◌≡◌, ◌≢◌, ◌⊎◌, inl, inr, refl, ap, sym, ◌∙◌, arith, Bool-cases, true,
  false, if◌then◌else◌, ℤ, pos, minus_one, ◌==◌, ==_ne, ℕ_discrete,
}
use mit6s.Proc.{
  nproc, sleeping, runnable, is, Proc, Table, get, put, acquire, release, locked, unlocked,
  killed_proc, kill_from, kill,
}
use mit6s.Proc.Slots.{get-put, SameButLock, SameButLock-trans, pass-SameButLock, SameGlobals}

-- A process that has been killed: marked, and awake if it slept.
abbrev pub victim_of : Proc → Proc
victim_of p = record p {
  lock = false;
  killed = true;
  state = if is p.state sleeping then runnable else p.state;
}

-- Process `i` is the first from `lo` on that has the pid, and only it has been changed.
pub record Hit (pid lo i : ℕ) (s t : Table) : Type 0 where
  pub found : (get i s).pid ≡ pid
  pub first : (j : ℕ) → lo ≤ j → j < i → (get j s).pid ≢ pid
  pub victim : get i t ≡ victim_of (get i s)
  pub others : (j : ℕ) → i ≢ j → SameButLock (get j s) (get j t)
  pub globals : SameGlobals s t

-- No process of the range has the pid, and none has been changed.
pub record Miss (pid lo hi : ℕ) (s t : Table) : Type 0 where
  pub nowhere : (j : ℕ) → lo ≤ j → j < hi → (get j s).pid ≢ pid
  pub others : (j : ℕ) → SameButLock (get j s) (get j t)
  pub globals : SameGlobals s t

abbrev pub KillEnd : ℕ → ℕ → ℕ → Table → ℤ × Table → Type 0
KillEnd pid lo hi s (r, t) =
    ((r ≡ pos 0) × ((i : ℕ) × (lo ≤ i) × (i < hi) × Hit pid lo i s t))
    ⊎ ((r ≡ minus_one) × Miss pid lo hi s t)

killed_proc-victim : (p : Proc) → unlocked (killed_proc (locked p)) ≡ victim_of p
killed_proc-victim p = elim (Bool-cases (is p.state sleeping)) [
  | inl e ↦ rw e refl
  | inr e ↦ rw e refl
]

Hit-here :
    (pid k i : ℕ) (s : Table) (q : Proc)
    → (get i s).pid ≡ pid
    → q ≡ unlocked (killed_proc (locked (get i s)))
    → Hit pid i i s (put i q s)
Hit-here pid k i s q e eq = record {
  found = e;
  first = λ j lo hi. absurd (omega arith);
  victim = get-put i q s ∙ eq ∙ killed_proc-victim (get i s);
  others = λ j ne. rw (==_ne i j ne) refl;
  globals = (refl, refl, refl);
}

kill_from-hit :
    (pid k i : ℕ) (s : Table)
    → ((get i s).pid == pid) ≡ true
    → kill_from (suc k) i pid s ≡ (pos 0, put i (unlocked (killed_proc (locked (get i s)))) s)
unfolding kill_from
kill_from-hit pid k i s e = rw e refl

kill_from-pass :
    (pid k i : ℕ) (s : Table)
    → ((get i s).pid == pid) ≡ false
    → kill_from (suc k) i pid s ≡ kill_from k (i + 1) pid (release i (acquire i s))
unfolding kill_from
kill_from-pass pid k i s e = rw e refl

-- A process that is passed over, before the rest of the range.
pass-KillEnd :
    (pid lo hi : ℕ) (s : Table) (out : ℤ × Table)
    → (get lo s).pid ≢ pid
    → KillEnd pid (lo + 1) hi (release lo (acquire lo s)) out
    → KillEnd pid lo hi s out
pass-KillEnd pid lo hi s (r, t) ne (inl (e, (i, le, lt, h))) =
    let same : (j : ℕ) → SameButLock (get j s) (get j (release lo (acquire lo s))) =
      pass-SameButLock lo s in
    inl (
      e,
      (
        i,
        omega arith,
        lt,
        record {
          found = sym (ap (λ p. p.pid) (same i)) ∙ h.found;
          first = λ j a b. elim (ℕ_discrete lo j) [
            | yes q ↦ rw (sym q) ne
            | no nq ↦ λ g. h.first j (omega arith) b (ap (λ p. p.pid) (same j) ∙ g)
          ];
          victim = h.victim ∙ ap victim_of (same i);
          others = λ j nj.
              SameButLock-trans (get j s) (get j (release lo (acquire lo s))) (get j t) (same j)
                (h.others j nj);
          globals = h.globals;
        },
      ),
    )
pass-KillEnd pid lo hi s (r, t) ne (inr (e, h)) =
    let same : (j : ℕ) → SameButLock (get j s) (get j (release lo (acquire lo s))) =
      pass-SameButLock lo s in
    inr (
      e,
      record {
        nowhere = λ j a b. elim (ℕ_discrete lo j) [
          | yes q ↦ rw (sym q) ne
          | no nq ↦ λ g. h.nowhere j (omega arith) b (ap (λ p. p.pid) (same j) ∙ g)
        ];
        others = λ j.
            SameButLock-trans (get j s) (get j (release lo (acquire lo s))) (get j t) (same j)
              (h.others j);
        globals = h.globals;
      },
    )

kill_from-KillEnd : (pid k i : ℕ) (s : Table) → KillEnd pid i (i + k) s (kill_from k i pid s)
unfolding kill_from
kill_from-KillEnd pid zero i s = inr (
  refl,
  record {
    nowhere = λ j lo hi. absurd (omega arith);
    others = λ j. refl;
    globals = (refl, refl, refl);
  },
)
kill_from-KillEnd pid (suc k) i s = elim (ℕ_discrete (get i s).pid pid) [
  | yes e ↦
      subst (KillEnd pid i (i + suc k) s) (sym (kill_from-hit pid k i s (ground arith)))
        (inl (refl, (i, omega arith, omega arith, Hit-here pid k i s _ e refl)))
  | no ne ↦
      let eh : i + suc k ≡ i + 1 + k = omega arith in
      subst (KillEnd pid i (i + suc k) s) (sym (kill_from-pass pid k i s (==_ne _ pid ne))) (
        rw eh (
          pass-KillEnd pid i (i + 1 + k) s _ ne
            (kill_from-KillEnd pid k (i + 1) (release i (acquire i s)))))
]

-- `kill(pid)` on any table: either it returns 0, and the first process that has the pid is marked
-- killed, and made runnable if it slept, or no process has the pid and it returns -1. Nothing else
-- changes, apart from locks, and the lock of the victim is free again.
pub kill-KillEnd : (pid : ℕ) (s : Table) → KillEnd pid 0 nproc s (kill pid s)
unfolding kill
kill-KillEnd pid s = kill_from-KillEnd pid nproc 0 s
