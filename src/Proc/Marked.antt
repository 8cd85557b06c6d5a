-- ===== src/Proc/Marked.antt =====
-- A `kill` that hits a process before it is born.
use mathlib.Core.Path.{subst}
use mit6s.Base.{
  ℕ, ◌<◌, ◌≡◌, ◌≢◌, inl, inr, refl, ap, sym, ◌∙◌, arith, some, true, false, if◌then◌else◌, pos, ℤ,
}
use mit6s.Proc.{
  nproc, unused, sleeping, runnable, running, zombie, is, ProcState, Table, get, fork, kill,
}
use mit6s.Proc.Slots.{SameButLock}
use mit6s.Proc.Vacant.{is_unused}
use mit6s.Proc.Kill.{victim_of, kill-KillEnd}
use mit6s.Proc.Child.{ForkEnd, failed, born, first_unique, fork-ForkEnd, lt_cases}

victim_unused :
    (x : ProcState) → is x unused ≡ true → is (if is x sleeping then runnable else x) unused ≡ true
victim_unused unused e = refl
victim_unused sleeping e = absurd (ground arith)
victim_unused runnable e = absurd (ground arith)
victim_unused running e = absurd (ground arith)
victim_unused zombie e = absurd (ground arith)

-- With memory to be had, the first unused process is born.
fork-Born :
    (i np tf pt forkret : ℕ) (s t : Table) {r : ℤ}
    → np < nproc
    → is_unused np s ≡ true
    → ((j : ℕ) → j < np → is_unused j s ≡ false)
    → ForkEnd i (some tf) (some pt) forkret true s r t
    → (r ≡ pos s.nextpid) × ((get np t).state ≡ runnable) × ((get np t).killed ≡ (get np s).killed)
fork-Born i np tf pt forkret s t lt u before (failed t' (inl h) un) = absurd (cc (h np lt, u))
fork-Born i np tf pt forkret s t lt u before (failed t' (inr (inl h)) un) = absurd cc
fork-Born i np tf pt forkret s t lt u before (failed t' (inr (inr (inl h))) un) = absurd cc
fork-Born i np tf pt forkret s t lt u before (failed t' (inr (inr (inr h))) un) = absurd cc
fork-Born i np tf pt forkret s t lt u before (born m tf' pt' t' a b c w) =
    let e : m ≡ np = first_unique m np s w.free u w.first before in
    (
      refl,
      subst (λ x. (get x t).state ≡ runnable) e (ap (λ p. p.state) w.child),
      subst (λ x. (get x t).killed ≡ (get x s).killed) e (ap (λ p. p.killed) w.child),
    )

-- A `kill` of pid 0 hits the first unused process, if that has pid 0 and comes first: it returns 0
-- and marks it killed, and the mark is not taken off when the process is allocated: a child that
-- `fork` then makes of it is born killed.
pub kill_zero-born_killed :
    (i np tf pt forkret : ℕ) (s : Table)
    → is_unused i s ≡ false
    → np < nproc
    → is_unused np s ≡ true
    → (get np s).pid ≡ 0
    → ((j : ℕ) → j < np → (is_unused j s ≡ false) × ((get j s).pid ≢ 0))
    → let (r, t) = kill 0 s in
      let (pid, u) = fork i (some tf) (some pt) forkret true t in
      (r ≡ pos 0)
      × (pid ≡ pos t.nextpid)
      × ((get np u).state ≡ runnable)
      × ((get np u).killed ≡ true)
kill_zero-born_killed i np tf pt forkret s iu lt u zero_pid before = elim (kill-KillEnd 0 s) [
  | inr (e, h) ↦ absurd (h.nowhere np (omega arith) lt zero_pid)
  | inl (e, (m, lo, lm, h)) ↦
      let t : Table = (kill 0 s).1 in
      let em : m ≡ np = elim (lt_cases m np) [
        | inl q ↦ q
        | inr (inl l) ↦ absurd ((before m l).1 h.found)
        | inr (inr l) ↦ absurd (h.first np (omega arith) l zero_pid)
      ] in
      let ev : get np t ≡ victim_of (get np s) =
        subst (λ x. get x t ≡ victim_of (get x s)) em h.victim in
      let others : (j : ℕ) → np ≢ j → SameButLock (get j s) (get j t) =
        λ j ne. h.others j (λ q. ne (sym em ∙ q)) in
      let ut : is_unused np t ≡ true =
        ap (λ p. is p.state unused) ev ∙ victim_unused (get np s).state u in
      let bt : (j : ℕ) → j < np → is_unused j t ≡ false =
        λ j l. ap (λ p. is p.state unused) (others j (omega arith)) ∙ (before j l).0 in
      let ni : np ≢ i = λ q. cc (ap (λ x. is_unused x s) q, u, iu) in
      let it : is_unused i t ≡ false = ap (λ p. is p.state unused) (others i ni) ∙ iu in
      let (r, st, k) =
        fork-Born i np tf pt forkret t _ lt ut bt
          (fork-ForkEnd i (some tf) (some pt) forkret true t it) in
      (e, r, st, k ∙ ap (λ p. p.killed) ev)
]
