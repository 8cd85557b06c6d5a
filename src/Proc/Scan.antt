-- ===== src/Proc/Scan.antt =====
-- `wait`: the scan, from its end backwards.
use mathlib.Core.Path.{subst}
use mit6s.Base.{
  ℕ, zero, suc, ◌+◌, ◌<◌, ◌≡◌, ◌≢◌, ◌⊎◌, inl, inr, refl, ap, sym, ◌∙◌, arith, Bool-cases, some,
  Bool, true, false, if◌then◌else◌, ◌==◌, ==_refl, ==_ne, ℕ_discrete, ◌&&◌, ◌||◌, not, pos,
}
use mit6s.Proc.{
  nproc, zombie, Proc, is, Table, get, locked, unlocked, acquire, release, cleared, freeproc,
  returned, reap, wait_from, wait, call, copyout,
}
use mit6s.Proc.Wait.{
  is_child, is_dead_child, SameCounts, AllButLock, WaitOf, reaped, not_copied, gives_up, sleeps,
  pass-WaitOf,
}
use mit6s.Proc.Kin.{is_parent-eq}
use mit6s.Proc.Slots.{
  get-put, get-put_ne, SameButLock, SameButLock-trans, pass-SameButLock, freeproc-at, freeproc-ne,
  freeproc-globals,
}

pub acquire-AllButLock : (i : ℕ) (s : Table) → AllButLock s (acquire i s)
acquire-AllButLock i s j = elim (ℕ_discrete i j) [
  | yes e ↦ rw (sym e, ==_refl i) refl
  | no ne ↦ rw (==_ne i j ne) refl
]

release-AllButLock : (i : ℕ) (s : Table) → AllButLock s (release i s)
release-AllButLock i s j = elim (ℕ_discrete i j) [
  | yes e ↦ rw (sym e, ==_refl i) refl
  | no ne ↦ rw (==_ne i j ne) refl
]

AllButLock-trans : (s t u : Table) → AllButLock s t → AllButLock t u → AllButLock s u
AllButLock-trans s t u a b j = SameButLock-trans (get j s) (get j t) (get j u) (a j) (b j)

gives_up_why :
    {P : Type 0} (kids killed : Bool)
    → P
    → not kids || killed ≡ true
    → ((kids ≡ false) × P) ⊎ (killed ≡ true)
gives_up_why true killed p e = inr e
gives_up_why false killed p e = inl (refl, p)

sleeps_why : (kids killed : Bool) → not kids || killed ≡ false → (kids ≡ true) × (killed ≡ false)
sleeps_why true killed e = (refl, e)
sleeps_why false killed e = absurd (ground arith)

copy_why :
    (addr : ℕ) (copied : Bool)
    → not (addr == 0) && not copied ≡ false
    → (addr ≡ 0) ⊎ (copied ≡ true)
copy_why addr true e = inr refl
copy_why addr false e = inl (ground arith)

-- The scan at its end.
scanned-WaitOf :
    (i addr : ℕ) (copied : Bool) (j : ℕ) (kids : Bool) (s : Table)
    → let (r, t) = wait_from zero j i addr copied kids s in WaitOf i addr copied j j kids s t r
unfolding wait_from
scanned-WaitOf i addr copied j kids s = elim (Bool-cases (not kids || (get i s).killed)) [
  | inl e ↦ rw e (
      gives_up (λ x a b. absurd (omega arith))
        (gives_up_why kids (get i s).killed (λ x a b. absurd (omega arith)) e)
        (release-AllButLock i s) (refl, refl))
  | inr e ↦ rw e (
      sleeps (λ x a b. absurd (omega arith)) (inl (sleeps_why kids (get i s).killed e).0)
        (sleeps_why kids (get i s).killed e).1 (rw (==_refl i) refl)
        (λ x ne. rw (==_ne i x ne) refl) (refl, refl))
]

-- Process `j`, its lock taken, is freed, and both locks are released. `v` has the processes of
-- the table with the lock taken.
freed-WaitOf :
    (i addr : ℕ) (copied : Bool) (j hi : ℕ) (kids : Bool) (s v : Table)
    → i ≢ j
    → j < hi
    → is_dead_child i j s ≡ true
    → (addr ≡ 0) ⊎ (copied ≡ true)
    → v.procs ≡ (acquire j s).procs
    → SameCounts s v
    → WaitOf i addr copied j hi kids s
        (release i (release j (freeproc j v)))
        (returned (pos (get j (acquire j s)).pid))
freed-WaitOf i addr copied j hi kids s v apart lt d c ev sc =
    let w : Table = release j (freeproc j v) in
    let et : get j (acquire j s) ≡ locked (get j s) = get-put j (locked (get j s)) s in
    let freed : Proc → Proc = λ p. unlocked (cleared p) in
    let m = freeproc-globals j v in
    subst (λ n. WaitOf i addr copied j hi kids s (release i w) (returned (pos n)))
      (sym (ap (λ p. p.pid) et))
      (reaped j (omega arith) lt d (λ x a b. absurd (omega arith)) c
        (get-put_ne i _ w j apart ∙ freeproc-at j v ∙ ap (λ f. freed (f j)) ev ∙ ap freed et)
        (λ x ne.
          SameButLock-trans (get x s) (get x w) (get x (release i w))
            (subst (SameButLock (get x s)) (sym (freeproc-ne j v x ne ∙ ap (λ f. f x) ev))
              (acquire-AllButLock j s x))
            (release-AllButLock i w x))
        (m.0 ∙ sc.0, m.1 ∙ sc.1))

-- The child that has exited is found.
found-WaitOf :
    (i addr : ℕ) (copied : Bool) (j hi : ℕ) (kids : Bool) (s : Table)
    → i ≢ j
    → j < hi
    → is_dead_child i j s ≡ true
    → let (r, t) = reap i addr copied j (acquire j s) in
      WaitOf i addr copied j hi kids s t (returned r)
unfolding reap
found-WaitOf i addr copied j hi kids s apart lt d =
    elim (Bool-cases (not (addr == 0) && not copied)) [
      | inl e ↦
          let u : Table = acquire j s in
          rw e (
            not_copied j (omega arith) lt d (λ x a b. absurd (omega arith)) (ground arith)
              (ground arith)
              (AllButLock-trans s (release j u) (release i (release j u))
                (AllButLock-trans s u (release j u) (acquire-AllButLock j s)
                  (release-AllButLock j u))
                (release-AllButLock i (release j u)))
              (refl, refl))
      | inr e ↦
          let v : Table =
            if addr == 0
            then acquire j s
            else call (copyout addr (get j (acquire j s)).xstate) (acquire j s) in
          let same : (v.procs ≡ (acquire j s).procs) × SameCounts s v =
            elim (Bool-cases (addr == 0)) [
              | inl z ↦ rw z (refl, (refl, refl))
              | inr z ↦ rw z (refl, (refl, refl))
            ] in
          rw e (
            freed-WaitOf i addr copied j hi kids s v apart lt d (copy_why addr copied e) same.0
              same.1)
    ]

wait_from-other :
    (k j i addr : ℕ) (copied kids : Bool) (s : Table)
    → is_child i j s ≡ false
    → wait_from (suc k) j i addr copied kids s ≡ wait_from k (j + 1) i addr copied kids s
unfolding wait_from
wait_from-other k j i addr copied kids s e = rw e refl

wait_from-living :
    (k j i addr : ℕ) (copied kids : Bool) (s : Table)
    → is_child i j s ≡ true
    → is (get j s).state zombie ≡ false
    → wait_from (suc k) j i addr copied kids s
      ≡ wait_from k (j + 1) i addr copied true (release j (acquire j s))
unfolding wait_from
wait_from-living k j i addr copied kids s e n = rw (e, ==_refl j, n) refl

wait_from-dead :
    (k j i addr : ℕ) (copied kids : Bool) (s : Table)
    → is_child i j s ≡ true
    → is (get j s).state zombie ≡ true
    → wait_from (suc k) j i addr copied kids s
      ≡ (returned (reap i addr copied j (acquire j s)).0, (reap i addr copied j (acquire j s)).1)
unfolding wait_from
wait_from-dead k j i addr copied kids s e n = rw (e, ==_refl j, n) refl

or_false : (b : Bool) → b || false ≡ b
or_false true = refl
or_false false = refl

or_true : (b : Bool) → b || true ≡ true
or_true true = refl
or_true false = refl

pass-own :
    (i j : ℕ) (s : Table)
    → (get i s).parent ≢ some i
    → (get i (release j (acquire j s))).parent ≢ some i
pass-own i j s own q = own (sym (ap (λ p. p.parent) (pass-SameButLock j s i)) ∙ q)

wait_from-WaitOf :
    (k j i addr : ℕ) (copied kids : Bool) (s : Table)
    → (get i s).parent ≢ some i
    → let (r, t) = wait_from k j i addr copied kids s in WaitOf i addr copied j (j + k) kids s t r
wait_from-WaitOf zero j i addr copied kids s own =
    let eh : j + 0 ≡ j = omega arith in rw eh (scanned-WaitOf i addr copied j kids s)
wait_from-WaitOf (suc k) j i addr copied kids s own =
    let eh : j + suc k ≡ j + 1 + k = omega arith in
    let lt : j < j + 1 + k = omega arith in
    let refl_lock : AllButLock s s = λ x. refl in
    elim (Bool-cases (is_child i j s)) [
      | inr e ↦
          let nd : is_dead_child i j s ≡ false = ap (λ b. b && is (get j s).state zombie) e in
          let ek : kids || is_child i j s ≡ kids = rw e (or_false kids) in
          rw (wait_from-other k j i addr copied kids s e, eh)
            (pass-WaitOf i j s s nd refl_lock addr copied (j + 1 + k) kids _ lt (refl, refl)
              (rw ek (wait_from-WaitOf k (j + 1) i addr copied kids s own)))
      | inl e ↦ elim (Bool-cases (is (get j s).state zombie)) [
        | inl z ↦
            let d : is_dead_child i j s ≡ true = rw (e, z) refl in
            rw (wait_from-dead k j i addr copied kids s e z, eh)
              (found-WaitOf i addr copied j (j + 1 + k) kids s
                (λ q. own (ap (λ x. (get x s).parent) q ∙ is_parent-eq i (get j s).parent e)) lt d)
        | inr n ↦
            let nd : is_dead_child i j s ≡ false = rw (e, n) refl in
            let ek : kids || is_child i j s ≡ true = rw e (or_true kids) in
            let u : Table = release j (acquire j s) in
            rw (wait_from-living k j i addr copied kids s e n, eh)
              (pass-WaitOf i j s u nd (pass-SameButLock j s) addr copied (j + 1 + k) kids _ lt
                (refl, refl)
                (rw ek (wait_from-WaitOf k (j + 1) i addr copied true u (pass-own i j s own))))
      ]
    ]

pub wait-WaitOf :
    (i addr : ℕ) (copied : Bool) (s : Table)
    → (get i s).parent ≢ some i
    → let (r, t) = wait i addr copied s in WaitOf i addr copied 0 nproc false (acquire i s) t r
unfolding wait
wait-WaitOf i addr copied s own =
    wait_from-WaitOf nproc 0 i addr copied false (acquire i s)
      (λ q. own (sym (ap (λ p. p.parent) (acquire-AllButLock i s i)) ∙ q))
