-- ===== src/Proc/Zombie.antt =====
-- `exit` after its files are closed: the process becomes a zombie, its children go to `initproc`,
-- and its parent is woken.
use mathlib.Core.Path.{subst}
use mit6s.Base.{
  ℕ, ◌<◌, ◌≡◌, ◌≢◌, inl, inr, refl, ap, sym, ◌∙◌, Bool-cases, Option, none, some, Bool, true, false,
  ==_ne, some_inj,
}
use mit6s.Proc.{
  nproc, runnable, zombie, Proc, Table, get, put, locked, unlocked, acquire, release, wakeup1,
  is_parent, reparent, exit_files, exit_zombie, exit_parent, exit,
}
use mit6s.Proc.Slots.{get-put, get-put_ne}
use mit6s.Proc.Calm.{
  Rested, Calm, Told, acquire-Calm, release-Calm, wakeup1-Told, given_away, reparent-procs,
  reparent-same, reparent-calls, Calm-trans,
}
use mit6s.Proc.Exit.{FilesClosed, exit_files-FilesClosed}
use mit6s.Proc.Kin.{
  Kin, Kin-Waking, Kin-trans, Rested-Kin, Waking, given_away-Kin, given_away-parent, new_parent,
  not_away,
}

-- A process that has exited, its files apart: it is a zombie with its status, its children are
-- those of `initproc`, its parent `o` has been woken, and others have at most been woken from `wait`.
pub record Exited (i status o : ℕ) (s t : Table) : Type 0 where
  pub dead : get i t ≡ record (get i s) { lock = (get i t).lock; state = zombie; xstate = status }
  pub others : (j : ℕ) → i ≢ j → j < nproc → Kin j (get j s) (get j t)
  pub parents :
      (j : ℕ) → i ≢ j → j < nproc → (get j t).parent ≡ new_parent i s.initproc (get j s).parent
  pub told : Waking o (get o s) → (get o t).state ≡ runnable
  pub same : (t.nextpid ≡ s.nextpid) × (t.initproc ≡ s.initproc)
  pub calls : t.calls ≡ s.calls

Told-runnable : (o : ℕ) (g h : Table) → Told o g h → Waking o (get o g) → (get o h).state ≡ runnable
Told-runnable o g h w (inl (a, b)) = w.awake a b
Told-runnable o g h w (inr r) = elim ((w.calm.each o).stirred) [ inl e ↦ e ∙ r | inr (a, b, c) ↦ c ]

module _ (i status o : ℕ) (s h : Table) where
  abbrev after : Table
  after = release o (put i (record (get i h) { xstate = status; state = zombie }) h)

  after-Exited :
      (g : Table)
      → i < nproc
      → i ≢ o
      → (get i s).parent ≢ some i
      → ((j : ℕ) → j < nproc → Rested j (given_away i s.initproc (get j s)) (get j g))
      → Told o g h
      → (g.nextpid ≡ s.nextpid) × (g.initproc ≡ s.initproc)
      → g.calls ≡ s.calls
      → o < nproc
      → Exited i status o s after
  after-Exited g li apart ni rested w sg cg lo =
      let z : Proc = record (get i h) { xstate = status; state = zombie } in
      let dead : Bool → Proc → Proc =
        λ l p. record p { lock = l; state = zombie; xstate = status } in
      let e : get i after ≡ dead (get i h).lock (get i h) =
        get-put_ne o _ (put i z h) i (λ q. apart (sym q)) ∙ get-put i z h in
      let l : Bool = (get i h).lock in
      let ei : dead l (get i h) ≡ dead l (get i s) =
        ap (dead l) ((w.calm.each i).others)
        ∙ ap (dead l) ((rested i li).others)
        ∙ ap (dead l) (not_away i s.initproc (get i s) ni) in
      let kin_g : (j : ℕ) → j < nproc → Kin j (get j s) (get j g) = λ j lj.
        Kin-trans j (get j s) (given_away i s.initproc (get j s)) (get j g)
          (given_away-Kin j i s.initproc (get j s))
          (Rested-Kin j (given_away i s.initproc (get j s)) (get j g) (rested j lj)) in
      let kin : (j : ℕ) → j < nproc → Kin j (get j s) (get j h) = λ j lj.
        Kin-trans j (get j s) (get j g) (get j h) (kin_g j lj)
          (Rested-Kin j (get j g) (get j h) (w.calm.each j)) in
      let last : (j : ℕ) → i ≢ j → Rested j (get j h) (get j after) = λ j ne.
        subst (λ p. Rested j p (get j after)) (get-put_ne i z h j ne)
          ((release-Calm o (put i z h)).each j) in
      record {
        dead = e ∙ ei ∙ ap (λ b. dead b (get i s)) (sym (ap (λ p. p.lock) e));
        others = λ j ne lj.
            Kin-trans j (get j s) (get j h) (get j after) (kin j lj)
              (Rested-Kin j (get j h) (get j after) (last j ne));
        parents = λ j ne lj.
            ap (λ p. p.parent) (last j ne).others
            ∙ ap (λ p. p.parent) (w.calm.each j).others
            ∙ ap (λ p. p.parent) (rested j lj).others
            ∙ given_away-parent i s.initproc (get j s);
        told = λ a.
            ap (λ p. p.state) (get-put o (unlocked (get o (put i z h))) (put i z h))
            ∙ ap (λ p. p.state) (get-put_ne i z h o apart)
            ∙ Told-runnable o g h w (Kin-Waking o (get o s) (get o g) (kin_g o lo) a);
        same = (w.calm.same.0 ∙ sg.0, w.calm.same.1 ∙ sg.1);
        calls = w.calm.calls ∙ cg;
      }

given_away-Rested :
    (j i init : ℕ) (p q : Proc)
    → Rested j p q
    → Rested j (given_away i init p) (given_away i init q)
given_away-Rested j i init p q r =
    let e : p.parent ≡ q.parent = sym (ap (λ x. x.parent) r.others) in
    elim (Bool-cases (is_parent i p.parent)) [
      | inl y ↦
          let given : Proc → Proc = λ x. record x { lock = false; parent = some init } in
          let y' : is_parent i q.parent ≡ true = ap (is_parent i) (sym e) ∙ y in
          rw (y, y') (record { others = ap given r.others; stirred = r.stirred })
      | inr n ↦ let n' : is_parent i q.parent ≡ false = ap (is_parent i) (sym e) ∙ n in rw (n, n') r
    ]

exit_zombie-some :
    (i status o : ℕ) (f h : Table)
    → wakeup1 o (reparent i (acquire i (acquire o f))) ≡ some h
    → exit_zombie i status o f
      ≡ some (release o (put i (record (get i h) { xstate = status; state = zombie }) h))
unfolding exit_zombie
exit_zombie-some i status o f h e =
    let finish : Option Table → Option Table = λ r. elim r [
      | none ↦ none
      | some t ↦ some (release o (put i (record (get i t) { xstate = status; state = zombie }) t))
    ] in
    ap finish e

exit_parent-zombie :
    (i status o : ℕ) (s : Table)
    → (get i s).parent ≡ some o
    → exit_parent i status s ≡ exit_zombie i status o (release i (acquire i (release s.initproc s)))
unfolding exit_parent
exit_parent-zombie i status o s e =
    let t : Table = acquire i (release s.initproc s) in
    let calm : Calm s t =
      Calm-trans (release-Calm s.initproc s) (acquire-Calm i (release s.initproc s)) in
    let et : (get i t).parent ≡ some o = ap (λ p. p.parent) (calm.each i).others ∙ e in
    let go : Option ℕ → Option Table =
      λ r. elim r [ none ↦ none | some x ↦ exit_zombie i status x (release i t) ] in
    ap go et

exit-wakes :
    (i status : ℕ) (s : Table)
    → i ≢ s.initproc
    → (u : Table) × (exit i status s ≡ exit_parent i status u) × Calm (exit_files i s) u
unfolding exit
exit-wakes i status s ne =
    let t : Table = exit_files i s in
    let held = ap (λ p. p.lock) (get-put t.initproc (locked (get t.initproc t)) t) in
    let (u, e, w) = wakeup1-Told t.initproc (acquire t.initproc t) held in
    (u, rw (==_ne i s.initproc ne, e) refl, Calm-trans (acquire-Calm t.initproc t) w.calm)

-- `exit` by process `i` from any table on which its files are closed, its parent being `o`.
exit_zombie-Exited :
    (i status o : ℕ) (s f : Table)
    → i < nproc
    → o < nproc
    → i ≢ o
    → (get i s).parent ≢ some i
    → (get o s).parent ≢ some i
    → Calm s f
    → (t : Table) × (exit_zombie i status o f ≡ some t) × Exited i status o s t
exit_zombie-Exited i status o s f li lo apart ni np calm =
    let u : Table = acquire i (acquire o f) in
    let g : Table = reparent i u in
    let cu : Calm s u =
      Calm-trans calm (Calm-trans (acquire-Calm o f) (acquire-Calm i (acquire o f))) in
    let eg : (j : ℕ) → j < nproc → get j g ≡ given_away i s.initproc (get j u) =
      λ j lj. reparent-procs i u j lj ∙ ap (λ n. given_away i n (get j u)) cu.same.1 in
    let rested : (j : ℕ) → j < nproc → Rested j (given_away i s.initproc (get j s)) (get j g) =
      λ j lj.
        subst (Rested j (given_away i s.initproc (get j s))) (sym (eg j lj))
          (given_away-Rested j i s.initproc (get j s) (get j u) (cu.each j)) in
    let no_u : (get o u).parent ≢ some i =
      λ q. np (sym (ap (λ p. p.parent) (cu.each o).others) ∙ q) in
    let held : (get o g).lock ≡ true =
      ap (λ p. p.lock) (eg o lo ∙ not_away i s.initproc (get o u) no_u)
      ∙ ap (λ p. p.lock) (get-put_ne i _ (acquire o f) o apart)
      ∙ ap (λ p. p.lock) (get-put o (locked (get o f)) f) in
    let (h, e, w) = wakeup1-Told o g held in
    let sg : (g.nextpid ≡ s.nextpid) × (g.initproc ≡ s.initproc) =
      ((reparent-same i u).0 ∙ cu.same.0, (reparent-same i u).1 ∙ cu.same.1) in
    (
      after i status o s h,
      exit_zombie-some i status o f h e,
      after-Exited i status o s h g li apart ni rested w sg (reparent-calls i u ∙ cu.calls) lo,
    )

-- `exit(status)` by a process that is neither `initproc` nor in a circle with its parent `o` does
-- not panic. It calls `fileclose` once for each of its open files and gives its current directory
-- back with `iput` inside a transaction, and makes no other call. It leaves the process a zombie with its status, no open file and no current
-- directory; its children belong to `initproc`; its parent, if asleep in `wait`, is runnable; and
-- other processes change at most in their locks and, if asleep in `wait`, by being woken.
pub exit-Exited :
    (i status o : ℕ) (s : Table)
    → i < nproc
    → o < nproc
    → i ≢ o
    → i ≢ s.initproc
    → (get i s).parent ≡ some o
    → (get o s).parent ≢ some i
    → (t : Table) × (exit i status s ≡ some t)
      × FilesClosed i s (exit_files i s)
      × Exited i status o (exit_files i s) t
exit-Exited i status o s li lo apart ni e np =
    let d = exit_files-FilesClosed i s in
    let (u, eu, calm) = exit-wakes i status s ni in
    let ec : (get i (exit_files i s)).parent ≡ some o = ap (λ p. p.parent) d.self ∙ e in
    let pu : (get i u).parent ≡ some o = ap (λ p. p.parent) (calm.each i).others ∙ ec in
    let f : Table = release i (acquire i (release u.initproc u)) in
    let cf : Calm (exit_files i s) f = Calm-trans calm (
      Calm-trans (release-Calm u.initproc u) (
        Calm-trans (acquire-Calm i (release u.initproc u))
          (release-Calm i (acquire i (release u.initproc u))))) in
    let no_self : (get i (exit_files i s)).parent ≢ some i = λ q. apart (some_inj (sym q ∙ ec)) in
    let no_cycle : (get o (exit_files i s)).parent ≢ some i =
      λ q. np (sym (ap (λ p. p.parent) (d.others o apart)) ∙ q) in
    let (t, et, x) =
      exit_zombie-Exited i status o (exit_files i s) f li lo apart no_self no_cycle cf in
    (t, eu ∙ exit_parent-zombie i status o u pu ∙ et, d, x)
