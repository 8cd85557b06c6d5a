-- ===== src/Proc/Reaps.antt =====
-- `wait` keeps the invariant of the process table.
use mathlib.Core.Path.{subst}
use mit6s.Base.{ℕ, ◌<◌, ◌≡◌, ◌≢◌, inl, refl, ap, ◌∙◌, arith, Bool, true, false, ℕ_discrete}
use mit6s.Proc.{
  nproc, unused, running, zombie, is, ProcState, Table, get, unlocked, acquire, WaitEnd, wait,
  cleared,
}
use mit6s.Proc.Slots.{SameButLock}
use mit6s.Proc.Wake.{is-eq, and-true}
use mit6s.Proc.Wait.{is_child, is_dead_child, WaitOf, reaped, not_copied, gives_up, sleeps}
use mit6s.Proc.Scan.{wait-WaitOf, acquire-AllButLock}
use mit6s.Proc.Family.{alive, Seen, Family, Change, Quiet-Family, Change-Family, SameButLock-Seen}
use mit6s.Proc.Keeps.{Seen-alive}
use mit6s.Proc.Deaths.{no_own_parent}

zombie_dead : (x : ProcState) → is x zombie ≡ true → alive x ≢ true
zombie_dead x e a = cc (ap alive (is-eq x zombie e), a)

-- A child that `wait` frees.
reaped-Change :
    (i j : ℕ) (s t : Table)
    → Family s
    → j < nproc
    → is_dead_child i j s ≡ true
    → get j t ≡ unlocked (cleared (get j s))
    → ((x : ℕ) → j ≢ x → SameButLock (get x s) (get x t))
    → (t.nextpid ≡ s.nextpid) × (t.initproc ≡ s.initproc)
    → Change j s t
reaped-Change i j s t f lj d e o g =
    let z : is (get j s).state zombie ≡ true =
      (and-true (is_child i j s) (is (get j s).state zombie) d).1 in
    record {
      slot = lj;
      not_init =
          λ q. zombie_dead (get j s).state z (ap (λ x. alive (get x s).state) q ∙ f.init_alive);
      lives = λ b. absurd (zombie_dead (get j s).state z b);
      fresh = inl (ap (λ p. p.pid) e);
      placed = λ n. absurd (cc (ap (λ p. is p.state unused) e, n));
      others = λ x ne lx. SameButLock-Seen (get x s) (get x t) (o x ne);
      counted = omega (arith, g.0);
      init = g.1;
    }

WaitOf-Family :
    (i addr : ℕ) (copied : Bool) (s t : Table) (r : WaitEnd)
    → i < nproc
    → alive (get i s).state ≡ true
    → WaitOf i addr copied 0 nproc false s t r
    → Family s
    → Family t
WaitOf-Family i addr copied s t _ li a (reaped j lo lj d n c e o g) f =
    Change-Family j s t (reaped-Change i j s t f lj d e o g) f
WaitOf-Family i addr copied s t _ li a (not_copied j lo lj d n c e o g) f =
    Quiet-Family s t (λ x lx. SameButLock-Seen (get x s) (get x t) (o x)) g f
WaitOf-Family i addr copied s t _ li a (gives_up n k o g) f =
    Quiet-Family s t (λ x lx. SameButLock-Seen (get x s) (get x t) (o x)) g f
WaitOf-Family i addr copied s t _ li a (sleeps n k l e o g) f =
    Quiet-Family s t
      (λ x lx. elim (ℕ_discrete i x) [
        | yes q ↦
            subst (λ y. Seen (get y s) (get y t)) q
              (Seen-alive (get i s) (get i t) (ap (λ p. p.pid) e) (ap (λ p. p.parent) e) a
                (ap (λ p. alive p.state) e))
        | no ne ↦ SameButLock-Seen (get x s) (get x t) (o x ne)
      ])
      g f

pub wait-Family :
    (i addr : ℕ) (copied : Bool) (s : Table)
    → i < nproc
    → (get i s).state ≡ running
    → Family s
    → Family (wait i addr copied s).1
wait-Family i addr copied s li r f =
    let fa : Family (acquire i s) =
      Quiet-Family s (acquire i s)
        (λ j lj. SameButLock-Seen (get j s) (get j (acquire i s)) (acquire-AllButLock i s j))
        (refl, refl) f in
    let a : alive (get i (acquire i s)).state ≡ true =
      ap (λ p. alive p.state) (acquire-AllButLock i s i) ∙ ap alive r in
    WaitOf-Family i addr copied (acquire i s) _ _ li a
      (wait-WaitOf i addr copied s (no_own_parent s f i li (ap alive r))) fa
