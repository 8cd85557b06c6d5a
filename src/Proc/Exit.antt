-- ===== src/Proc/Exit.antt =====
-- `exit`: the zombie that it leaves, its children and its parent.
use mathlib.Core.Path.{subst}
use mit6s.Base.{
  ℕ, zero, suc, ◌+◌, ◌≤◌, ◌<◌, ◌≡◌, ◌≢◌, ap₂, ◌∷◌, inl, inr, refl, ap, sym, ◌∙◌, arith, none, some,
  ==_refl, ==_ne, ℕ_discrete, Option-cases, update, update_ne,
}
use mit6s.Proc.Files.{file_then, open_files, called, open_files-same}
use mit6s.Proc.{
  iput, begin_op, end_op, nofile, Proc, Table, get, put, call, fileclose, close_from, exit_files,
}
use mit6s.Proc.Slots.{get-put, get-put_ne}

-- The open files `lo` up to `hi` of process `i` have been closed.
pub record Closed (lo hi i : ℕ) (s t : Table) : Type 0 where
  pub self : get i t ≡ record (get i s) { ofile = (get i t).ofile }
  pub closed : (fd : ℕ) → lo ≤ fd → fd < hi → (get i t).ofile fd ≡ none
  pub kept : (fd : ℕ) → fd < lo → (get i t).ofile fd ≡ (get i s).ofile fd
  pub others : (j : ℕ) → i ≢ j → get j t ≡ get j s
  pub same : (t.nextpid ≡ s.nextpid) × (t.initproc ≡ s.initproc)

abbrev close_one : ℕ → ℕ → ℕ → Table → Table
close_one fd f i s =
    put i (record (get i s) { ofile = update (get i s).ofile fd none }) (call (fileclose f) s)

close_from-none :
    (k fd i : ℕ) (s : Table)
    → (get i s).ofile fd ≡ none
    → close_from (suc k) fd i s ≡ close_from k (fd + 1) i s
unfolding close_from
close_from-none k fd i s e = rw e refl

close_from-some :
    (k fd i f : ℕ) (s : Table)
    → (get i s).ofile fd ≡ some f
    → close_from (suc k) fd i s ≡ close_from k (fd + 1) i (close_one fd f i s)
unfolding close_from
close_from-some k fd i f s e = rw e refl

skip-Closed :
    (fd hi i : ℕ) (s t : Table)
    → (get i s).ofile fd ≡ none
    → Closed (fd + 1) hi i s t
    → Closed fd hi i s t
skip-Closed fd hi i s t e d = record {
  self = d.self;
  closed = λ x lo lt. elim (ℕ_discrete fd x) [
    | yes q ↦ d.kept x (omega arith) ∙ ap (get i s).ofile (sym q) ∙ e
    | no ne ↦ d.closed x (omega arith) lt
  ];
  kept = λ x lt. d.kept x (omega arith);
  others = d.others;
  same = d.same;
}

one-Closed :
    (fd hi i f : ℕ) (s t : Table) → Closed (fd + 1) hi i (close_one fd f i s) t → Closed fd hi i s t
one-Closed fd hi i f s t d =
    let ei : get i (close_one fd f i s)
        ≡ record (get i s) { ofile = update (get i s).ofile fd none } =
      get-put i _ s in
    let with_files : Proc → Proc = λ p. record p { ofile = (get i t).ofile } in
    record {
      self = d.self ∙ ap with_files ei;
      closed = λ x lo lt. elim (ℕ_discrete fd x) [
        | yes q ↦ d.kept x (omega arith) ∙ ap (λ p. p.ofile x) ei ∙ rw (sym q, ==_refl fd) refl
        | no ne ↦ d.closed x (omega arith) lt
      ];
      kept = λ x lt.
          d.kept x (omega arith)
          ∙ ap (λ p. p.ofile x) ei
          ∙ update_ne (get i s).ofile fd none x (omega arith);
      others = λ j ne. d.others j ne ∙ get-put_ne i _ s j ne;
      same = d.same;
    }

close_from-Closed : (k fd i : ℕ) (s : Table) → Closed fd (fd + k) i s (close_from k fd i s)
unfolding close_from
close_from-Closed zero fd i s = record {
  self = refl;
  closed = λ x lo lt. absurd (omega arith);
  kept = λ x lt. refl;
  others = λ j ne. refl;
  same = (refl, refl);
}
close_from-Closed (suc k) fd i s =
    let eh : fd + suc k ≡ fd + 1 + k = omega arith in
    elim (Option-cases ((get i s).ofile fd)) [
      | inl e ↦
          subst (Closed fd (fd + suc k) i s) (sym (close_from-none k fd i s e))
            (rw eh (skip-Closed fd (fd + 1 + k) i s _ e (close_from-Closed k (fd + 1) i s)))
      | inr (f, e) ↦ subst (Closed fd (fd + suc k) i s) (sym (close_from-some k fd i f s e)) (
          rw eh (
            one-Closed fd (fd + 1 + k) i f s _
              (close_from-Closed k (fd + 1) i (close_one fd f i s))))
    ]

close_from-calls :
    (k fd i : ℕ) (s : Table)
    → (close_from k fd i s).calls ≡ called fileclose (open_files k fd (get i s).ofile) s.calls
unfolding close_from
close_from-calls zero fd i s = refl
close_from-calls (suc k) fd i s = elim (Option-cases ((get i s).ofile fd)) [
  | inl e ↦
      ap (λ t. t.calls) (close_from-none k fd i s e)
      ∙ close_from-calls k (fd + 1) i s
      ∙ ap (λ x. called fileclose (file_then x (open_files k (fd + 1) (get i s).ofile)) s.calls)
          (sym e)
  | inr (f, e) ↦
      let u = close_one fd f i s in
      let o = (get i s).ofile in
      let eo : (get i u).ofile ≡ update o fd none = ap (λ p. p.ofile) (get-put i _ s) in
      let same =
        open_files-same k (fd + 1) (update o fd none) o
          (λ x le. update_ne o fd none x (omega arith)) in
      ap (λ t. t.calls) (close_from-some k fd i f s e)
      ∙ close_from-calls k (fd + 1) i u
      ∙ ap (λ fs. called fileclose fs (fileclose f ∷ s.calls))
          (ap (open_files k (fd + 1)) eo ∙ same)
      ∙ ap (λ x. called fileclose (file_then x (open_files k (fd + 1) o)) s.calls) (sym e)
]

-- `exit` up to `p->cwd = 0`: every open file has been closed once, in order, and the current
-- directory given back inside a transaction.
pub record FilesClosed (i : ℕ) (s t : Table) : Type 0 where
  pub self : get i t ≡ record (get i s) { ofile = (get i t).ofile; cwd = none }
  pub closed : (fd : ℕ) → fd < nofile → (get i t).ofile fd ≡ none
  pub calls :
      t.calls
      ≡ end_op
        ∷ iput (get i s).cwd
        ∷ begin_op
        ∷ called fileclose (open_files nofile 0 (get i s).ofile) s.calls
  pub others : (j : ℕ) → i ≢ j → get j t ≡ get j s
  pub same : (t.nextpid ≡ s.nextpid) × (t.initproc ≡ s.initproc)

pub exit_files-FilesClosed : (i : ℕ) (s : Table) → FilesClosed i s (exit_files i s)
unfolding exit_files
exit_files-FilesClosed i s =
    let d : Closed 0 nofile i s (close_from nofile 0 i s) = close_from-Closed nofile 0 i s in
    let no_cwd : Proc → Proc = λ p. record p { cwd = none } in
    record {
      self = rw (==_refl i) (ap no_cwd d.self);
      closed = λ fd lt. rw (==_refl i) (d.closed fd (omega arith) lt);
      calls =
          ap₂ (λ dir cs. end_op ∷ iput dir ∷ begin_op ∷ cs) (ap (λ p. p.cwd) d.self)
            (close_from-calls nofile 0 i s);
      others = λ j ne. rw (==_ne i j ne) (d.others j ne);
      same = d.same;
    }
