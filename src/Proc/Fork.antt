-- ===== src/Proc/Fork.antt =====
-- `fork`: the child and its open files.
use mathlib.Core.Path.{subst}
use mit6s.Base.{
  ℕ, zero, suc, ◌+◌, ◌≤◌, ◌<◌, ◌≡◌, ◌≢◌, ◌∷◌, ◌⊎◌, inl, inr, refl, ap, ap₂, sym, ◌∙◌, arith, Option,
  none, some, false, ==_refl, ==_ne, ℕ_discrete, Option-cases, update, update_ne, pos,
}
use mit6s.Proc.Files.{file_then, open_files, called}
use mit6s.Proc.{idup, nofile, runnable, Proc, Table, get, put, call, filedup, dup_from, fork_into}
use mit6s.Proc.Slots.{get-put, get-put_ne}

-- The open files `lo` up to `hi` of process `i` have been given to process `np` as well.
pub record Duplicated (lo hi i np : ℕ) (s t : Table) : Type 0 where
  pub child : get np t ≡ record (get np s) { ofile = (get np t).ofile }
  pub shared :
      (x f : ℕ) → lo ≤ x → x < hi → (get i s).ofile x ≡ some f → (get np t).ofile x ≡ some f
  pub kept :
      (x : ℕ)
      → (x < lo) ⊎ ((hi ≤ x) ⊎ ((get i s).ofile x ≡ none))
      → (get np t).ofile x ≡ (get np s).ofile x
  pub others : (j : ℕ) → np ≢ j → get j t ≡ get j s
  pub same : (t.nextpid ≡ s.nextpid) × (t.initproc ≡ s.initproc)

-- One descriptor given to `np`.
abbrev dup_one : ℕ → ℕ → ℕ → Table → Table
dup_one fd f np s =
    put np (record (get np s) { ofile = update (get np s).ofile fd (some f) }) (call (filedup f) s)

dup_from-none :
    (k fd i np : ℕ) (s : Table)
    → (get i s).ofile fd ≡ none
    → dup_from (suc k) fd i np s ≡ dup_from k (fd + 1) i np s
unfolding dup_from
dup_from-none k fd i np s e = rw e refl

dup_from-some :
    (k fd i np f : ℕ) (s : Table)
    → (get i s).ofile fd ≡ some f
    → dup_from (suc k) fd i np s ≡ dup_from k (fd + 1) i np (dup_one fd f np s)
unfolding dup_from
dup_from-some k fd i np f s e = rw e refl

skip-Duplicated :
    (fd hi i np : ℕ) (s t : Table)
    → (get i s).ofile fd ≡ none
    → Duplicated (fd + 1) hi i np s t
    → Duplicated fd hi i np s t
skip-Duplicated fd hi i np s t e d = record {
  child = d.child;
  shared = λ x f lo lt g. elim (ℕ_discrete fd x) [
    | yes q ↦ absurd (cc (e, g, q))
    | no ne ↦ d.shared x f (omega arith) lt g
  ];
  kept = λ x out. elim (ℕ_discrete fd x) [
    | yes q ↦ d.kept x (inl (omega arith))
    | no ne ↦ d.kept x (elim out [ inl a ↦ inl (omega arith) | inr b ↦ inr b ])
  ];
  others = d.others;
  same = d.same;
}

one-Duplicated :
    (fd hi i np f : ℕ) (s t : Table)
    → i ≢ np
    → fd < hi
    → (get i s).ofile fd ≡ some f
    → Duplicated (fd + 1) hi i np (dup_one fd f np s) t
    → Duplicated fd hi i np s t
one-Duplicated fd hi i np f s t apart lt e d =
    let u : Table = dup_one fd f np s in
    let ei : get i u ≡ get i s = get-put_ne np _ s i (λ q. apart (sym q)) in
    let en : get np u ≡ record (get np s) { ofile = update (get np s).ofile fd (some f) } =
      get-put np _ s in
    let eo : (x : ℕ) → (get i u).ofile x ≡ (get i s).ofile x = λ x. ap (λ p. p.ofile x) ei in
    let with_files : Proc → Proc = λ p. record p { ofile = (get np t).ofile } in
    record {
      child = d.child ∙ ap with_files en;
      shared = λ x g lo hx eg. elim (ℕ_discrete fd x) [
        | yes q ↦
            d.kept x (inl (omega arith))
            ∙ ap (λ p. p.ofile x) en
            ∙ (rw (sym q, ==_refl fd) (sym e ∙ ap (get i s).ofile q ∙ eg))
        | no ne ↦ d.shared x g (omega arith) hx (eo x ∙ eg)
      ];
      kept = λ x out. elim (ℕ_discrete fd x) [
        | yes q ↦ absurd (elim out [
          | inl a ↦ omega arith
          | inr (inl a) ↦ omega arith
          | inr (inr a) ↦ cc (e, q, a)
        ])
        | no ne ↦
            d.kept x (elim out [
              | inl a ↦ inl (omega arith)
              | inr (inl a) ↦ inr (inl a)
              | inr (inr a) ↦ inr (inr (eo x ∙ a))
            ])
            ∙ ap (λ p. p.ofile x) en
            ∙ update_ne (get np s).ofile fd (some f) x ne
      ];
      others = λ j ne. d.others j ne ∙ get-put_ne np _ s j ne;
      same = d.same;
    }

pub dup_from-Duplicated :
    (k fd i np : ℕ) (s : Table) → i ≢ np → Duplicated fd (fd + k) i np s (dup_from k fd i np s)
unfolding dup_from
dup_from-Duplicated zero fd i np s apart = record {
  child = refl;
  shared = λ x f lo lt. absurd (omega arith);
  kept = λ x out. refl;
  others = λ j ne. refl;
  same = (refl, refl);
}
dup_from-Duplicated (suc k) fd i np s apart =
    let eh : fd + suc k ≡ fd + 1 + k = omega arith in
    elim (Option-cases ((get i s).ofile fd)) [
      | inl e ↦ subst (Duplicated fd (fd + suc k) i np s) (sym (dup_from-none k fd i np s e)) (
          rw eh (
            skip-Duplicated fd (fd + 1 + k) i np s _ e
              (dup_from-Duplicated k (fd + 1) i np s apart)))
      | inr (f, e) ↦
          subst (Duplicated fd (fd + suc k) i np s) (sym (dup_from-some k fd i np f s e)) (
            rw eh (
              one-Duplicated fd (fd + 1 + k) i np f s _ apart (omega arith) e
                (dup_from-Duplicated k (fd + 1) i np (dup_one fd f np s) apart)))
    ]

dup_from-calls :
    (k fd i np : ℕ) (s : Table)
    → i ≢ np
    → (dup_from k fd i np s).calls ≡ called filedup (open_files k fd (get i s).ofile) s.calls
unfolding dup_from
dup_from-calls zero fd i np s apart = refl
dup_from-calls (suc k) fd i np s apart = elim (Option-cases ((get i s).ofile fd)) [
  | inl e ↦
      ap (λ t. t.calls) (dup_from-none k fd i np s e)
      ∙ dup_from-calls k (fd + 1) i np s apart
      ∙ ap (λ x. called filedup (file_then x (open_files k (fd + 1) (get i s).ofile)) s.calls)
          (sym e)
  | inr (f, e) ↦
      let u = dup_one fd f np s in
      let ei : get i u ≡ get i s = get-put_ne np _ s i (λ q. apart (sym q)) in
      ap (λ t. t.calls) (dup_from-some k fd i np f s e)
      ∙ dup_from-calls k (fd + 1) i np u apart
      ∙ ap (λ p. called filedup (open_files k (fd + 1) p.ofile) (filedup f ∷ s.calls)) ei
      ∙ ap (λ x. called filedup (file_then x (open_files k (fd + 1) (get i s).ofile)) s.calls)
          (sym e)
]

-- What `fork` makes of the fresh process `np` for its parent `i`, the open files apart.
abbrev pub child_of : ℕ → Proc → Proc → Proc
child_of i p q = record q {
  lock = false;
  state = runnable;
  parent = some i;
  sz = p.sz;
  frame = record (p.frame) { a0 = 0 };
  cwd = p.cwd;
  name = p.name;
}

pub record Forked (i np : ℕ) (s t : Table) : Type 0 where
  pub files : ℕ → Option ℕ
  pub child : get np t ≡ record (child_of i (get i s) (get np s)) { ofile = files }
  pub shared : (fd f : ℕ) → fd < nofile → (get i s).ofile fd ≡ some f → files fd ≡ some f
  pub kept : (fd : ℕ) → (nofile ≤ fd) ⊎ ((get i s).ofile fd ≡ none) → files fd ≡ (get np s).ofile fd
  pub others : (j : ℕ) → np ≢ j → get j t ≡ get j s
  pub same : (t.nextpid ≡ s.nextpid) × (t.initproc ≡ s.initproc)
  pub calls :
      t.calls ≡ idup (get i s).cwd ∷ called filedup (open_files nofile 0 (get i s).ofile) s.calls

pub fork_into-Forked :
    (i np : ℕ) (s : Table)
    → i ≢ np
    → ((fork_into i np s).0 ≡ pos (get np s).pid) × Forked i np s (fork_into i np s).1
unfolding fork_into
fork_into-Forked i np s apart =
    let ne : np ≢ i = λ q. apart (sym q) in
    let t : Table =
      put np
        (record (get np s) {
          sz = (get i s).sz;
          parent = some i;
          frame = record ((get i s).frame) { a0 = 0 };
        })
        s in
    let u : Table = dup_from nofile 0 i np t in
    let d : Duplicated 0 nofile i np t u = dup_from-Duplicated nofile 0 i np t apart in
    let ei : get i t ≡ get i s = get-put_ne np _ s i ne in
    let eo : (fd : ℕ) → (get i t).ofile fd ≡ (get i s).ofile fd = λ fd. ap (λ p. p.ofile fd) ei in
    let en : get np t ≡ record (get np s) {
      sz = (get i s).sz;
      parent = some i;
      frame = record ((get i s).frame) { a0 = 0 };
    } =
      get-put np _ s in
    let with_files : Proc → Proc = λ p. record p { ofile = (get np u).ofile } in
    let finish : Proc → Proc → Proc =
      λ p q. record q { lock = false; state = runnable; cwd = p.cwd; name = p.name } in
    let child = ap₂ finish (d.others i ne ∙ ei) (d.child ∙ ap with_files en) in
    rw (==_refl np) (
      ap (λ p. pos p.pid) (d.child ∙ ap with_files en),
      record {
        files = (get np u).ofile;
        child = rw (==_refl np) child;
        shared = λ fd f lt e. d.shared fd f (omega arith) lt (eo fd ∙ e);
        kept = λ fd out.
            d.kept fd (elim out [ inl a ↦ inr (inl a) | inr a ↦ inr (inr (eo fd ∙ a)) ])
            ∙ ap (λ p. p.ofile fd) en;
        others = λ j nj. rw (==_ne np j nj) (d.others j nj ∙ get-put_ne np _ s j nj);
        same = d.same;
        calls =
            ap₂ (λ p cs. idup p.cwd ∷ cs) (d.others i ne ∙ ei)
              (dup_from-calls nofile 0 i np t apart
                ∙ ap (λ p. called filedup (open_files nofile 0 p.ofile) s.calls) ei);
      },
    )
