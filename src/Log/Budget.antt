-- ===== src/Log/Budget.antt =====
-- Operations that are open side by side, each with the blocks that it may still log: the log never
-- overflows.
use mathlib.Core.Path.{subst}
use mit6s.Base.{
  Bool, sym, ℕ, zero, suc, ◌+◌, ◌-◌, ◌*◌, ◌≤◌, ◌<◌, ◌≡◌, ◌≢◌, inl, inr, refl, ap, ◌∙◌, arith, List,
  [], ◌∷◌, ◌++◌, true, false, none, some, length, ltb, Bool-cases,
}
use mit6s.Log.{
  Block, Kernel, max_op_blocks, log_size, modify, begin_op, end_op_first, commit, set_header,
  end_op_last, log_write, bpin, write_log, write_log_from, install_trans, install_from,
}
use mit6s.Log.Cache.{log-set_header}
use mit6s.Log.Copy.{install_block-log, log_block-log}
use mit6s.Log.Heads.{write_head-log}
use mit6s.Log.Recover.{zeroed}
use mit6s.Log.Space.{log_write-inv}

pub install_from-log : (k i : ℕ) (s : Kernel) → (install_from k i s).log ≡ s.log
unfolding install_from
install_from-log zero i s = refl
install_from-log (suc k) i s = install_from-log k (i + 1) _ ∙ install_block-log _ _ s

pub write_log_from-log : (k i : ℕ) (s : Kernel) → (write_log_from k i s).log ≡ s.log
unfolding write_log_from
write_log_from-log zero i s = refl
write_log_from-log (suc k) i s = write_log_from-log k (i + 1) _ ∙ log_block-log _ _ s

-- Of the log, `commit` changes `n` alone.
pub commit-log : (s : Kernel) → (commit s).log ≡ zeroed (s.log)
unfolding commit install_trans write_log
commit-log s = elim (Bool-cases (ltb 0 (s.log.lh.n))) [
  | inl e ↦ rw e (
      write_head-log _
      ∙ log-set_header _ _
      ∙ ap zeroed (install_from-log _ 0 _ ∙ write_head-log _ ∙ write_log_from-log _ 0 s))
  | inr e ↦
      let z : s.log.lh.n ≡ 0 = ground arith in
      rw e (ap (λ n. record (s.log) { lh = record (s.log.lh) { n = n } }) z)
]

-- The kernel, and for each open operation the number of calls of `log_write` that it has left.
pub record Open : Type 0 where
  pub kernel : Kernel
  pub budgets : List ℕ

abbrev pub total : List ℕ → ℕ
total [] = 0
total (k ∷ ks) = k + total ks

-- What processes may do to the log. An operation is at a place of the list of budgets. Between the
-- two critical sections of an `end_op` that commits, others may take steps.
pub data Step : Open → Open → Type 0 where
  begins :
      (s t : Kernel) (ks : List ℕ)
      → begin_op s ≡ (true, t)
      → Step
          (record { kernel = s; budgets = ks })
          (record { kernel = t; budgets = max_op_blocks ∷ ks })
  sleeps :
      (s t : Kernel) (ks : List ℕ)
      → begin_op s ≡ (false, t)
      → Step (record { kernel = s; budgets = ks }) (record { kernel = t; budgets = ks })
  writes :
      (s t : Kernel) (ks ls : List ℕ) (k b : ℕ) (x : Block)
      → log_write b (modify b x s) ≡ some t
      → Step
          (record { kernel = s; budgets = ks ++ suc k ∷ ls })
          (record { kernel = t; budgets = ks ++ k ∷ ls })
  ends :
      (s t : Kernel) (ks ls : List ℕ) (k : ℕ) (do_commit : Bool)
      → end_op_first s ≡ some (do_commit, t)
      → Step
          (record { kernel = s; budgets = ks ++ k ∷ ls })
          (record { kernel = t; budgets = ks ++ ls })
  commits :
      (s : Kernel) (ks : List ℕ)
      → s.log.committing ≡ true
      → Step
          (record { kernel = s; budgets = ks })
          (record { kernel = end_op_last (commit s); budgets = ks })

pub data Reach (s : Open) : Open → Type 0 where
  here : Reach s s
  next : {t u : Open} → Reach s t → Step t u → Reach s u

abbrev pub Small : List ℕ → Type 0
Small [] = Unit {0}
Small (k ∷ ks) = (k ≤ max_op_blocks) × Small ks

-- What holds of the open operations: they are counted, and the log has room for all that they may
-- still write.
pub record HasSpace (o : Open) : Type 0 where
  pub counted : length o.budgets ≡ o.kernel.log.outstanding
  pub room : o.kernel.log.lh.n + total o.budgets ≤ log_size
  pub each : Small o.budgets
  pub quiet : o.kernel.log.committing ≡ true → o.kernel.log.outstanding ≡ 0

total-append : (ks ls : List ℕ) → total (ks ++ ls) ≡ total ks + total ls
total-append [] ls = omega arith
total-append (k ∷ ks) ls = omega (arith, total-append ks ls)

length-app : (ks ls : List ℕ) → length (ks ++ ls) ≡ length ks + length ls
length-app [] ls = omega arith
length-app (k ∷ ks) ls = omega (arith, length-app ks ls)

Small-total : (ks : List ℕ) → Small ks → total ks ≤ length ks * max_op_blocks
Small-total [] h = omega arith
Small-total (k ∷ ks) h = omega (arith, Small-total ks h.1)

Small-append : (ks ls : List ℕ) → Small ks → Small ls → Small (ks ++ ls)
Small-append [] ls h g = g
Small-append (k ∷ ks) ls h g = (h.0, Small-append ks ls h.1 g)

Small-left : (ks ls : List ℕ) → Small (ks ++ ls) → Small ks
Small-left [] ls h = tt
Small-left (k ∷ ks) ls h = (h.0, Small-left ks ls h.1)

Small-right : (ks ls : List ℕ) → Small (ks ++ ls) → Small ls
Small-right [] ls h = h
Small-right (k ∷ ks) ls h = Small-right ks ls h.1

begins-HasSpace :
    (s t : Kernel) (ks : List ℕ)
    → begin_op s ≡ (true, t)
    → HasSpace (record { kernel = s; budgets = ks })
    → HasSpace (record { kernel = t; budgets = max_op_blocks ∷ ks })
unfolding begin_op
begins-HasSpace s t ks e h = ground (arith, Small-total ks h.each)

sleeps-HasSpace :
    (s t : Kernel) (ks : List ℕ)
    → begin_op s ≡ (false, t)
    → HasSpace (record { kernel = s; budgets = ks })
    → HasSpace (record { kernel = t; budgets = ks })
unfolding begin_op
sleeps-HasSpace s t ks e h = ground arith

abbrev Grown : Kernel → Kernel → Type 0
Grown s t =
    (t.log.lh.n ≤ s.log.lh.n + 1)
    × (t.log.outstanding ≡ s.log.outstanding)
    × (t.log.committing ≡ s.log.committing)
    × (t.log.size ≡ s.log.size)

-- `log_write` adds one block at most.
log_write-log : (b : ℕ) (x : Block) (s t : Kernel) → log_write b (modify b x s) ≡ some t → Grown s t
unfolding modify bpin set_header
log_write-log b x s t e =
    let (_, _, _, how) = log_write-inv b (modify b x s) e in
    elim how [
      | inl (last, et) ↦ subst (λ t. Grown s t) et (omega arith, refl, refl, refl)
      | inr (lt, et) ↦ subst (λ t. Grown s t) et (omega arith, refl, refl, refl)
    ]

-- The first critical section of `end_op` takes one operation off and adds no block; it starts a
-- commit if it was the last.
end_op_first-log :
    (s t : Kernel) (do_commit : Bool)
    → end_op_first s ≡ some (do_commit, t)
    → (t.log.lh.n ≡ s.log.lh.n)
      × (t.log.outstanding ≡ s.log.outstanding - 1)
      × (t.log.committing ≡ true → t.log.outstanding ≡ 0)
      × (t.log.size ≡ s.log.size)
unfolding end_op_first
end_op_first-log s t do_commit e = ground arith

-- A commit empties the log.
commits-HasSpace :
    (s : Kernel) (ks : List ℕ)
    → s.log.committing ≡ true
    → HasSpace (record { kernel = s; budgets = ks })
    → HasSpace (record { kernel = end_op_last (commit s); budgets = ks })
commits-HasSpace s ks c h =
    let e = commit-log s in
    let none_open : length ks ≡ 0 = h.counted ∙ h.quiet c in
    let en : (commit s).log.lh.n ≡ 0 = ap (λ l. l.lh.n) e in
    let eo : (commit s).log.outstanding ≡ s.log.outstanding = ap (λ l. l.outstanding) e in
    record {
      counted = h.counted ∙ sym eo;
      room = omega (arith, en, Small-total ks h.each);
      each = h.each;
      quiet = λ q. absurd cc;
    }

pub Step-HasSpace : {o p : Open} → Step o p → HasSpace o → HasSpace p
Step-HasSpace (begins s t ks e) h = begins-HasSpace s t ks e h
Step-HasSpace (sleeps s t ks e) h = sleeps-HasSpace s t ks e h
Step-HasSpace (writes s t ks ls k b x e) h =
    let (n, o, c, _) = log_write-log b x s t e in
    record {
      counted = omega (arith, h.counted, o, length-app ks (suc k ∷ ls), length-app ks (k ∷ ls));
      room = omega (arith, h.room, n, total-append ks (suc k ∷ ls), total-append ks (k ∷ ls));
      each =
          let r = Small-right ks (suc k ∷ ls) h.each in
          Small-append ks (k ∷ ls) (Small-left ks (suc k ∷ ls) h.each) (omega arith, r.1);
      quiet = λ q. o ∙ h.quiet (sym c ∙ q);
    }
Step-HasSpace (ends s t ks ls k do_commit e) h =
    let (n, o, q, _) = end_op_first-log s t do_commit e in
    record {
      counted = omega (arith, h.counted, o, length-app ks (k ∷ ls), length-app ks ls);
      room = omega (arith, h.room, n, total-append ks (k ∷ ls), total-append ks ls);
      each = Small-append ks ls (Small-left ks (k ∷ ls) h.each) (Small-right ks (k ∷ ls) h.each).1;
      quiet = q;
    }
Step-HasSpace (commits s ks c) h = commits-HasSpace s ks c h

Step-size : {o p : Open} → Step o p → HasSpace o → p.kernel.log.size ≡ o.kernel.log.size
unfolding begin_op
Step-size (begins s t ks e) h = ground arith
Step-size (sleeps s t ks e) h = ground arith
Step-size (writes s t ks ls k b x e) h = (log_write-log b x s t e).3
Step-size (ends s t ks ls k do_commit e) h = (end_op_first-log s t do_commit e).3
Step-size (commits s ks c) h = ap (λ l. l.size) (commit-log s)

pub Reach-HasSpace :
    {o p : Open} → Reach o p → HasSpace o → HasSpace p × (p.kernel.log.size ≡ o.kernel.log.size)
Reach-HasSpace here h = (h, refl)
Reach-HasSpace (next r st) h =
    let (g, e) = Reach-HasSpace r h in (Step-HasSpace st g, Step-size st g ∙ e)

log_write-ne-none :
    (b : ℕ) (x : Block) (s : Kernel)
    → s.log.lh.n < log_size
    → s.log.lh.n < s.log.size - 1
    → 1 ≤ s.log.outstanding
    → log_write b (modify b x s) ≢ none
unfolding log_write modify
log_write-ne-none b x s n l o = ground arith

-- The log never overflows, if its `size` is more than LOGSIZE (that of `mkfs` is LOGSIZE itself):
-- whatever operations begin, sleep in `begin_op`, write and end, in any order, with commits that
-- run while others begin and sleep, an operation that has called `log_write` fewer than
-- MAXOPBLOCKS times, for new blocks or old ones, can call it once more without a panic.
pub log_write_succeeds :
    (o p : Open) (ks ls : List ℕ) (k b : ℕ) (x : Block)
    → HasSpace o
    → log_size < o.kernel.log.size
    → Reach o p
    → p.budgets ≡ ks ++ suc k ∷ ls
    → log_write b (modify b x p.kernel) ≢ none
log_write_succeeds o p ks ls k b x h large r e =
    let (g, es) = Reach-HasSpace r h in
    let et : total p.budgets ≡ total ks + (suc k + total ls) =
      ap total e ∙ total-append ks (suc k ∷ ls) in
    let ec : length p.budgets ≡ length ks + suc (length ls) =
      ap length e ∙ length-app ks (suc k ∷ ls) in
    log_write-ne-none b x p.kernel (omega (arith, g.room)) (omega (arith, g.room, es))
      (omega (arith, g.counted))
