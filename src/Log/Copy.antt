-- ===== src/Log/Copy.antt =====
-- The two copying loops of kernel/log.c, `install_trans` and `write_log`, as one: round `i` puts the
-- contents of one block in the place of another.
use mathlib.Core.Path.{subst}
use mit6s.Base.{
  ap₂, ℕ, zero, suc, ◌+◌, ◌≤◌, ◌<◌, ◌≡◌, ◌≢◌, refl, sym, ap, ◌∙◌, arith, fun_ext, List, [], ◌∷◌,
  update, ℕ_discrete, update_self, update_ne, ==_refl,
}
use mit6s.Log.Cache.{view_laws}
use mit6s.Log.{Block, Disk, Kernel, view, install_block, install_from, log_block, write_log_from}

-- `k` rounds from `i` on: what stands at `dst i` becomes `c i`.
pub copied : ℕ → ℕ → (ℕ → ℕ) → (ℕ → Block) → Disk → Disk
copied zero i dst c d = d
copied (suc k) i dst c d = copied k (i + 1) dst c (update d (dst i) (c i))

-- A place that is no round's target is left alone.
pub copied-ne :
    (k i : ℕ) (dst : ℕ → ℕ) (c : ℕ → Block) (d : Disk) (b : ℕ)
    → ((j : ℕ) → i ≤ j → j < i + k → dst j ≢ b)
    → copied k i dst c d b ≡ d b
unfolding copied
copied-ne zero i dst c d b far = refl
copied-ne (suc k) i dst c d b far =
    copied-ne k (i + 1) dst c _ b (λ j lo hi. far j (omega arith) (omega arith))
    ∙ update_ne d (dst i) (c i) b (far i (omega arith) (omega arith))

-- A round's target holds its contents, if no later round has the same target.
pub copied-at :
    (k i : ℕ) (dst : ℕ → ℕ) (c : ℕ → Block) (d : Disk) (j : ℕ)
    → ((j' : ℕ) → j < j' → j' < i + k → dst j' ≢ dst j)
    → i ≤ j
    → j < i + k
    → copied k i dst c d (dst j) ≡ c j
unfolding copied
copied-at zero i dst c d j once lo hi = absurd (omega arith)
copied-at (suc k) i dst c d j once lo hi = elim (ℕ_discrete i j) [
  | yes e ↦
      copied-ne k (i + 1) dst c _ (dst j) (λ j' lo' hi'. once j' (omega arith) (omega arith))
      ∙ rw e (update_self d (dst j) (c j))
  | no ne ↦
      copied-at k (i + 1) dst c _ j (λ j' lo' hi'. once j' lo' (omega arith)) (omega arith)
        (omega arith)
]

-- One round of either loop: on the disk, on what readers see, and on the rest.
module _ (l d : ℕ) (s : Kernel) where
  install_block-view : view (install_block l d s) ≡ update (view s) d (view s l)
  unfolding install_block
  install_block-view = fun_ext λ x. simp view_laws

  install_block-disk : (install_block l d s).disk ≡ update s.disk d (view s l)
  unfolding install_block
  install_block-disk = simp (view_laws, ==_refl)

  install_block-images : (install_block l d s).images ≡ update s.disk d (view s l) ∷ s.images
  unfolding install_block
  install_block-images = simp (view_laws, ==_refl)

  pub install_block-log : (install_block l d s).log ≡ s.log
  unfolding install_block
  install_block-log = simp view_laws

  log_block-view : view (log_block l d s) ≡ update (view s) l (view s d)
  unfolding log_block
  log_block-view = fun_ext λ x. simp view_laws

  log_block-disk : (log_block l d s).disk ≡ update s.disk l (view s d)
  unfolding log_block
  log_block-disk = simp (view_laws, ==_refl)

  log_block-images : (log_block l d s).images ≡ update s.disk l (view s d) ∷ s.images
  unfolding log_block
  log_block-images = simp (view_laws, ==_refl)

  pub log_block-log : (log_block l d s).log ≡ s.log
  unfolding log_block
  log_block-log = simp view_laws

-- A property of every disk image of a list.
abbrev pub All : (Disk → Type 0) → List Disk → Type 0
All P [] = Unit {0}
All P (d ∷ ds) = P d × All P ds

-- What a copying loop has done, when `P` holds of the disk throughout: `Q`, which
-- follows from `P`, holds of every image.
pub record Copied (P Q : Disk → Type 0) (k i : ℕ) (dst : ℕ → ℕ) (c : ℕ → Block) (s t : Kernel)
    : Type 0 where
  pub disk : t.disk ≡ copied k i dst c s.disk
  pub seen : view t ≡ copied k i dst c (view s)
  pub log : t.log ≡ s.log
  pub now : P t.disk
  pub always : All Q t.images

-- One more round in front.
round-Copied :
    (P Q : Disk → Type 0) (k i : ℕ) (dst : ℕ → ℕ) (c : ℕ → Block) (s r t : Kernel)
    → r.disk ≡ update s.disk (dst i) (c i)
    → view r ≡ update (view s) (dst i) (c i)
    → r.log ≡ s.log
    → Copied P Q k (i + 1) dst c r t
    → Copied P Q (suc k) i dst c s t
unfolding copied
round-Copied P Q k i dst c s r t ed ev el w = record {
  disk = w.disk ∙ ap (copied k (i + 1) dst c) ed;
  seen = w.seen ∙ ap (copied k (i + 1) dst c) ev;
  log = w.log ∙ el;
  now = w.now;
  always = w.always;
}

module _ (start size : ℕ) (blk : ℕ → ℕ) (c : ℕ → Block) (P Q : Disk → Type 0)
    (sub : (d : Disk) → P d → Q d) where
  -- `install_trans`: the log blocks hold `c`, and no block of the list is a log block.
  pub install_from-Copied :
      ((j j' : ℕ) → j < size → j' < size → blk j' ≢ start + j + 1)
      → ((j : ℕ) (d : Disk) → j < size → P d → P (update d (blk j) (c j)))
      → (k i : ℕ) (s : Kernel) → i + k ≡ size
      → s.log.start ≡ start
      → s.log.lh.block ≡ blk
      → ((j : ℕ) → i ≤ j → j < size → view s (start + j + 1) ≡ c j)
      → P s.disk
      → All Q s.images
      → Copied P Q k i blk c s (install_from k i s)
  unfolding install_from copied
  install_from-Copied apart stable zero i s ek es eb holds now always = record {
    disk = refl;
    seen = refl;
    log = refl;
    now = now;
    always = always;
  }
  install_from-Copied apart stable (suc k) i s ek es eb holds now always =
      let l : ℕ = s.log.start + i + 1 in
      let d : ℕ = s.log.lh.block i in
      let el : l ≡ start + i + 1 = ap (λ x. x + i + 1) es in
      let ed : d ≡ blk i = ap (λ f. f i) eb in
      let r = install_block l d s in
      let ec : view s l ≡ c i = ap (view s) el ∙ holds i (omega arith) (omega arith) in
      let disk : r.disk ≡ update s.disk (blk i) (c i) =
        install_block-disk l d s ∙ ap₂ (update s.disk) ed ec in
      let seen : view r ≡ update (view s) (blk i) (c i) =
        install_block-view l d s ∙ ap₂ (update (view s)) ed ec in
      let log = install_block-log l d s in
      let now' : P r.disk = subst P (sym disk) (stable i s.disk (omega arith) now) in
      round-Copied P Q k i blk c s r _ disk seen log (
        install_from-Copied apart stable k (i + 1) r (omega arith) (ap (λ g. g.start) log ∙ es)
          (ap (λ g. g.lh.block) log ∙ eb)
          (λ j lo hi.
            ap (λ v. v (start + j + 1)) seen
            ∙ update_ne (view s) (blk i) (c i) (start + j + 1) (apart j i hi (omega arith))
            ∙ holds j (omega arith) hi)
          now'
          (subst (All Q) (sym (install_block-images l d s))
            (sub _ (subst P (install_block-disk l d s) now'), always)))

  -- `write_log`: the blocks of the list are seen to hold `c`.
  pub write_log_from-Copied :
      ((j j' : ℕ) → j < size → j' < size → blk j' ≢ start + j + 1)
      → ((j : ℕ) (d : Disk) → j < size → P d → P (update d (start + j + 1) (c j)))
      → (k i : ℕ) (s : Kernel) → i + k ≡ size
      → s.log.start ≡ start
      → s.log.lh.block ≡ blk
      → ((j : ℕ) → i ≤ j → j < size → view s (blk j) ≡ c j)
      → P s.disk
      → All Q s.images
      → Copied P Q k i (λ j. start + j + 1) c s (write_log_from k i s)
  unfolding write_log_from copied
  write_log_from-Copied apart stable zero i s ek es eb holds now always = record {
    disk = refl;
    seen = refl;
    log = refl;
    now = now;
    always = always;
  }
  write_log_from-Copied apart stable (suc k) i s ek es eb holds now always =
      let l : ℕ = s.log.start + i + 1 in
      let d : ℕ = s.log.lh.block i in
      let el : l ≡ start + i + 1 = ap (λ x. x + i + 1) es in
      let ed : d ≡ blk i = ap (λ f. f i) eb in
      let r = log_block l d s in
      let ec : view s d ≡ c i = ap (view s) ed ∙ holds i (omega arith) (omega arith) in
      let disk : r.disk ≡ update s.disk (start + i + 1) (c i) =
        log_block-disk l d s ∙ ap₂ (update s.disk) el ec in
      let seen : view r ≡ update (view s) (start + i + 1) (c i) =
        log_block-view l d s ∙ ap₂ (update (view s)) el ec in
      let log = log_block-log l d s in
      let now' : P r.disk = subst P (sym disk) (stable i s.disk (omega arith) now) in
      round-Copied P Q k i (λ j. start + j + 1) c s r _ disk seen log
        (write_log_from-Copied apart stable k (i + 1) r (omega arith) (ap (λ g. g.start) log ∙ es)
          (ap (λ g. g.lh.block) log ∙ eb)
          (λ j lo hi.
            ap (λ v. v (blk j)) seen
            ∙ update_ne (view s) (start + i + 1) (c i) (blk j)
                (λ e. apart i j (omega arith) hi (sym e))
            ∙ holds j (omega arith) hi)
          now'
          (subst (All Q) (sym (log_block-images l d s))
            (sub _ (subst P (log_block-disk l d s) now'), always)))
