-- ===== src/Log/Pins.antt =====
-- The reference counts of buffers over `install_trans`, in a commit and in a recovery.
use mathlib.Core.Path.{subst}
use mit6s.Base.{
  ℕ, zero, suc, ◌+◌, ◌-◌, ◌^◌, ◌≤◌, ◌<◌, ◌≡◌, ◌≢◌, refl, sym, ap, ap₂, ◌∙◌, arith, fun_ext, u32,
  update, update_self, update_ne, ℕ_discrete, Bool-cases, inl, inr, ltb, false,
}
use mit6s.Log.{
  Disk, Header, Kernel, view, bread, modify, bwrite, bunpin, install_block, install_from,
  install_trans, log_block, write_log_from, write_log, write_head, read_head, set_header,
  clear_head, recover_from_log, initlog, commit,
}
use mit6s.Log.Copy.{install_block-log, log_block-log}
use mit6s.Log.Heads.{Holds, read_head-log, write_head-log}
use mit6s.Log.Logged.{boot, Fits, Agree, Fits-Agree, read_head-Agree, apart}
use mit6s.Log.Commit.{Ready}
use mit6s.Log.Budget.{write_log_from-log}

-- One reference less, in `uint`.
abbrev pub down : ℕ → ℕ
down r = u32 (r + 2 ^ 32 - 1)

-- A count in `uint`.
abbrev pub Words : (ℕ → ℕ) → Type 0
Words r = (x : ℕ) → r x < 2 ^ 32

-- `k` blocks of a list from `i` on have one reference less.
pub lowered : ℕ → ℕ → (ℕ → ℕ) → (ℕ → ℕ) → ℕ → ℕ
lowered zero i blk r = r
lowered (suc k) i blk r = lowered k (i + 1) blk (update r (blk i) (down (r (blk i))))

pub lowered-ne :
    (k i : ℕ) (blk r : ℕ → ℕ) (b : ℕ)
    → ((j : ℕ) → i ≤ j → j < i + k → blk j ≢ b)
    → lowered k i blk r b ≡ r b
unfolding lowered
lowered-ne zero i blk r b far = refl
lowered-ne (suc k) i blk r b far =
    lowered-ne k (i + 1) blk _ b (λ j lo hi. far j (omega arith) (omega arith))
    ∙ update_ne r (blk i) (down (r (blk i))) b (far i (omega arith) (omega arith))

pub lowered-at :
    (k i : ℕ) (blk r : ℕ → ℕ) (j : ℕ)
    → ((j₁ j₂ : ℕ) → i ≤ j₁ → j₁ < j₂ → j₂ < i + k → blk j₂ ≢ blk j₁)
    → i ≤ j
    → j < i + k
    → lowered k i blk r (blk j) ≡ down (r (blk j))
unfolding lowered
lowered-at zero i blk r j once lo hi = absurd (omega arith)
lowered-at (suc k) i blk r j once lo hi = elim (ℕ_discrete i j) [
  | yes e ↦
      lowered-ne k (i + 1) blk _ (blk j) (λ j' lo' hi'. once j j' lo (omega arith) (omega arith))
      ∙ rw e (update_self r (blk j) (down (r (blk j))))
  | no ne ↦
      lowered-at k (i + 1) blk _ j (λ j₁ j₂ l m h. once j₁ j₂ (omega arith) m (omega arith))
        (omega arith) (omega arith)
      ∙ ap down (
          update_ne r (blk i) (down (r (blk i))) (blk j)
            (λ e. once i j (omega arith) (omega arith) hi (sym e)))
]

module _ (l d : ℕ) (s : Kernel) (w : Words s.refcnt) where
  install_block-refcnt :
      l ≢ d → (install_block l d s).refcnt ≡ update s.refcnt d (down (s.refcnt d))
  unfolding install_block bread modify bwrite bunpin
  install_block-refcnt ne = fun_ext λ x. ground (arith, w x, w d, w l)

  log_block-refcnt : l ≢ d → (log_block l d s).refcnt ≡ s.refcnt
  unfolding log_block bread modify bwrite bunpin
  log_block-refcnt ne = fun_ext λ x. ground (arith, w x, w d, w l)

write_head-refcnt : (s : Kernel) → Words s.refcnt → (write_head s).refcnt ≡ s.refcnt
unfolding write_head bread modify bwrite bunpin
write_head-refcnt s w = fun_ext λ x. ground (arith, w x, w s.log.start)

read_head-refcnt : (s : Kernel) → Words s.refcnt → (read_head s).refcnt ≡ s.refcnt
unfolding read_head bread bunpin set_header
read_head-refcnt s w = fun_ext λ x. ground (arith, w x, w s.log.start)

down-Words : {r : ℕ → ℕ} (b : ℕ) → Words r → Words (update r b (down (r b)))
down-Words b w x = ground (arith, w x)

lowered-Words : (k i : ℕ) (blk r : ℕ → ℕ) → Words r → Words (lowered k i blk r)
unfolding lowered
lowered-Words zero i blk r w = w
lowered-Words (suc k) i blk r w =
    lowered-Words k (i + 1) blk (update r (blk i) (down (r (blk i)))) (down-Words (blk i) w)

module _ (start size : ℕ) (blk : ℕ → ℕ)
    (far : (j j' : ℕ) → j < size → j' < size → blk j' ≢ start + j + 1) where
  install_from-refcnt :
      (k i : ℕ) (s : Kernel)
      → i + k ≡ size
      → s.log.start ≡ start
      → s.log.lh.block ≡ blk
      → Words s.refcnt
      → (install_from k i s).refcnt ≡ lowered k i blk s.refcnt
  unfolding install_from lowered
  install_from-refcnt zero i s ek es eb w = refl
  install_from-refcnt (suc k) i s ek es eb w =
      let l : ℕ = s.log.start + i + 1 in
      let d : ℕ = s.log.lh.block i in
      let el : l ≡ start + i + 1 = ap (λ x. x + i + 1) es in
      let ed : d ≡ blk i = ap (λ f. f i) eb in
      let er : (install_block l d s).refcnt ≡ update s.refcnt (blk i) (down (s.refcnt (blk i))) =
        install_block-refcnt l d s w
          (λ e. far i i (omega arith) (omega arith) (sym ed ∙ sym e ∙ el))
        ∙ ap (λ b. update s.refcnt b (down (s.refcnt b))) ed in
      let log = install_block-log l d s in
      install_from-refcnt k (i + 1) (install_block l d s) (omega arith) (ap (λ g. g.start) log ∙ es)
        (ap (λ g. g.lh.block) log ∙ eb) (subst Words (sym er) (down-Words (blk i) w))
      ∙ ap (lowered k (i + 1) blk) er

  write_log_from-refcnt :
      (k i : ℕ) (s : Kernel)
      → i + k ≡ size
      → s.log.start ≡ start
      → s.log.lh.block ≡ blk
      → Words s.refcnt
      → (write_log_from k i s).refcnt ≡ s.refcnt
  unfolding write_log_from
  write_log_from-refcnt zero i s ek es eb w = refl
  write_log_from-refcnt (suc k) i s ek es eb w =
      let l : ℕ = s.log.start + i + 1 in
      let d : ℕ = s.log.lh.block i in
      let el : l ≡ start + i + 1 = ap (λ x. x + i + 1) es in
      let ed : d ≡ blk i = ap (λ f. f i) eb in
      let er : (log_block l d s).refcnt ≡ s.refcnt =
        log_block-refcnt l d s w (λ e. far i i (omega arith) (omega arith) (sym ed ∙ sym e ∙ el)) in
      let log = log_block-log l d s in
      write_log_from-refcnt k (i + 1) (log_block l d s) (omega arith) (ap (λ g. g.start) log ∙ es)
        (ap (λ g. g.lh.block) log ∙ eb) (subst Words (sym er) w)
      ∙ er

clear-refcnt : (t : Kernel) → Words t.refcnt → (write_head (clear_head t)).refcnt ≡ t.refcnt
unfolding set_header
clear-refcnt t w = write_head-refcnt (clear_head t) w

-- `install_trans` and the clearing of the header take one reference off each block of the list.
install_clear-refcnt :
    (start size : ℕ) (s : Kernel)
    → s.log.start ≡ start
    → Fits start size (s.log.lh)
    → Words s.refcnt
    → (write_head (clear_head (install_trans s))).refcnt
      ≡ lowered s.log.lh.n 0 (s.log.lh.block) s.refcnt
unfolding install_trans
install_clear-refcnt start size s es f w =
    let n : ℕ = s.log.lh.n in
    let blk = s.log.lh.block in
    let e =
      install_from-refcnt start n blk (λ j j' lt lt'. apart f j j' lt lt') n 0 s (omega arith) es
        refl w in
    clear-refcnt (install_from n 0 s) (subst Words (sym e) (lowered-Words n 0 blk s.refcnt w)) ∙ e

-- A commit takes off each block of its list the one reference that `log_write` took when it put it
-- there, and leaves all other counts.
pub commit_unpins :
    (start size : ℕ) (s : Kernel)
    → Ready start size s
    → Words s.refcnt
    → ((j : ℕ)
        → j < s.log.lh.n
        → (commit s).refcnt (s.log.lh.block j) ≡ down (s.refcnt (s.log.lh.block j)))
      × ((b : ℕ)
          → ((j : ℕ) → j < s.log.lh.n → s.log.lh.block j ≢ b)
          → (commit s).refcnt b ≡ s.refcnt b)
unfolding commit write_log
commit_unpins start size s y w = elim (Bool-cases (ltb 0 (s.log.lh.n))) [
  | inr e ↦ rw e (λ j lt. absurd (ground arith), λ b far. refl)
  | inl e ↦
      let n : ℕ = s.log.lh.n in
      let blk = s.log.lh.block in
      let h = write_head (write_log s) in
      let ew : (write_log s).refcnt ≡ s.refcnt =
        write_log_from-refcnt start n blk (λ j j' lt lt'. apart y.fits j j' lt lt') n 0 s
          (omega arith) y.place refl w in
      let eh : h.refcnt ≡ s.refcnt =
        write_head-refcnt (write_log s) (subst Words (sym ew) w) ∙ ew in
      let el : h.log ≡ s.log = write_head-log (write_log s) ∙ write_log_from-log n 0 s in
      let er : (write_head (clear_head (install_trans h))).refcnt ≡ lowered n 0 blk s.refcnt =
        install_clear-refcnt start size h (ap (λ l. l.start) el ∙ y.place)
          (subst (λ l. Fits start size l.lh) (sym el) y.fits) (subst Words (sym eh) w)
        ∙ ap₂ (λ l r. lowered l.lh.n 0 (l.lh.block) r) el eh in
      rw e (
        λ j lt.
            ap (λ r. r (blk j)) er
            ∙ lowered-at n 0 blk s.refcnt j (λ j₁ j₂ l m hi. y.fits.once j₁ j₂ m (omega arith))
                (omega arith) (omega arith),
        λ b far. ap (λ r. r b) er ∙ lowered-ne n 0 blk s.refcnt b (λ j lo hi. far j (omega arith)),
      )
]

recovered-refcnt :
    (start size : ℕ) (d : Disk) (h : Header)
    → Fits start size h
    → Holds (d start) h
    → (j : ℕ) → j < h.n
    → (initlog start size (boot d)).refcnt (h.block j) ≡ 2 ^ 32 - 1
unfolding initlog recover_from_log view
recovered-refcnt start size d h f held j lt =
    let s : Kernel = record (boot d) {
      log = record ((boot d).log) { lock = false; start = start; size = size };
    } in
    let r = read_head s in
    let g = r.log.lh in
    let agree : Agree h g = read_head-Agree s h held in
    let fg : Fits start size g = Fits-Agree h g agree f in
    let er : r.refcnt ≡ s.refcnt = read_head-refcnt s (λ x. omega arith) in
    let es : r.log.start ≡ start = ap (λ l. l.start) (read_head-log s) in
    let eb : g.block j ≡ h.block j = agree.1 j lt in
    ap (write_head (clear_head (install_trans r))).refcnt (sym eb)
    ∙ ap (λ c. c (g.block j))
        (install_clear-refcnt start size r es fg (subst Words (sym er) (λ x. omega arith)))
    ∙ lowered-at g.n 0 g.block r.refcnt j (λ j₁ j₂ l m hi. fg.once j₁ j₂ m (omega arith))
        (omega arith) (omega (arith, agree.0))
    ∙ ap (λ c. down (c (g.block j))) er

-- A recovery that finds blocks `h` in the log takes one reference off the buffer of each, that
-- nobody holds: the count wraps to 2 ^ 32 - 1. Then the next `bread` of the block makes it 0, which
-- marks the buffer as not in use while it is.
pub recover_underflow :
    (start size : ℕ) (d : Disk) (h : Header)
    → Fits start size h
    → Holds (d start) h
    → (j : ℕ) → j < h.n
    → let b = h.block j in
      let s = initlog start size (boot d) in (s.refcnt b ≡ 2 ^ 32 - 1) × ((bread b s).refcnt b ≡ 0)
unfolding bread
recover_underflow start size d h f held j lt =
    let b = h.block j in
    let s = initlog start size (boot d) in
    let e = recovered-refcnt start size d h f held j lt in
    (e, update_self s.refcnt b (u32 (s.refcnt b + 1)) ∙ ap (λ c. u32 (c + 1)) e)
