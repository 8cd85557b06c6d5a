-- ===== src/Log/Commit.antt =====
-- `commit`: at every moment the disk holds the old contents or the new, and at the end the new.
use mathlib.Core.Path.{subst, subst₂}
use mit6s.Base.{
  ℕ, ◌+◌, ◌<◌, ◌≡◌, ◌≢◌, ◌⊎◌, inl, inr, refl, sym, ap, ap₂, ◌∙◌, arith, update, update_self,
  update_ne, Bool-cases, ltb,
}
use mit6s.Log.{Block, Disk, Kernel, view, write_head, write_log, install_trans, clear_head, commit}
use mit6s.Log.Copy.{All, copied, copied-ne, copied-at, Copied, write_log_from-Copied}
use mit6s.Log.Heads.{
  Holds, new_head, head_words-Holds, write_head-disk, write_head-images, write_head-view,
  write_head-log,
}
use mit6s.Log.Logged.{Home, Fits, Clean, Logged, Recoverable, Clean-Recoverable, apart}
use mit6s.Log.Recover.{install_clear, zeroed}

-- A transaction that is ready to commit: its list fits the log, the log on disk is empty, and only
-- the blocks of the list differ between the cache and the disk.
pub record Ready (start size : ℕ) (s : Kernel) : Type 0 where
  pub place : s.log.start ≡ start
  pub fits : Fits start size (s.log.lh)
  pub empty : s.disk start 0 ≡ 0
  pub clean :
      (b : ℕ)
      → Home start size b
      → ((j : ℕ) → j < s.log.lh.n → s.log.lh.block j ≢ b)
      → view s b ≡ s.disk b

-- The disk recovers to `old` or to `new`.
abbrev pub Either : ℕ → ℕ → Disk → Disk → Disk → Type 0
Either start size old new d = Recoverable start size old d ⊎ Recoverable start size new d

module _ {start size : ℕ} {s : Kernel} (y : Ready start size s) where
  abbrev target : ℕ → ℕ
  target j = start + j + 1

  abbrev fresh : ℕ → Block
  fresh j = view s (s.log.lh.block j)

  -- Writing a log block changes no home block.
  log_block-Clean :
      (j : ℕ) (d : Disk)
      → j < s.log.lh.n
      → Clean start size s.disk d
      → Clean start size s.disk (update d (target j) (fresh j))
  log_block-Clean j d lt w = (
    ap (λ x. x 0) (update_ne d (target j) (fresh j) start (omega arith)) ∙ w.0,
    λ b hb. update_ne d (target j) (fresh j) b (omega (arith, y.fits.room)) ∙ w.1 b hb,
  )

  write_log-Copied :
      All (Either start size s.disk (view s)) s.images
      → Copied
          (Clean start size s.disk)
          (Either start size s.disk (view s))
          s.log.lh.n
          0
          target
          fresh
          s
          (write_log s)
  unfolding write_log
  write_log-Copied always =
      write_log_from-Copied start s.log.lh.n s.log.lh.block fresh (Clean start size s.disk)
        (Either start size s.disk (view s))
        (λ d w. inl (Clean-Recoverable start size s.disk d (omega (arith, y.fits.room)) w))
        (λ j j' lt lt'. apart y.fits j j' lt lt') log_block-Clean s.log.lh.n 0 s (omega arith)
        y.place refl (λ j lo lt. refl) (y.empty, λ b hb. refl) always

  -- The log area of `d` written: the log blocks and the header block `x`.
  abbrev laid : Disk → Block → Disk
  laid d x = update (copied s.log.lh.n 0 target fresh d) start x

  laid-target : (d : Disk) (x : Block) (j : ℕ) → j < s.log.lh.n → laid d x (target j) ≡ fresh j
  laid-target d x j lt =
      update_ne (copied s.log.lh.n 0 target fresh d) start x (target j) (omega arith)
      ∙ copied-at s.log.lh.n 0 target fresh d j (λ j' lo hi. omega arith) (omega arith)
          (omega arith)

  laid-Home : (d : Disk) (x : Block) (b : ℕ) → Home start size b → laid d x b ≡ d b
  laid-Home d x b hb =
      update_ne (copied s.log.lh.n 0 target fresh d) start x b (omega (arith, y.fits.room))
      ∙ copied-ne s.log.lh.n 0 target fresh d b (λ j lo hi. omega (arith, y.fits.room))

  -- After `write_log` and `write_head` the disk is logged, for the new contents.
  laid-Logged :
      (x : Block) → Holds x (s.log.lh) → Logged start size (s.log.lh) (view s) (laid s.disk x)
  laid-Logged x held = record {
    head = rw (update_self (copied s.log.lh.n 0 target fresh s.disk) start x) held;
    body = laid-target s.disk x;
    others = λ b hb far. laid-Home s.disk x b hb ∙ sym (y.clean b hb far);
  }

-- What `commit` does when there is something to commit.
commit_some :
    (start size : ℕ) (s : Kernel)
    → Ready start size s
    → All (Either start size s.disk (view s)) s.images
    → let t = write_head (clear_head (install_trans (write_head (write_log s)))) in
      Clean start size (view s) t.disk
      × All (Either start size s.disk (view s)) t.images
      × ((b : ℕ) → Home start size b → view t b ≡ view s b)
      × (t.log ≡ zeroed (s.log))
commit_some start size s y always =
    let w = write_log-Copied y always in
    let m = write_log s in
    let h = write_head m in
    let x = new_head m in
    let held : Holds x (s.log.lh) =
      subst (λ l. Holds x l.lh) w.log (head_words-Holds (m.log.lh) (view m m.log.start)) in
    let em : m.log.start ≡ start = ap (λ l. l.start) w.log ∙ y.place in
    let ed : h.disk ≡ laid y s.disk x = write_head-disk m ∙ ap₂ (λ d b. update d b x) w.disk em in
    let ev : view h ≡ laid y (view s) x = write_head-view m ∙ ap₂ (λ d b. update d b x) w.seen em in
    let el : h.log ≡ s.log = write_head-log m ∙ w.log in
    let wh : Logged start size (h.log.lh) (view s) h.disk =
      subst₂ (λ l d. Logged start size l.lh (view s) d) (sym el) (sym ed) (laid-Logged y x held) in
    let fh : Fits start size (h.log.lh) = subst (λ l. Fits start size l.lh) (sym el) y.fits in
    let seen : (j : ℕ) → j < s.log.lh.n → view h (start + j + 1) ≡ view s (s.log.lh.block j) =
      λ j lt. ap (λ v. v (start + j + 1)) ev ∙ laid-target y (view s) x j lt in
    let (clean, images, seen', log) =
      install_clear start size (view s) (Either start size s.disk (view s)) h (λ d r. inr r)
        (ap (λ l. l.start) el ∙ y.place) fh wh
        (subst (λ l. (j : ℕ) → j < l.lh.n → view h (start + j + 1) ≡ view s (l.lh.block j)) (sym el)
          seen)
        (λ b hb far. ap (λ v. v b) ev ∙ laid-Home y (view s) x b hb)
        (subst (All (Either start size s.disk (view s))) (sym (write_head-images m)) (
          subst (Either start size s.disk (view s)) (write_head-disk m) (inr (h.log.lh, fh, wh)),
          w.always,
        )) in
    (clean, images, seen', log ∙ ap zeroed el)

-- A transaction that is ready commits: every image that the disk goes through recovers to the
-- contents before the transaction or to those after it (if the earlier images did); at the end
-- the home blocks on disk are as readers saw them, they see them so still, and the log is empty,
-- on disk and in memory.
pub commit_lem :
    (start size : ℕ) (s : Kernel)
    → Ready start size s
    → All (Either start size s.disk (view s)) s.images
    → let t = commit s in
      Clean start size (view s) t.disk
      × All (Either start size s.disk (view s)) t.images
      × ((b : ℕ) → Home start size b → view t b ≡ view s b)
      × (t.log ≡ zeroed (s.log))
unfolding commit
commit_lem start size s y always = elim (Bool-cases (ltb 0 (s.log.lh.n))) [
  | inl e ↦ rw e (commit_some start size s y always)
  | inr e ↦
      let z : s.log.lh.n ≡ 0 = ground arith in
      rw e (
        (y.empty, λ b hb. sym (y.clean b hb (λ j lt. absurd (omega arith)))),
        always,
        λ b hb. refl,
        ap (λ n. record (s.log) { lh = record (s.log.lh) { n = n } }) z,
      )
]
