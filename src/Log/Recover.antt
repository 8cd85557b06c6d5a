-- ===== src/Log/Recover.antt =====
-- Recovery after a crash: what `initlog` makes of the disk that it finds.
use mathlib.Core.Path.{subst, subst₂}
use mit6s.Base.{
  ℕ, ◌+◌, ◌≤◌, ◌<◌, ◌≡◌, ◌≢◌, refl, sym, ap, ap₂, ◌∙◌, arith, ◌∷◌, update, update_self, update_ne,
}
use mit6s.Log.{
  Block, Disk, Log, Kernel, view, header_of, head_words, read_head, write_head, install_from,
  install_trans, set_header, clear_head, recover_from_log, initlog,
}
use mit6s.Log.Cache.{log-set_header, view-set_header}
use mit6s.Log.Copy.{All, install_from-Copied}
use mit6s.Log.Heads.{
  new_head, Holds, header_of-Holds, write_head-disk, write_head-images, write_head-view,
  write_head-log, read_head-disk, read_head-images, read_head-view, read_head-log,
}
use mit6s.Log.Logged.{
  apart, Agree, Clean, Clean-Recoverable, Fits, Fits-Agree, Home, Logged, Logged-Agree, Recoverable,
  boot, copied-goal, header_of-Holds_self, install-Logged,
}

-- The clearing of the header that ends a commit and a recovery.
clear-disk :
    (t : Kernel)
    → (x : Block) × ((write_head (clear_head t)).disk ≡ update t.disk t.log.start x)
      × ((write_head (clear_head t)).images ≡ update t.disk t.log.start x ∷ t.images)
      × (x 0 ≡ 0)
unfolding set_header head_words
clear-disk t = (
  new_head (clear_head t),
  write_head-disk (clear_head t),
  write_head-images (clear_head t),
  refl,
)

-- `log.lh.n = 0`, on the log.
abbrev pub zeroed : Log → Log
zeroed g = record g { lh = record (g.lh) { n = 0 } }

clear-view : (t : Kernel) (b : ℕ) → t.log.start ≢ b → view (write_head (clear_head t)) b ≡ view t b
clear-view t b ne =
    let s = clear_head t in
    let ne' : s.log.start ≢ b = λ e. ne (ap (λ g. g.start) (sym (log-set_header _ t)) ∙ e) in
    ap (λ v. v b) (write_head-view s)
    ∙ update_ne (view s) s.log.start (new_head s) b ne'
    ∙ view-set_header _ t b

clear-log : (t : Kernel) → (write_head (clear_head t)).log ≡ zeroed (t.log)
clear-log t = write_head-log (clear_head t) ∙ log-set_header _ t

pub clear-Clean :
    (start size : ℕ) (goal : Disk) (t : Kernel)
    → 1 ≤ size
    → t.log.start ≡ start
    → ((b : ℕ) → Home start size b → t.disk b ≡ goal b)
    → Clean start size goal (write_head (clear_head t)).disk
      × ((write_head (clear_head t)).images ≡ (write_head (clear_head t)).disk ∷ t.images)
clear-Clean start size goal t room es home =
    let (x, e, i, z) = clear-disk t in
    let e' : (write_head (clear_head t)).disk ≡ update t.disk start x =
      e ∙ ap (λ b. update t.disk b x) es in
    (
      (
        ap (λ d. d start 0) e' ∙ ap (λ y. y 0) (update_self t.disk start x) ∙ z,
        λ b hb. ap (λ d. d b) e' ∙ update_ne t.disk start x b (omega arith) ∙ home b hb,
      ),
      i ∙ ap (λ d. d ∷ t.images) (sym e),
    )

-- `install_trans` and the clearing of the header, on a logged disk whose log blocks readers see as
-- they are: the home blocks end as those of the goal, and every new image is recoverable.
module _ (start size : ℕ) (goal : Disk) (Q : Disk → Type 0) (s : Kernel) where
  pub install_clear :
      ((d : Disk) → Recoverable start size goal d → Q d)
      → s.log.start ≡ start
      → Fits start size (s.log.lh)
      → Logged start size (s.log.lh) goal s.disk
      → ((j : ℕ) → j < s.log.lh.n → view s (start + j + 1) ≡ goal (s.log.lh.block j))
      → ((b : ℕ)
          → Home start size b
          → ((j : ℕ) → j < s.log.lh.n → s.log.lh.block j ≢ b)
          → view s b ≡ goal b)
      → All Q s.images
      → let t = write_head (clear_head (install_trans s)) in
        Clean start size goal t.disk
        × All Q t.images
        × ((b : ℕ) → Home start size b → view t b ≡ goal b)
        × (t.log ≡ zeroed (s.log))
  unfolding install_trans
  install_clear sub es f w seen others always =
      let h = s.log.lh in
      let r =
        install_from-Copied start h.n h.block (λ j. goal (h.block j)) (Logged start size h goal) Q
          (λ d l. sub d (h, f, l)) (λ j j' lt lt'. apart f j j' lt lt')
          (λ j d lt. install-Logged start size h goal f j d lt) h.n 0 s (omega arith) es refl
          (λ j lo lt. seen j lt) w always in
      let (clean, images) =
        clear-Clean start size goal (install_from h.n 0 s) (omega (arith, f.room))
          (ap (λ g. g.start) r.log ∙ es)
          (λ b hb. ap (λ d. d b) r.disk ∙ copied-goal start size h goal s.disk f w.others b hb) in
      (
        clean,
        subst (All Q) (sym images)
            (sub _ (Clean-Recoverable start size goal _ (omega (arith, f.room)) clean), r.always),
        λ b hb.
            clear-view (install_from h.n 0 s) b (omega (arith, ap (λ g. g.start) r.log, es, f.room))
            ∙ ap (λ v. v b) r.seen
            ∙ copied-goal start size h goal (view s) f others b hb,
        clear-log (install_from h.n 0 s) ∙ ap zeroed r.log,
      )

recover_from_log-Clean :
    (start size : ℕ) (goal : Disk) (s : Kernel)
    → s.log.start ≡ start
    → view s ≡ s.disk
    → Recoverable start size goal s.disk
    → All (Recoverable start size goal) s.images
    → Clean start size goal (recover_from_log s).disk
      × All (Recoverable start size goal) (recover_from_log s).images
unfolding recover_from_log
recover_from_log-Clean start size goal s es ev (h, f, w) always =
    let r = read_head s in
    let g = header_of (view s s.log.start) (s.log.lh) in
    let ex : view s s.log.start ≡ s.disk start = ap₂ (λ v b. v b) ev es in
    let held : Holds (s.disk start) g =
      subst (λ x. Holds x g) ex (header_of-Holds_self (view s s.log.start) (s.log.lh)) in
    let agree : Agree h g =
      header_of-Holds (view s s.log.start) h (s.log.lh) (subst (λ x. Holds x h) (sym ex) w.head) in
    let el : r.log.lh ≡ g = ap (λ l. l.lh) (read_head-log s) in
    let fr : Fits start size (r.log.lh) =
      subst (Fits start size) (sym el) (Fits-Agree h g agree f) in
    let wr : Logged start size (r.log.lh) goal r.disk =
      subst₂ (λ x d. Logged start size x goal d) (sym el) (sym (read_head-disk s))
        (Logged-Agree h g agree held w) in
    let er : view r ≡ r.disk = read_head-view s ∙ ev ∙ sym (read_head-disk s) in
    let (clean, images, _, _) =
      install_clear start size goal (Recoverable start size goal) r (λ d x. x)
        (ap (λ l. l.start) (read_head-log s) ∙ es) fr wr
        (λ j lt. ap (λ v. v (start + j + 1)) er ∙ wr.body j lt)
        (λ b hb far. ap (λ v. v b) er ∙ wr.others b hb far)
        (subst (All (Recoverable start size goal)) (sym (read_head-images s)) always) in
    (clean, images)

-- Recovery of a recoverable disk: the home blocks end as those of the goal, with the log empty;
-- and the disk is recoverable, for the same goal, at every moment of the recovery, so that a
-- crash in it loses nothing.
pub recover_lem :
    (start size : ℕ) (goal d : Disk)
    → 1 ≤ size
    → Recoverable start size goal d
    → let t = initlog start size (boot d) in
      Clean start size goal t.disk × All (Recoverable start size goal) t.images
unfolding initlog view
recover_lem start size goal d room w = recover_from_log-Clean start size goal _ refl refl w (w, tt)
