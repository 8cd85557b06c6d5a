-- ===== src/Log/Crash.antt =====
-- Crashes: the disk at any moment of a commit, and what the next boot makes of it.
use mathlib.Core.Path.{subst}
use mit6s.Base.{ℕ, refl, ◌≤◌, ◌≡◌, ◌⊎◌, inl, inr, sym, arith, List, [], ◌∷◌}
use mit6s.Log.{Disk, Kernel, view, initlog, commit}
use mit6s.Log.Copy.{All}
use mit6s.Log.Logged.{Clean, Recoverable, Clean-Recoverable, boot}
use mit6s.Log.Recover.{recover_lem}
use mit6s.Log.Commit.{Ready, Either, commit_lem}

-- The disk after a boot on `d`.
pub recovered : ℕ → ℕ → Disk → Disk
recovered start size d = (initlog start size (boot d)).disk

-- Each disk image recovers to the old home blocks or to the new, with the log empty.
abbrev pub Atomic : ℕ → ℕ → Disk → Disk → Disk → Type 0
Atomic start size old new d =
    Clean start size old (recovered start size d) ⊎ Clean start size new (recovered start size d)

Either-Atomic :
    (start size : ℕ) (old new d : Disk)
    → 1 ≤ size
    → Either start size old new d
    → Atomic start size old new d
unfolding recovered
Either-Atomic start size old new d room (inl w) = inl (recover_lem start size old d room w).0
Either-Atomic start size old new d room (inr w) = inr (recover_lem start size new d room w).0

Atomic-All :
    (start size : ℕ) (old new : Disk) (ds : List Disk)
    → 1 ≤ size
    → All (Either start size old new) ds
    → All (Atomic start size old new) ds
Atomic-All start size old new [] room h = tt
Atomic-All start size old new (d ∷ ds) room h =
    (Either-Atomic start size old new d room h.0, Atomic-All start size old new ds room h.1)

-- A transaction is atomic: wherever a commit of a ready transaction is cut off by a crash, that
-- is, on every image that the disk goes through, the next boot leaves either all the home blocks
-- as they were on disk before it or all as the transaction saw them, with an empty log.
pub crash-Atomic :
    (start size : ℕ) (s : Kernel)
    → Ready start size s
    → s.images ≡ s.disk ∷ []
    → All (Atomic start size s.disk (view s)) (commit s).images
crash-Atomic start size s y one =
    let room : 1 ≤ size = omega (arith, y.fits.room) in
    let before : Recoverable start size s.disk s.disk =
      Clean-Recoverable start size s.disk s.disk room (y.empty, λ b hb. refl) in
    let (_, images, _, _) =
      commit_lem start size s y
        (subst (All (Either start size s.disk (view s))) (sym one) (inl before, tt)) in
    Atomic-All start size s.disk (view s) (commit s).images room images
