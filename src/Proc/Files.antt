-- ===== src/Proc/Files.antt =====
-- The open files of a process, and the calls made for them in order.
use mit6s.Base.{ℕ, zero, suc, ◌+◌, ◌≤◌, ◌≡◌, refl, ap₂, arith, Option, none, some, List, [], ◌∷◌}
use mit6s.Proc.{Call}

-- A file, if there is one, before others.
abbrev pub file_then : Option ℕ → List ℕ → List ℕ
file_then none fs = fs
file_then (some f) fs = f ∷ fs

-- The files that are open at `k` descriptors from `fd` on.
abbrev pub open_files : ℕ → ℕ → (ℕ → Option ℕ) → List ℕ
open_files zero fd ofile = []
open_files (suc k) fd ofile = file_then (ofile fd) (open_files k (fd + 1) ofile)

-- The calls `c` for files in order, after the calls `cs`; the latest is first.
abbrev pub called : (ℕ → Call) → List ℕ → List Call → List Call
called c [] cs = cs
called c (f ∷ fs) cs = called c fs (c f ∷ cs)

pub open_files-same :
    (k fd : ℕ) (o p : ℕ → Option ℕ)
    → ((x : ℕ) → fd ≤ x → o x ≡ p x)
    → open_files k fd o ≡ open_files k fd p
open_files-same zero fd o p same = refl
open_files-same (suc k) fd o p same =
    ap₂ file_then (same fd (omega arith))
      (open_files-same k (fd + 1) o p (λ x le. same x (omega arith)))
