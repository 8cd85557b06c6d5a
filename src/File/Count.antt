-- ===== src/File/Count.antt =====
-- How often a file stands in a list of holders, and the cases of the operations.
use mathlib.Core.Path.{subst}
use mit6s.Base.{
  ℕ, zero, suc, ◌+◌, ◌-◌, ◌≤◌, ◌<◌, ◌≡◌, ◌≢◌, refl, sym, arith, List, [], ◌∷◌, ◌++◌, true, false,
  Option, none, some, ltb, ◌==◌, ==_ne, if◌then◌else◌, ℕ_discrete,
}
use mit6s.File.{
  nfile, Ftable, set_file, alloc_from, filealloc, filedup, fileclose, nothing, closing, fd_none,
}

abbrev pub count : ℕ → List ℕ → ℕ
count f [] = 0
count f (g ∷ gs) = (if g == f then 1 else 0) + count f gs

pub count-append : (f : ℕ) (gs hs : List ℕ) → count f (gs ++ hs) ≡ count f gs + count f hs
count-append f [] hs = omega arith
count-append f (g ∷ gs) hs = omega (arith, count-append f gs hs)

pub filedup-some :
    (f : ℕ) (s : Ftable)
    → 1 ≤ (s.file f).ref
    → filedup f s ≡ some (set_file f (record (s.file f) { ref = (s.file f).ref + 1 }) s)
unfolding filedup
filedup-some f s h = let e : ltb (s.file f).ref 1 ≡ false = ground arith in rw e refl

pub fileclose-more :
    (f : ℕ) (s : Ftable)
    → 2 ≤ (s.file f).ref
    → fileclose f s ≡ some (nothing, set_file f (record (s.file f) { ref = (s.file f).ref - 1 }) s)
unfolding fileclose
fileclose-more f s h =
    let e : ltb (s.file f).ref 1 ≡ false = ground arith in
    let m : ltb 0 ((s.file f).ref - 1) ≡ true = ground arith in rw (e, m) refl

pub fileclose-last :
    (f : ℕ) (s : Ftable)
    → (s.file f).ref ≡ 1
    → fileclose f s
      ≡ some (closing (s.file f), set_file f (record (s.file f) { ref = 0; type = fd_none }) s)
unfolding fileclose
fileclose-last f s h =
    let e : ltb (s.file f).ref 1 ≡ false = ground arith in
    let m : ltb 0 ((s.file f).ref - 1) ≡ false = ground arith in rw (e, m) refl

-- How `filealloc` ends: at the first file from `lo` on that nobody holds, or with none free.
abbrev pub AllocEnd : ℕ → ℕ → Ftable → Option ℕ × Ftable → Type 0
AllocEnd lo hi s (none, t) =
    ((f : ℕ) → lo ≤ f → f < hi → (s.file f).ref ≢ 0) × (t ≡ record s { lock = false })
AllocEnd lo hi s (some f, t) =
    (lo ≤ f) × (f < hi) × ((s.file f).ref ≡ 0) × (t ≡ set_file f (record (s.file f) { ref = 1 }) s)

alloc_from-here :
    (k f : ℕ) (s : Ftable)
    → (s.file f).ref ≡ 0
    → alloc_from (suc k) f s ≡ (some f, set_file f (record (s.file f) { ref = 1 }) s)
unfolding alloc_from
alloc_from-here k f s e = let b : ((s.file f).ref == 0) ≡ true = ground arith in rw b refl

alloc_from-pass :
    (k f : ℕ) (s : Ftable) → (s.file f).ref ≢ 0 → alloc_from (suc k) f s ≡ alloc_from k (f + 1) s
unfolding alloc_from
alloc_from-pass k f s ne = rw (==_ne (s.file f).ref 0 ne) refl

pass-AllocEnd :
    (lo hi : ℕ) (s : Ftable) (out : Option ℕ × Ftable)
    → (s.file lo).ref ≢ 0
    → AllocEnd (lo + 1) hi s out
    → AllocEnd lo hi s out
pass-AllocEnd lo hi s (some f, t) ne (a, b, c, d) = (omega arith, b, c, d)
pass-AllocEnd lo hi s (none, t) ne (h, e) =
    (λ f a b. elim (ℕ_discrete lo f) [ yes q ↦ rw (sym q) ne | no nq ↦ h f (omega arith) b ], e)

pub alloc_from-AllocEnd : (k lo : ℕ) (s : Ftable) → AllocEnd lo (lo + k) s (alloc_from k lo s)
unfolding alloc_from
alloc_from-AllocEnd zero lo s = (λ f a b. absurd (omega arith), refl)
alloc_from-AllocEnd (suc k) lo s =
    let eh : lo + suc k ≡ lo + 1 + k = omega arith in
    elim (ℕ_discrete (s.file lo).ref 0) [
      | yes z ↦
          subst (AllocEnd lo (lo + suc k) s) (sym (alloc_from-here k lo s z))
            (omega arith, omega arith, z, refl)
      | no ne ↦
          subst (AllocEnd lo (lo + suc k) s) (sym (alloc_from-pass k lo s ne))
            (rw eh (pass-AllocEnd lo (lo + 1 + k) s _ ne (alloc_from-AllocEnd k (lo + 1) s)))
    ]

pub filealloc-AllocEnd : (s : Ftable) → AllocEnd 0 nfile s (filealloc s)
unfolding filealloc
filealloc-AllocEnd s = alloc_from-AllocEnd nfile 0 s
