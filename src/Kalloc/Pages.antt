-- ===== src/Kalloc/Pages.antt =====
-- The free list as a list of pages, which `kfree` and `kalloc` keep well formed.
use mathlib.Core.Path.{subst}
use mit6s.Base.{ℕ, ◌+◌, ◌%◌, ◌≤◌, ◌<◌, ◌≡◌, ◌≢◌, ap, sym, arith, Bool, true, false, List, [], ◌∷◌}
use mit6s.Kalloc.{page_size, phys_stop}

abbrev pub NotIn : ℕ → List ℕ → Type 0
NotIn x [] = Unit {0}
NotIn x (y ∷ ys) = (x ≢ y) × NotIn x ys

module _ (end : ℕ) where
  -- A page that the allocator manages.
  abbrev pub Page : ℕ → Type 0
  Page x = (0 < x) × (x % page_size ≡ 0) × (end ≤ x) × (x < phys_stop)

  -- The free list from `head` on is `xs`: pages, none twice, none of which is in use.
  abbrev pub Listed : (ℕ → Bool) → (ℕ → ℕ) → ℕ → List ℕ → Type 0
  Listed own m head [] = head ≡ 0
  Listed own m head (x ∷ xs) =
      (head ≡ x) × Page x × (own x ≡ false) × NotIn x xs × Listed own m (m x) xs

  pub Listed-change :
      (own own' : ℕ → Bool) (m m' : ℕ → ℕ) (p head : ℕ) (xs : List ℕ)
      → ((x : ℕ) → Page x → own x ≡ false → p ≢ x → (m' x ≡ m x) × (own' x ≡ false))
      → NotIn p xs
      → Listed own m head xs
      → Listed own' m' head xs
  Listed-change own own' m m' p head [] same far l = l
  Listed-change own own' m m' p head (x ∷ xs) same far (e, pg, free, once, rest) =
      let (em, eo) = same x pg free far.0 in
      (
        e,
        pg,
        eo,
        once,
        subst (λ h. Listed own' m' h xs) (sym em)
            (Listed-change own own' m m' p (m x) xs same far.1 rest),
      )

  pub owned-NotIn :
      (own : ℕ → Bool) (m : ℕ → ℕ) (p head : ℕ) (xs : List ℕ)
      → own p ≡ true
      → Listed own m head xs
      → NotIn p xs
  owned-NotIn own m p head [] o l = tt
  owned-NotIn own m p head (x ∷ xs) o (e, pg, free, once, rest) =
      (λ q. cc (ap own q, o, free), owned-NotIn own m p (m x) xs o rest)

-- Two pages do not overlap.
pub page_apart :
    (p x a : ℕ) → p % page_size ≡ 0 → x % page_size ≡ 0 → p ≢ x → p ≤ a → a < p + page_size → x ≢ a
page_apart p x a ep ex ne lo hi e = omega arith
