-- ===== src/Grep/Relation.antt =====
-- What a pattern means: which texts it matches.
use mit6s.Base.{ℕ, ◌≡◌, ◌≢◌, ◌⊎◌, List, [], ◌∷◌, ◌++◌}

-- The pattern byte `c` stands for the byte `x`: `.` for any.
abbrev pub Stands : ℕ → ℕ → Type 0
Stands c x = (c ≡ 46) ⊎ (c ≡ x)

-- Every byte of the text is one that `c` stands for.
abbrev pub AllStand : ℕ → List ℕ → Type 0
AllStand c [] = Unit {0}
AllStand c (x ∷ text) = Stands c x × AllStand c text

-- The pattern does not go on with a star, and is not a `$` at the end.
abbrev pub IsPlain : ℕ → List ℕ → Type 0
IsPlain c [] = c ≢ 36
IsPlain c (d ∷ re) = d ≢ 42

-- The pattern matches at the start of the text.
pub data Here : List ℕ → List ℕ → Type 0 where
  empty : {text : List ℕ} → Here [] text
  dollar : Here (36 ∷ []) []
  star :
      {c : ℕ} {re : List ℕ} (xs text : List ℕ)
      → AllStand c xs
      → Here re text
      → Here (c ∷ 42 ∷ re) (xs ++ text)
  one :
      {c x : ℕ} {re text : List ℕ}
      → IsPlain c re
      → Stands c x
      → Here re text
      → Here (c ∷ re) (x ∷ text)

-- The pattern matches somewhere in the text.
pub data Somewhere (re : List ℕ) : List ℕ → Type 0 where
  behind : (xs text : List ℕ) → Here re text → Somewhere re (xs ++ text)

-- The pattern matches the text, at its start if it begins with `^`.
pub data Matches : List ℕ → List ℕ → Type 0 where
  caret : {re text : List ℕ} → Here re text → Matches (94 ∷ re) text
  anywhere_empty : {text : List ℕ} → Matches [] text
  anywhere : {c : ℕ} {re text : List ℕ} → c ≢ 94 → Somewhere (c ∷ re) text → Matches (c ∷ re) text
