-- ===== src/Base/Word.antt =====
-- C's unsigned machine integers, as native numbers with the wrap-around written out, and arrays
-- or memories as functions of the index.
use Prim.Native.Nat.{ℕ, ◌%◌, ◌^◌}
use mathlib.Core.Path.{◌≡◌}
use mathlib.Core.Logic.{◌≢◌}
use mit6s.Base.Tests.{◌==◌, ==_refl, ==_ne, if◌then◌else◌}

-- A value of type `uint`.
abbrev pub u32 : ℕ → ℕ
u32 n = n % 2 ^ 32

-- A value of type `uint64`.
abbrev pub u64 : ℕ → ℕ
u64 n = n % 2 ^ 64

-- `a[i] = v`, for a memory that is a function of the index.
abbrev pub update {ℓ} : {A : Type ℓ} → (ℕ → A) → ℕ → A → ℕ → A
update f i v j = if i == j then v else f j

pub update_self {ℓ} : {A : Type ℓ} (f : ℕ → A) (i : ℕ) (v : A) → update f i v i ≡ v
update_self f i v = rw (==_refl i)

pub update_ne {ℓ} : {A : Type ℓ} (f : ℕ → A) (i : ℕ) (v : A) (j : ℕ) → i ≢ j → update f i v j ≡ f j
update_ne f i v j h = rw (==_ne i j h)
