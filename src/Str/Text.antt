-- ===== src/Str/Text.antt =====
-- C strings in a memory, and `strlen`.
use mit6s.Base.{ℕ, zero, suc, ◌+◌, ◌<◌, ◌≡◌, ◌≢◌, ap, ◌∙◌, arith, List, [], ◌∷◌, some, length}
use mit6s.Str.{Memory, strlen_from, strlen}

-- The bytes `xs`, none of them NUL, stand at `p` with a NUL behind them.
abbrev pub IsString : Memory → ℕ → List ℕ → Type 0
IsString m p [] = m p ≡ 0
IsString m p (x ∷ xs) = (m p ≡ x) × (x ≢ 0) × IsString m (p + 1) xs

strlen_from-length :
    (f s n : ℕ) (m : Memory) (xs : List ℕ)
    → IsString m (s + n) xs
    → length xs < f
    → strlen_from f s n m ≡ some (n + length xs)
unfolding strlen_from
strlen_from-length zero s n m xs h l = absurd (omega arith)
strlen_from-length (suc f) s n m [] h l = ground arith
strlen_from-length (suc f) s n m (x ∷ xs) (e, ne, h) l =
    let h' : IsString m (s + (n + 1)) xs =
      let e' : s + (n + 1) ≡ s + n + 1 = omega arith in rw e' h in
    ground (arith, strlen_from-length f s (n + 1) m xs h')

-- Given more fuel than the string has bytes, `strlen` ends and counts them.
pub strlen-length :
    (fuel s : ℕ) (m : Memory) (xs : List ℕ)
    → IsString m s xs
    → length xs < fuel
    → strlen fuel s m ≡ some (length xs)
unfolding strlen
strlen-length fuel s m xs h l =
    let h' : IsString m (s + 0) xs = let e : s + 0 ≡ s = omega arith in rw e h in
    strlen_from-length fuel s 0 m xs h' l ∙ ap some (omega arith)
