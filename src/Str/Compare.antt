-- ===== src/Str/Compare.antt =====
-- `memcmp` and `strncmp`.
use mit6s.Base.{
  ℕ, zero, suc, ◌+◌, ◌≡◌, ◌↔◌, refl, sym, ap, ◌∙◌, arith, List, [], ◌∷◌, length, take, ◌==◌,
  if◌then◌else◌, ℤ, pos, sub_ℕ,
}
use mit6s.Str.{Memory, memcmp, strncmp}
use mit6s.Str.Text.{IsString}

-- The `n` bytes at `p`.
abbrev pub bytes : Memory → ℕ → ℕ → List ℕ
bytes m p zero = []
bytes m p (suc n) = m p ∷ bytes m (p + 1) n

-- The difference at the first place where two lists of bytes differ, or 0; a missing byte is 0.
abbrev pub difference : List ℕ → List ℕ → ℤ
difference [] [] = pos 0
difference [] (y ∷ ys) = sub_ℕ 0 y
difference (x ∷ xs) [] = sub_ℕ x 0
difference (x ∷ xs) (y ∷ ys) = if x == y then difference xs ys else sub_ℕ x y

memcmp-difference :
    (s1 s2 n : ℕ) (m : Memory) → memcmp s1 s2 n m ≡ difference (bytes m s1 n) (bytes m s2 n)
unfolding memcmp
memcmp-difference s1 s2 zero m = refl
memcmp-difference s1 s2 (suc n) m =
    ap (λ r. if m s1 == m s2 then r else sub_ℕ (m s1) (m s2))
      (memcmp-difference (s1 + 1) (s2 + 1) n m)

difference-zero : (xs ys : List ℕ) → length xs ≡ length ys → difference xs ys ≡ pos 0 → xs ≡ ys
difference-zero [] [] l h = refl
difference-zero [] (y ∷ ys) l h = absurd (omega arith)
difference-zero (x ∷ xs) [] l h = absurd (omega arith)
difference-zero (x ∷ xs) (y ∷ ys) l h = ground (arith, difference-zero xs ys)

difference_self : (xs : List ℕ) → difference xs xs ≡ pos 0
difference_self [] = refl
difference_self (x ∷ xs) = ground (arith, difference_self xs)

length-bytes : (m : Memory) (p n : ℕ) → length (bytes m p n) ≡ n
length-bytes m p zero = refl
length-bytes m p (suc n) = ap suc (length-bytes m (p + 1) n)

-- `memcmp` is the difference of the first two bytes that differ, and is 0 exactly when the `n`
-- bytes at the two places are the same.
pub memcmp_lem :
    (s1 s2 n : ℕ) (m : Memory)
    → (memcmp s1 s2 n m ≡ difference (bytes m s1 n) (bytes m s2 n))
      × ((memcmp s1 s2 n m ≡ pos 0) ↔ (bytes m s1 n ≡ bytes m s2 n))
memcmp_lem s1 s2 n m = (
  memcmp-difference s1 s2 n m,
  (
    λ h.
        difference-zero (bytes m s1 n) (bytes m s2 n)
          (length-bytes m s1 n ∙ sym (length-bytes m s2 n)) (sym (memcmp-difference s1 s2 n m) ∙ h),
    λ e.
        memcmp-difference s1 s2 n m
        ∙ ap (difference (bytes m s1 n)) (sym e)
        ∙ difference_self (bytes m s1 n),
  ),
)

strncmp-difference :
    (p q n : ℕ) (m : Memory) (xs ys : List ℕ)
    → IsString m p xs
    → IsString m q ys
    → strncmp p q n m ≡ difference (take n xs) (take n ys)
unfolding strncmp
strncmp-difference p q zero m xs ys hx hy = refl
strncmp-difference p q (suc n) m [] [] hx hy = ground arith
strncmp-difference p q (suc n) m [] (y ∷ ys) hx hy = ground arith
strncmp-difference p q (suc n) m (x ∷ xs) [] hx hy = ground arith
strncmp-difference p q (suc n) m (x ∷ xs) (y ∷ ys) hx hy =
    ground (arith, strncmp-difference (p + 1) (q + 1) n m xs ys hx.2 hy.2)

take-nonzero-eq :
    (n : ℕ) (m : Memory) (p q : ℕ) (xs ys : List ℕ)
    → IsString m p xs
    → IsString m q ys
    → difference (take n xs) (take n ys) ≡ pos 0
    → take n xs ≡ take n ys
take-nonzero-eq zero m p q xs ys hx hy h = refl
take-nonzero-eq (suc n) m p q [] [] hx hy h = refl
take-nonzero-eq (suc n) m p q [] (y ∷ ys) hx hy h = ground arith
take-nonzero-eq (suc n) m p q (x ∷ xs) [] hx hy h = ground arith
take-nonzero-eq (suc n) m p q (x ∷ xs) (y ∷ ys) hx hy h =
    ground (arith, take-nonzero-eq n m (p + 1) (q + 1) xs ys hx.2 hy.2)

-- On two C strings `strncmp` is the difference of the first two of their first `n` bytes that
-- differ, with the NUL counted as a byte, and is 0 exactly when the two agree up to `n` bytes.
strncmp_lem :
    (p q n : ℕ) (m : Memory) (xs ys : List ℕ)
    → IsString m p xs
    → IsString m q ys
    → (strncmp p q n m ≡ difference (take n xs) (take n ys))
      × ((strncmp p q n m ≡ pos 0) ↔ (take n xs ≡ take n ys))
strncmp_lem p q n m xs ys hx hy =
    let e = strncmp-difference p q n m xs ys hx hy in
    (
      e,
      (
        λ h. take-nonzero-eq n m p q xs ys hx hy (sym e ∙ h),
        λ t. e ∙ ap (difference (take n xs)) (sym t) ∙ difference_self (take n xs),
      ),
    )
