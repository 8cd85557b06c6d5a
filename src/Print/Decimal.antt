-- ===== src/Print/Decimal.antt =====
-- The digits of `printint` read back: reading a numeral from the left undoes printing it.
use mit6s.Base.{
  ℕ, zero, suc, ◌+◌, ◌-◌, ◌*◌, ◌/◌, ◌%◌, ◌^◌, ◌≤◌, ◌<◌, ◌≡◌, ◌⊎◌, inl, inr, refl, sym, ap, ◌∙◌,
  arith, true, ◌&&◌, leb, ◌==◌, ==_ne, List, [], ◌∷◌, ◌++◌, append-nil, get_or, u32, ℕ_discrete,
  Bool-cases,
}
use mit6s.Print.Digits.{buf_digits, backwards}
use mit6s.Print.Kernel
use mit6s.Print.User.{atoi_from, atoi}

-- Reading a numeral byte by byte.
pub read_with : (ℕ → ℕ → ℕ) → ℕ → List ℕ → ℕ
read_with f n [] = n
read_with f n (c ∷ s) = read_with f (f n c) s

read_with-append :
    (f : ℕ → ℕ → ℕ) (n : ℕ) (xs ys : List ℕ)
    → read_with f n (xs ++ ys) ≡ read_with f (read_with f n xs) ys
unfolding read_with
read_with-append f n [] ys = refl
read_with-append f n (x ∷ xs) ys = read_with-append f (f n x) xs ys

-- The last digit of a number that has one is that of the number without it, and its own.
pub read_with-buf_digits :
    (f : ℕ → ℕ → ℕ) (digits : List ℕ) (base : ℕ)
    → ((x : ℕ) → x < 2 ^ 32 → f (x / base) (get_or digits (x % base) 0) ≡ x)
    → ((x : ℕ) → x / base ≤ x / 2)
    → (fuel x : ℕ) → x < 2 ^ 32
    → x < 2 ^ suc fuel
    → read_with f 0 (backwards (buf_digits (suc fuel) digits base x)) ≡ x
unfolding read_with backwards buf_digits
read_with-buf_digits f digits base step half zero x lt small =
    let z : x / base ≡ 0 = omega (arith, half x) in
    let e : (x / base == 0) ≡ true = ground arith in
    rw e (ap (λ n. f n (get_or digits (x % base) 0)) (sym z) ∙ step x lt)
read_with-buf_digits f digits base step half (suc fuel) x lt small =
    elim (ℕ_discrete (x / base) 0) [
      | yes z ↦
          let e : (x / base == 0) ≡ true = ground arith in
          rw e (ap (λ n. f n (get_or digits (x % base) 0)) (sym z) ∙ step x lt)
      | no ne ↦
          let d = get_or digits (x % base) 0 in
          let before = backwards (buf_digits (suc fuel) digits base (x / base)) in
          let ih : read_with f 0 before ≡ x / base =
            read_with-buf_digits f digits base step half fuel (x / base) (omega (arith, half x))
              (omega (arith, half x)) in
          rw (==_ne (x / base) 0 ne)
            (read_with-append f 0 before (d ∷ []) ∙ ap (λ n. f n d) ih ∙ step x lt)
    ]

-- The bytes of the digits 0 to 9, in each of the tables.
abbrev IsDigit : ℕ → Type 0
IsDigit c = (48 ≤ c) × (c < 58)

abbrev pub AllDigits : List ℕ → Type 0
AllDigits [] = Unit {0}
AllDigits (c ∷ s) = IsDigit c × AllDigits s

AllDigits-append : (xs ys : List ℕ) → AllDigits xs → AllDigits ys → AllDigits (xs ++ ys)
AllDigits-append [] ys a b = b
AllDigits-append (x ∷ xs) ys (c, a) b = (c, AllDigits-append xs ys a b)

decimal_digit : (k : ℕ) → k < 10 → get_or Kernel.digits k 0 ≡ 48 + k
decimal_digit zero h = refl
decimal_digit (suc zero) h = refl
decimal_digit (suc (suc zero)) h = refl
decimal_digit (suc (suc (suc zero))) h = refl
decimal_digit (suc (suc (suc (suc zero)))) h = refl
decimal_digit (suc (suc (suc (suc (suc zero))))) h = refl
decimal_digit (suc (suc (suc (suc (suc (suc zero)))))) h = refl
decimal_digit (suc (suc (suc (suc (suc (suc (suc zero))))))) h = refl
decimal_digit (suc (suc (suc (suc (suc (suc (suc (suc zero)))))))) h = refl
decimal_digit (suc (suc (suc (suc (suc (suc (suc (suc (suc zero))))))))) h = refl
decimal_digit (suc (suc (suc (suc (suc (suc (suc (suc (suc (suc k)))))))))) h = absurd (omega arith)

AllDigits-buf_digits : (fuel x : ℕ) → AllDigits (backwards (buf_digits fuel Kernel.digits 10 x))
unfolding backwards buf_digits
AllDigits-buf_digits zero x = tt
AllDigits-buf_digits (suc fuel) x =
    let d : IsDigit (get_or Kernel.digits (x % 10) 0) =
      (omega (arith, decimal_digit (x % 10)), omega (arith, decimal_digit (x % 10))) in
    elim (ℕ_discrete (x / 10) 0) [
      | yes z ↦ let e : (x / 10 == 0) ≡ true = ground arith in rw e (d, tt)
      | no ne ↦ rw (==_ne (x / 10) 0 ne) (
          AllDigits-append (backwards (buf_digits fuel Kernel.digits 10 (x / 10)))
            (get_or Kernel.digits (x % 10) 0 ∷ []) (AllDigits-buf_digits fuel (x / 10)) (d, tt))
    ]

-- What `atoi` does with a digit.
abbrev decimal_step : ℕ → ℕ → ℕ
decimal_step n c = u32 (n * 10 + c - 48)

atoi_from-read_with :
    (n : ℕ) (s : List ℕ) → AllDigits s → atoi_from n s ≡ read_with decimal_step n s
unfolding atoi_from read_with
atoi_from-read_with n [] a = refl
atoi_from-read_with n (c ∷ s) ((lo, hi), a) =
    let e : (leb 48 c && leb c 57) ≡ true = ground arith in
    rw e (atoi_from-read_with (decimal_step n c) s a)

atoi-digits : (x : ℕ) → x < 2 ^ 32 → atoi (backwards (buf_digits 32 Kernel.digits 10 x)) ≡ x
unfolding atoi
atoi-digits x lt =
    atoi_from-read_with 0 (backwards (buf_digits 32 Kernel.digits 10 x)) (AllDigits-buf_digits 32 x)
    ∙ read_with-buf_digits decimal_step Kernel.digits 10
        (λ y l. omega (arith, decimal_digit (y % 10) (omega arith))) (λ y. omega arith) 31 x lt lt

backwards-end : (xs : List ℕ) (b : ℕ) → backwards (xs ++ b ∷ []) ≡ b ∷ backwards xs
unfolding backwards
backwards-end [] b = refl
backwards-end (x ∷ xs) b = ap (λ s. s ++ x ∷ []) (backwards-end xs b)

-- Round trip: `printf("%d")` prints a number that is not negative so that `atoi` reads it back, and
-- a negative one as a minus sign before what `atoi` reads as its absolute value. The bit pattern of
-- the `int` is below 2 ^ 32.
pub printint-atoi :
    (xx : ℕ)
    → xx < 2 ^ 32
    → ((xx < 2 ^ 31) × (atoi (Kernel.printint xx 10 true) ≡ xx))
      ⊎ ((2 ^ 31 ≤ xx)
          × ((out : List ℕ) × (Kernel.printint xx 10 true ≡ 45 ∷ out) × (atoi out ≡ 2 ^ 32 - xx)))
unfolding mit6s.Print.Kernel.printint
printint-atoi xx lt = elim (Bool-cases (leb (2 ^ 31) xx)) [
  | inl e ↦
      let x = u32 (2 ^ 32 - xx) in
      let out = backwards (buf_digits 32 Kernel.digits 10 x) in
      inr (
        ground arith,
        (
          out,
          rw e (backwards-end (buf_digits 32 Kernel.digits 10 x) 45),
          atoi-digits x (omega arith) ∙ ground arith,
        ),
      )
  | inr e ↦ inl (
    ground arith,
    rw e (
        ap (λ s. atoi (backwards s)) (append-nil (buf_digits 32 Kernel.digits 10 xx))
        ∙ atoi-digits xx lt),
  )
]
