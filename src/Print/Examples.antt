-- ===== src/Print/Examples.antt =====
-- Numbers and formats printed: tests, and the theorems at work on them.
use mit6s.Base.{
  ℕ, ◌-◌, ◌^◌, ◌≤◌, ◌<◌, ◌≡◌, ◌⊎◌, inl, inr, refl, arith, true, some, List, [], ◌∷◌, length,
}
use mit6s.Print.Digits.{Arg, word, str, buf_digits, backwards, ptr_digits}
use mit6s.Print.Kernel
use mit6s.Print.User
use mit6s.Print.User.{atoi}
use mit6s.Print.Decimal.{printint-atoi}
use mit6s.Print.Agree.{printf-vprintf}
use mit6s.Print.Bounds.{length-printint}

minus_twelve : Kernel.printint (2 ^ 32 - 12) 10 true ≡ 45 ∷ 49 ∷ 50 ∷ []
unfolding mit6s.Print.Kernel.printint buf_digits backwards
minus_twelve = refl

-- `0x00000000deadbeef`
pointer :
    Kernel.printptr 3735928559
    ≡ 48 ∷ 120 ∷ 48 ∷ 48 ∷ 48 ∷ 48 ∷ 48 ∷ 48 ∷ 48 ∷ 48 ∷ 100 ∷ 101 ∷ 97 ∷ 100 ∷ 98 ∷ 101 ∷ 101 ∷ 102
      ∷ []
unfolding mit6s.Print.Kernel.printptr ptr_digits
pointer = refl

printint-atoi_example :
    ((42 < 2 ^ 31) × (atoi (Kernel.printint 42 10 true) ≡ 42))
    ⊎ ((2 ^ 31 ≤ 42)
        × ((out : List ℕ) × (Kernel.printint 42 10 true ≡ 45 ∷ out) × (atoi out ≡ 2 ^ 32 - 42)))
printint-atoi_example = printint-atoi 42 (omega arith)

-- `%d: %s`
abbrev format : List ℕ
format = 37 ∷ 100 ∷ 58 ∷ 32 ∷ 37 ∷ 115 ∷ []

abbrev two_args : List Arg
two_args = word 7 ∷ str (some (104 ∷ 105 ∷ [])) ∷ []

prints : User.vprintf format two_args ≡ some (55 ∷ 58 ∷ 32 ∷ 104 ∷ 105 ∷ [])
unfolding mit6s.Print.User.vprintf mit6s.Print.User.vprintf_from mit6s.Print.User.directive
    mit6s.Print.User.printint buf_digits backwards
prints = refl

printf-vprintf_example : Kernel.printf (some format) two_args ≡ User.vprintf format two_args
printf-vprintf_example = printf-vprintf format two_args (
    inl (
      refl,
      (λ q. omega arith, λ q. omega arith, λ q. omega arith, λ q. omega arith),
      inr (
        (λ q. omega arith),
        inr (
          (λ q. omega arith),
          inl (refl, (λ q. omega arith, λ q. omega arith, λ q. omega arith, λ q. omega arith), tt),
        ),
      ),
    ))

length-printint_example :
    (length (Kernel.printint (2 ^ 31) 10 true) ≤ 11)
    × (length (User.printint (2 ^ 31) 10 true) ≤ 11)
length-printint_example = length-printint (2 ^ 31) 10 true (omega arith) (inl refl)
