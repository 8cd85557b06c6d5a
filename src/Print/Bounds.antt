-- ===== src/Print/Bounds.antt =====
-- `printint` stays inside of `char buf[16]`.
use mit6s.Base.{
  ℕ, zero, suc, ◌-◌, ◌/◌, ◌^◌, ◌≤◌, ◌<◌, ◌≡◌, ◌⊎◌, inl, inr, refl, arith, Bool, true, false, ◌&&◌,
  leb, ◌==◌, if◌then◌else◌, List, [], ◌∷◌, ◌++◌, length, length-append, u32, Bool-cases,
}
use mit6s.Print.Digits.{buf_digits, backwards}
use mit6s.Print.Kernel
use mit6s.Print.User

length-backwards : (xs : List ℕ) → length (backwards xs) ≡ length xs
unfolding backwards
length-backwards [] = refl
length-backwards (x ∷ xs) =
    omega (arith, length-append (backwards xs) (x ∷ []), length-backwards xs)

-- A number below 10 ^ k has at most k digits, and one below 16 ^ k in base 16.
decimal_length :
    (fuel k x : ℕ) (digits : List ℕ) → x < 10 ^ suc k → length (buf_digits fuel digits 10 x) ≤ suc k
unfolding buf_digits
decimal_length zero k x digits lt = omega arith
decimal_length (suc fuel) zero x digits lt =
    let e : (x / 10 == 0) ≡ true = ground arith in rw e (omega arith)
decimal_length (suc fuel) (suc k) x digits lt = elim (Bool-cases (x / 10 == 0)) [
  | inl e ↦ rw e (omega arith)
  | inr e ↦ rw e (omega (arith, decimal_length fuel k (x / 10) digits (omega arith)))
]

hex_length :
    (fuel k x : ℕ) (digits : List ℕ) → x < 16 ^ suc k → length (buf_digits fuel digits 16 x) ≤ suc k
unfolding buf_digits
hex_length zero k x digits lt = omega arith
hex_length (suc fuel) zero x digits lt =
    let e : (x / 16 == 0) ≡ true = ground arith in rw e (omega arith)
hex_length (suc fuel) (suc k) x digits lt = elim (Bool-cases (x / 16 == 0)) [
  | inl e ↦ rw e (omega arith)
  | inr e ↦ rw e (omega (arith, hex_length fuel k (x / 16) digits (omega arith)))
]

digits_length :
    (base x : ℕ) (digits : List ℕ)
    → (base ≡ 10) ⊎ (base ≡ 16)
    → x < 2 ^ 32
    → length (buf_digits 32 digits base x) ≤ 10
digits_length base x digits (inl e) lt = rw e (decimal_length 32 9 x digits (omega arith))
digits_length base x digits (inr e) lt =
    rw e (omega (arith, hex_length 32 7 x digits (omega arith)))

signed_length :
    (base x : ℕ) (digits : List ℕ) (neg : Bool)
    → (base ≡ 10) ⊎ (base ≡ 16)
    → x < 2 ^ 32
    → length (backwards (buf_digits 32 digits base x ++ (if neg then 45 ∷ [] else []))) ≤ 11
signed_length base x digits true b lt = omega (
  arith,
  length-backwards (buf_digits 32 digits base x ++ 45 ∷ []),
  length-append (buf_digits 32 digits base x) (45 ∷ []),
  digits_length base x digits b lt,
)
signed_length base x digits false b lt = omega (
  arith,
  length-backwards (buf_digits 32 digits base x ++ []),
  length-append (buf_digits 32 digits base x) [],
  digits_length base x digits b lt,
)

abs_lt : (xx : ℕ) (neg : Bool) → xx < 2 ^ 32 → (if neg then u32 (2 ^ 32 - xx) else xx) < 2 ^ 32
abs_lt xx true lt = omega arith
abs_lt xx false lt = lt

-- In the bases that the kernel and the user library print in, `printint` uses at most 11 of the 16
-- bytes of `buf`, whatever the `int` is.
pub length-printint :
    (xx base : ℕ) (sign : Bool)
    → xx < 2 ^ 32
    → (base ≡ 10) ⊎ (base ≡ 16)
    → (length (Kernel.printint xx base sign) ≤ 11) × (length (User.printint xx base sign) ≤ 11)
unfolding mit6s.Print.Kernel.printint mit6s.Print.User.printint
length-printint xx base sign lt b =
    let neg = sign && leb (2 ^ 31) xx in
    let x = if neg then u32 (2 ^ 32 - xx) else xx in
    (
      signed_length base x Kernel.digits neg b (abs_lt xx neg lt),
      signed_length base x User.digits neg b (abs_lt xx neg lt),
    )
