-- ===== src/Print/Kernel.antt =====
-- kernel/printf.c: `printint`, `printptr` and `printf`.
use mit6s.Base.{
  ℕ, ◌-◌, ◌^◌, Bool, true, ◌&&◌, Option, none, some, ◌==◌, leb, if◌then◌else◌, List, [], ◌∷◌, ◌++◌,
  u32,
}
use mit6s.Print.Digits.{
  Arg, buf_digits, backwards, ptr_digits, next_word, next_str, put_front, and_then,
}

-- `0123456789abcdef`
abbrev pub digits : List ℕ
digits = 48 ∷ 49 ∷ 50 ∷ 51 ∷ 52 ∷ 53 ∷ 54 ∷ 55 ∷ 56 ∷ 57 ∷ 97 ∷ 98 ∷ 99 ∷ 100 ∷ 101 ∷ 102 ∷ []

-- `printint(xx, base, sign)`: `xx` is the bit pattern of the `int`. A word of 32 bits has at most
-- 32 digits.
unfoldable pub printint : ℕ → ℕ → Bool → List ℕ
printint xx base sign =
    let neg = sign && leb (2 ^ 31) xx in
    let x = if neg then u32 (2 ^ 32 - xx) else xx in
    backwards (buf_digits 32 digits base x ++ (if neg then 45 ∷ [] else []))

-- `printptr(x)`
unfoldable pub printptr : ℕ → List ℕ
printptr x = 48 ∷ 120 ∷ ptr_digits 16 digits x

-- The `switch` of `printf`: what is printed for `%c`, and the arguments left.
unfoldable pub directive : ℕ → List Arg → Option (List ℕ × List Arg)
directive c args =
    if c == 100
    then next_word (λ w. printint (u32 w) 10 true) args
    else if c == 120
    then next_word (λ w. printint (u32 w) 16 true) args
    else if c == 112
    then next_word printptr args
    else if c == 115
    then next_str args
    else if c == 37
    then some (37 ∷ [], args)
    else some (37 ∷ c ∷ [], args)

-- The loop of `printf` over the rest of the format.
unfoldable pub printf_from : List ℕ → List Arg → Option (List ℕ)
printf_from [] args = some []
printf_from (c ∷ []) args = if c == 37 then some [] else some (c ∷ [])
printf_from (c ∷ d ∷ fmt) args =
    let plain = put_front (c ∷ []) (printf_from (d ∷ fmt) args) in
    if c == 37 then and_then (directive d args) (printf_from fmt) else plain

-- `printf(fmt, ...)`; none is also the panic on a null format.
unfoldable pub printf : Option (List ℕ) → List Arg → Option (List ℕ)
printf none args = none
printf (some fmt) args = printf_from fmt args
