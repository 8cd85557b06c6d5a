-- ===== src/Print/User.antt =====
-- user/printf.c: `printint`, `printptr`, `vprintf` and `printf`, and `atoi` of user/ulib.c.
use mit6s.Base.{
  ℕ, ◌+◌, ◌-◌, ◌*◌, ◌%◌, ◌^◌, Bool, true, false, ◌&&◌, Option, some, ◌==◌, leb, if◌then◌else◌, List,
  [], ◌∷◌, ◌++◌, u32,
}
use mit6s.Print.Digits.{
  Arg, buf_digits, backwards, ptr_digits, next_word, next_str, put_front, and_then,
}

-- `0123456789ABCDEF`
abbrev pub digits : List ℕ
digits = 48 ∷ 49 ∷ 50 ∷ 51 ∷ 52 ∷ 53 ∷ 54 ∷ 55 ∷ 56 ∷ 57 ∷ 65 ∷ 66 ∷ 67 ∷ 68 ∷ 69 ∷ 70 ∷ []

-- `printint(fd, xx, base, sgn)`
unfoldable pub printint : ℕ → ℕ → Bool → List ℕ
printint xx base sgn =
    let neg = sgn && leb (2 ^ 31) xx in
    let x = if neg then u32 (2 ^ 32 - xx) else xx in
    backwards (buf_digits 32 digits base x ++ (if neg then 45 ∷ [] else []))

-- `printptr(fd, x)`
unfoldable pub printptr : ℕ → List ℕ
printptr x = 48 ∷ 120 ∷ ptr_digits 16 digits x

-- What `vprintf` prints for the byte `c` in the state `'%'`, and the arguments left.
unfoldable pub directive : ℕ → List Arg → Option (List ℕ × List Arg)
directive c args =
    if c == 100
    then next_word (λ w. printint (u32 w) 10 true) args
    else if c == 108
    then next_word (λ w. printint (u32 w) 10 false) args
    else if c == 120
    then next_word (λ w. printint (u32 w) 16 false) args
    else if c == 112
    then next_word printptr args
    else if c == 115
    then next_str args
    else if c == 99
    then next_word (λ w. u32 w % 256 ∷ []) args
    else if c == 37
    then some (37 ∷ [], args)
    else some (37 ∷ c ∷ [], args)

-- The loop of `vprintf`; the state is whether a `%` has just been read.
unfoldable pub vprintf_from : Bool → List ℕ → List Arg → Option (List ℕ)
vprintf_from state [] args = some []
vprintf_from false (c ∷ fmt) args =
    let next = vprintf_from true fmt args in
    let plain = put_front (c ∷ []) (vprintf_from false fmt args) in if c == 37 then next else plain
vprintf_from true (c ∷ fmt) args = and_then (directive c args) (vprintf_from false fmt)

-- `vprintf(fd, fmt, ap)`
unfoldable pub vprintf : List ℕ → List Arg → Option (List ℕ)
vprintf fmt args = vprintf_from false fmt args

-- The loop of `atoi`, with the `int` as its bit pattern.
unfoldable pub atoi_from : ℕ → List ℕ → ℕ
atoi_from n [] = n
atoi_from n (c ∷ s) =
    let rest = atoi_from (u32 (n * 10 + c - 48)) s in if leb 48 c && leb c 57 then rest else n

-- `atoi(s)`
unfoldable pub atoi : List ℕ → ℕ
atoi s = atoi_from 0 s
