-- ===== src/Print/Digits.antt =====
-- What the two printf.c have in common: the digits that `printint` collects, and the arguments.
use mit6s.Base.{
  ℕ, zero, suc, ◌*◌, ◌/◌, ◌%◌, ◌^◌, Option, none, some, ◌==◌, if◌then◌else◌, List, [], ◌∷◌, ◌++◌,
  get_or, u64,
}

-- A variable argument: a word, or a pointer to a string, none for the null pointer.
pub data Arg : Type 0 where
  word : ℕ → Arg
  str : Option (List ℕ) → Arg

-- The loop `do { buf[i++] = digits[x % base]; } while((x /= base) != 0)`: the bytes of `buf`.
unfoldable pub buf_digits : ℕ → List ℕ → ℕ → ℕ → List ℕ
buf_digits zero digits base x = []
buf_digits (suc fuel) digits base x =
    let rest = buf_digits fuel digits base (x / base) in
    get_or digits (x % base) 0 ∷ (if x / base == 0 then [] else rest)

-- The loop `while(--i >= 0) putc(buf[i])`.
unfoldable pub backwards : List ℕ → List ℕ
backwards [] = []
backwards (b ∷ bs) = backwards bs ++ b ∷ []

-- The loop of `printptr` for the `n` digits left.
unfoldable pub ptr_digits : ℕ → List ℕ → ℕ → List ℕ
ptr_digits zero digits x = []
ptr_digits (suc n) digits x = get_or digits (x / 2 ^ 60) 0 ∷ ptr_digits n digits (u64 (x * 2 ^ 4))

-- `(null)`
abbrev pub null_text : List ℕ
null_text = 40 ∷ 110 ∷ 117 ∷ 108 ∷ 108 ∷ 41 ∷ []

abbrev pub text_of : Option (List ℕ) → List ℕ
text_of none = null_text
text_of (some s) = s

-- The next argument as a word, and as a string. None is an argument that is missing or of another
-- type, where C promises nothing.
abbrev pub next_word : (ℕ → List ℕ) → List Arg → Option (List ℕ × List Arg)
next_word f (word w ∷ args) = some (f w, args)
next_word f _ = none

abbrev pub next_str : List Arg → Option (List ℕ × List Arg)
next_str (str s ∷ args) = some (text_of s, args)
next_str _ = none

-- What has been printed, and behind it what the rest of the format prints.
abbrev pub put_front : List ℕ → Option (List ℕ) → Option (List ℕ)
put_front xs none = none
put_front xs (some ys) = some (xs ++ ys)

abbrev pub and_then : Option (List ℕ × List Arg) → (List Arg → Option (List ℕ)) → Option (List ℕ)
and_then none rest = none
and_then (some (xs, args)) rest = put_front xs (rest args)
