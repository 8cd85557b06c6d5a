-- ===== src/Str/Examples.antt =====
-- Runs of the string functions, and the theorems at concrete inputs.
use mit6s.Base.{ℕ, ◌≡◌, refl, arith, List, [], ◌∷◌, ◌==◌, if◌then◌else◌}
use mit6s.Str.{Memory, memmove}
use mit6s.Str.Move.{memmove_lem}
use mit6s.Str.Text.{IsString}
use mit6s.Str.Compare.{bytes}

-- "abc" at 10 and "abd" at 20.
abbrev memory : Memory
memory a =
    if a == 10
    then 97
    else if a == 11
    then 98
    else if a == 12
    then 99
    else if a == 20
    then 97
    else if a == 21
    then 98
    else if a == 22
    then 100
    else 0

abbrev abc : List ℕ
abc = 97 ∷ 98 ∷ 99 ∷ []

abbrev abd : List ℕ
abd = 97 ∷ 98 ∷ 100 ∷ []

abc-IsString : IsString memory 10 abc
abc-IsString = omega arith

abd-IsString : IsString memory 20 abd
abd-IsString = omega arith

overlap : bytes (memmove 11 10 3 memory) 10 4 ≡ 97 ∷ 97 ∷ 98 ∷ 99 ∷ []
unfolding memmove
overlap = refl

memmove_lem_example : memmove 11 10 3 memory 13 ≡ 99
memmove_lem_example = memmove_lem 11 10 3 memory 13
