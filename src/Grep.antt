-- ===== src/Grep.antt =====
-- user/grep.c: the matcher `match`, `matchhere` and `matchstar`. A C string is the list of the bytes
-- before its null. The three functions call each other; as every call of `matchhere` by
-- `matchstar` is for one pattern, `matchstar` takes that call as an argument.
pub mod Relation
pub mod Sound
pub mod Complete
mod Examples
use mit6s.Base.{ℕ, Bool, true, false, ◌&&◌, ◌||◌, ◌==◌, if◌then◌else◌, List, [], ◌∷◌}

-- `*text == '\0'`
abbrev pub at_end : List ℕ → Bool
at_end [] = true
at_end (x ∷ text) = false

-- `matchstar(c, re, text)`, with `here` for `matchhere(re, text)`.
unfoldable pub matchstar : ℕ → (List ℕ → Bool) → List ℕ → Bool
matchstar c here [] = here []
matchstar c here (x ∷ text) = here (x ∷ text) || ((x == c || c == 46) && matchstar c here text)

-- The last test of `matchhere`, with `rest` for `matchhere(re+1, text)`.
abbrev pub match_one : ℕ → (List ℕ → Bool) → List ℕ → Bool
match_one c rest [] = false
match_one c rest (x ∷ text) = (c == 46 || c == x) && rest text

-- `matchhere(re, text)`
unfoldable pub matchhere : List ℕ → List ℕ → Bool
matchhere [] text = true
matchhere (c ∷ []) text = if c == 36 then at_end text else match_one c (matchhere []) text
matchhere (c ∷ d ∷ re) text =
    let star = matchstar c (matchhere re) text in
    let one = match_one c (matchhere (d ∷ re)) text in if d == 42 then star else one

-- The loop of `match`, with `here` for `matchhere(re, text)`.
unfoldable pub match_from : (List ℕ → Bool) → List ℕ → Bool
match_from here [] = here []
match_from here (x ∷ text) = here (x ∷ text) || match_from here text

-- `match(re, text)`
unfoldable pub match : List ℕ → List ℕ → Bool
match [] text = match_from (matchhere []) text
match (c ∷ re) text = if c == 94 then matchhere re text else match_from (matchhere (c ∷ re)) text
