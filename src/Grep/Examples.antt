-- ===== src/Grep/Examples.antt =====
-- Patterns and texts: tests, and the theorem at work on them.
use mit6s.Base.{ℕ, ◌≡◌, ◌↔◌, refl, true, false, List, [], ◌∷◌}
use mit6s.Grep.{matchstar, matchhere, match_from, match}
use mit6s.Grep.Relation.{Matches}
use mit6s.Grep.Complete.{match-Matches}

-- `a*b$`
abbrev pattern : List ℕ
pattern = 97 ∷ 42 ∷ 98 ∷ 36 ∷ []

-- `xaab`, and `xaabc`
abbrev text : List ℕ
text = 120 ∷ 97 ∷ 97 ∷ 98 ∷ []

abbrev longer_text : List ℕ
longer_text = 120 ∷ 97 ∷ 97 ∷ 98 ∷ 99 ∷ []

accepts : match pattern text ≡ true
unfolding match match_from matchhere matchstar
accepts = refl

refuses : match pattern longer_text ≡ false
unfolding match match_from matchhere matchstar
refuses = refl

match-Matches_example : (match pattern text ≡ true) ↔ Matches pattern text
match-Matches_example = match-Matches pattern text
