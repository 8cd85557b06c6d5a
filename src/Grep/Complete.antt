-- ===== src/Grep/Complete.antt =====
-- What the pattern matches, the matcher accepts; and the two together.
use mathlib.Core.Path.{subst}
use mit6s.Base.{
  ℕ, ◌≡◌, ◌↔◌, inl, inr, refl, sym, arith, Bool, true, ◌||◌, ◌==◌, ==_ne, List, [], ◌∷◌, ◌++◌,
  ℕ_discrete, Bool-cases,
}
use mit6s.Grep.{matchstar, match_one, matchhere, match_from, match}
use mit6s.Grep.Relation.{
  Stands, AllStand, Here, empty, dollar, star, one, Somewhere, behind, Matches, caret,
  anywhere_empty, anywhere,
}
use mit6s.Grep.Sound.{matchhere-Here, or_cases}

matchstar_all :
    (c : ℕ) (here : List ℕ → Bool) (xs text : List ℕ)
    → AllStand c xs
    → here text ≡ true
    → matchstar c here (xs ++ text) ≡ true
unfolding matchstar
matchstar_all c here [] [] s h = h
matchstar_all c here [] (x ∷ text) s h = rw h refl
matchstar_all c here (x ∷ xs) text (s, ss) h =
    let e : (x == c || c == 46) ≡ true = elim s [ inl q ↦ ground arith | inr q ↦ ground arith ] in
    let r = matchstar_all c here xs text ss h in
    elim (Bool-cases (here (x ∷ xs ++ text))) [ inl a ↦ rw a refl | inr a ↦ rw (a, e, r) refl ]

match_one-true :
    (c x : ℕ) (rest : List ℕ → Bool) (text : List ℕ)
    → Stands c x
    → rest text ≡ true
    → match_one c rest (x ∷ text) ≡ true
match_one-true c x rest text s h =
    let e : (c == 46 || c == x) ≡ true = elim s [ inl q ↦ ground arith | inr q ↦ ground arith ] in
    rw (e, h) refl

Here-matchhere : {re text : List ℕ} → Here re text → matchhere re text ≡ true
unfolding matchhere
Here-matchhere empty = refl
Here-matchhere dollar = refl
Here-matchhere {re = c ∷ _ ∷ re} (star xs text s h) =
    matchstar_all c (matchhere re) xs text s (Here-matchhere h)
Here-matchhere {re = c ∷ []} {text = x ∷ text} (one p s h) =
    rw (==_ne c 36 p) (match_one-true c x (matchhere []) text s refl)
Here-matchhere {re = c ∷ d ∷ re} {text = x ∷ text} (one p s h) =
    rw (==_ne d 42 p) (match_one-true c x (matchhere (d ∷ re)) text s (Here-matchhere h))

match_from-Somewhere :
    (re text : List ℕ) → match_from (matchhere re) text ≡ true → Somewhere re text
unfolding match_from
match_from-Somewhere re [] h = behind [] [] (matchhere-Here re [] h)
match_from-Somewhere re (x ∷ text) h =
    elim (or_cases (matchhere re (x ∷ text)) (match_from (matchhere re) text) h) [
      | inl a ↦ behind [] (x ∷ text) (matchhere-Here re (x ∷ text) a)
      | inr b ↦ later (match_from-Somewhere re text b)
    ]
  where
    later : {t : List ℕ} → Somewhere re t → Somewhere re (x ∷ t)
    later (behind xs t h) = behind (x ∷ xs) t h

match_from-behind :
    (here : List ℕ → Bool) (xs text : List ℕ)
    → here text ≡ true
    → match_from here (xs ++ text) ≡ true
unfolding match_from
match_from-behind here [] [] h = h
match_from-behind here [] (x ∷ text) h = rw h refl
match_from-behind here (x ∷ xs) text h = elim (Bool-cases (here (x ∷ xs ++ text))) [
  | inl a ↦ rw a refl
  | inr a ↦ rw (a, match_from-behind here xs text h) refl
]

Somewhere-match_from :
    {re text : List ℕ} → Somewhere re text → match_from (matchhere re) text ≡ true
Somewhere-match_from {re} (behind xs text h) =
    match_from-behind (matchhere re) xs text (Here-matchhere h)

Matches-match : {re text : List ℕ} → Matches re text → match re text ≡ true
unfolding match
Matches-match (caret h) = Here-matchhere h
Matches-match {text = text} anywhere_empty = Somewhere-match_from (behind [] text empty)
Matches-match {re = c ∷ re} (anywhere ne s) = rw (==_ne c 94 ne) (Somewhere-match_from s)

match-true : (re text : List ℕ) → match re text ≡ true → Matches re text
unfolding match
match-true [] text h = anywhere_empty
match-true (c ∷ re) text h = elim (ℕ_discrete c 94) [
  | yes q ↦
      let e : (c == 94) ≡ true = ground arith in
      subst (λ b. Matches (b ∷ re) text) (sym q) (caret (matchhere-Here re text (rw e at h)))
  | no ne ↦ anywhere ne (match_from-Somewhere (c ∷ re) text (rw (==_ne c 94 ne) at h))
]

-- `match` accepts a text exactly if the pattern, read as a regular expression with `^`, `.`, `*` and
-- `$`, matches it. It always returns.
pub match-Matches : (re text : List ℕ) → (match re text ≡ true) ↔ Matches re text
match-Matches re text = (match-true re text, Matches-match)
