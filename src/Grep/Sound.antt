-- ===== src/Grep/Sound.antt =====
-- What the matcher accepts, the pattern matches.
use mathlib.Core.Path.{subst}
use mit6s.Base.{
  ℕ, ◌≡◌, ◌⊎◌, inl, inr, refl, sym, ap, arith, Bool, true, false, ◌&&◌, ◌||◌, ◌==◌, ==_ne, List, [],
  ◌∷◌, ◌++◌, ℕ_discrete,
}
use mit6s.Grep.{at_end, matchstar, match_one, matchhere}
use mit6s.Grep.Relation.{Stands, AllStand, IsPlain, Here, empty, dollar, star, one}

-- A text that splits into bytes that `c` stands for and one that `here` accepts.
pub record Stretch (c : ℕ) (here : List ℕ → Bool) (text : List ℕ) : Type 0 where
  pub first : List ℕ
  pub rest : List ℕ
  pub whole : first ++ rest ≡ text
  pub stand : AllStand c first
  pub accepted : here rest ≡ true

pub or_cases : (a b : Bool) → (a || b) ≡ true → (a ≡ true) ⊎ (b ≡ true)
or_cases true b h = inl refl
or_cases false b h = inr h

and_both : (a b : Bool) → (a && b) ≡ true → (a ≡ true) × (b ≡ true)
and_both true b h = (refl, h)
and_both false b h = absurd (cc)

pub matchstar-Stretch :
    (c : ℕ) (here : List ℕ → Bool) (text : List ℕ)
    → matchstar c here text ≡ true
    → Stretch c here text
unfolding matchstar
matchstar-Stretch c here [] h = record {
  first = [];
  rest = [];
  whole = refl;
  stand = tt;
  accepted = h;
}
matchstar-Stretch c here (x ∷ text) h =
    elim (or_cases (here (x ∷ text)) ((x == c || c == 46) && matchstar c here text) h) [
      | inl a ↦ record { first = []; rest = x ∷ text; whole = refl; stand = tt; accepted = a }
      | inr b ↦
          let (s, m) = and_both (x == c || c == 46) (matchstar c here text) b in
          let r = matchstar-Stretch c here text m in
          record {
            first = x ∷ r.first;
            rest = r.rest;
            whole = ap (λ t. x ∷ t) (r.whole);
            stand = (star-Stands c x s, r.stand);
            accepted = r.accepted;
          }
    ]
  where
    star-Stands : (c x : ℕ) → (x == c || c == 46) ≡ true → Stands c x
    star-Stands c x s = elim (ℕ_discrete c 46) [ yes q ↦ inl q | no ne ↦ inr (ground arith) ]

one-Stands : (c x : ℕ) → (c == 46 || c == x) ≡ true → Stands c x
one-Stands c x s = elim (ℕ_discrete c 46) [ yes q ↦ inl q | no ne ↦ inr (ground arith) ]

match_one-Here :
    (c : ℕ) (re text : List ℕ)
    → IsPlain c re
    → ((t : List ℕ) → matchhere re t ≡ true → Here re t)
    → match_one c (matchhere re) text ≡ true
    → Here (c ∷ re) text
match_one-Here c re [] p ih h = absurd (cc)
match_one-Here c re (x ∷ text) p ih h =
    let (s, m) = and_both (c == 46 || c == x) (matchhere re text) h in
    one p (one-Stands c x s) (ih text m)

at_end-nil : (text : List ℕ) → at_end text ≡ true → text ≡ []
at_end-nil [] h = refl
at_end-nil (x ∷ text) h = absurd (cc)

pub matchhere-Here : (re text : List ℕ) → matchhere re text ≡ true → Here re text
unfolding matchhere
matchhere-Here [] text h = empty
matchhere-Here (c ∷ []) text h = elim (ℕ_discrete c 36) [
  | yes q ↦
      let e : (c == 36) ≡ true = ground arith in
      let z = at_end-nil text (rw e at h) in
      subst (λ t. Here (c ∷ []) t) (sym z) (subst (λ d. Here (d ∷ []) []) (sym q) dollar)
  | no ne ↦ match_one-Here c [] text ne (λ t m. empty) (rw (==_ne c 36 ne) at h)
]
matchhere-Here (c ∷ d ∷ re) text h = elim (ℕ_discrete d 42) [
  | yes q ↦
      let e : (d == 42) ≡ true = ground arith in
      let r = matchstar-Stretch c (matchhere re) text (rw e at h) in
      subst (λ t. Here (c ∷ d ∷ re) t) (r.whole)
        (subst (λ b. Here (c ∷ b ∷ re) (r.first ++ r.rest)) (sym q)
          (star (r.first) (r.rest) (r.stand) (matchhere-Here re (r.rest) (r.accepted))))
  | no ne ↦
      match_one-Here c (d ∷ re) text ne (λ t m. matchhere-Here (d ∷ re) t m)
        (rw (==_ne d 42 ne) at h)
]
