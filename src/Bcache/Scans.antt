-- ===== src/Bcache/Scans.antt =====
-- The loops of `bget` and the list that they run through.
use mit6s.Base.{
  ℕ, zero, suc, ◌<◌, ◌≡◌, ◌≢◌, ◌⊎◌, inl, inr, refl, sym, ap, ◌∙◌, arith, Bool, true, false, Option,
  none, some, some_inj, ◌==◌, if◌then◌else◌, List, [], ◌∷◌, ◌++◌, length, length-append, Bool-cases,
}
use mit6s.Bcache.{head, scan}
use mit6s.Bcache.Links.{NotIn, In, Linked, reverse}

-- The first buffer of the list that passes the test.
abbrev pub first : (ℕ → Bool) → List ℕ → Option ℕ
first test [] = none
first test (x ∷ xs) = if test x then some x else first test xs

pub scan-first :
    (fuel : ℕ) (test : ℕ → Bool) (n p : ℕ → ℕ) (a : ℕ) (xs : List ℕ)
    → length xs < fuel
    → NotIn head xs
    → Linked n p a xs head
    → scan fuel test n (n a) ≡ first test xs
unfolding scan
scan-first zero test n p a xs f h l = absurd (omega arith)
scan-first (suc fuel) test n p a [] f h (l, r) =
    let e : (n a == head) ≡ true = ground arith in rw e refl
scan-first (suc fuel) test n p a (x ∷ xs) f (ne, h) (l, r, rest) =
    let e : (n a == head) ≡ false = ground arith in
    let ih = scan-first fuel test n p x xs (omega arith) h rest in
    rw (e, l) (ap (λ o. if test x then some x else o) ih)

-- What the answer of `first` says.
pub first-none :
    (test : ℕ → Bool) (xs : List ℕ) → first test xs ≡ none → (i : ℕ) → In i xs → test i ≡ false
first-none test [] e i m = absurd m
first-none test (x ∷ xs) e i m = elim (Bool-cases (test x)) [
  | inl t ↦ absurd (cc (rw t at e))
  | inr f ↦ elim m [ inl q ↦ ap test q ∙ f | inr m' ↦ first-none test xs (rw f at e) i m' ]
]

pub first-some :
    (test : ℕ → Bool) (xs : List ℕ) (b : ℕ) → first test xs ≡ some b → (test b ≡ true) × In b xs
first-some test [] b e = absurd (cc e)
first-some test (x ∷ xs) b e = elim (Bool-cases (test x)) [
  | inl t ↦ let q : x ≡ b = some_inj (rw t at e) in (ap test (sym q) ∙ t, inl (sym q))
  | inr f ↦ let (t, m) = first-some test xs b (rw f at e) in (t, inr m)
]

pub length-reverse : (xs : List ℕ) → length (reverse xs) ≡ length xs
unfolding reverse
length-reverse [] = refl
length-reverse (x ∷ xs) = omega (arith, length-append (reverse xs) (x ∷ []), length-reverse xs)

pub In-append : (i : ℕ) (ys zs : List ℕ) → In i ys ⊎ In i zs → In i (ys ++ zs)
In-append i [] zs (inl m) = absurd m
In-append i [] zs (inr m) = m
In-append i (y ∷ ys) zs (inl (inl q)) = inl q
In-append i (y ∷ ys) zs (inl (inr m)) = inr (In-append i ys zs (inl m))
In-append i (y ∷ ys) zs (inr m) = inr (In-append i ys zs (inr m))

pub append-In : (i : ℕ) (ys zs : List ℕ) → In i (ys ++ zs) → In i ys ⊎ In i zs
append-In i [] zs m = inr m
append-In i (y ∷ ys) zs (inl q) = inl (inl q)
append-In i (y ∷ ys) zs (inr m) = elim (append-In i ys zs m) [ inl a ↦ inl (inr a) | inr b ↦ inr b ]

pub In-reverse : (i : ℕ) (xs : List ℕ) → In i xs → In i (reverse xs)
unfolding reverse
In-reverse i [] m = m
In-reverse i (x ∷ xs) (inl q) = In-append i (reverse xs) (x ∷ []) (inr (inl q))
In-reverse i (x ∷ xs) (inr m) = In-append i (reverse xs) (x ∷ []) (inl (In-reverse i xs m))

pub reverse-In : (i : ℕ) (xs : List ℕ) → In i (reverse xs) → In i xs
unfolding reverse
reverse-In i [] m = m
reverse-In i (x ∷ xs) m = elim (append-In i (reverse xs) (x ∷ []) m) [
  | inl a ↦ inr (reverse-In i xs a)
  | inr (inl q) ↦ inl q
  | inr (inr z) ↦ absurd z
]

pub NotIn-all : (i : ℕ) (xs : List ℕ) → ((j : ℕ) → In j xs → i ≢ j) → NotIn i xs
NotIn-all i [] f = tt
NotIn-all i (x ∷ xs) f = (f x (inl refl), NotIn-all i xs (λ j m. f j (inr m)))
