-- ===== src/Bcache/Links.antt =====
-- Segments of a doubly linked list, and assignments that do not touch them.
use mit6s.Base.{ℕ, ◌≡◌, ◌≢◌, ◌⊎◌, ◌∙◌, List, [], ◌∷◌, ◌++◌, update, update_ne}

abbrev pub NotIn : ℕ → List ℕ → Type 0
NotIn x [] = Unit {0}
NotIn x (y ∷ ys) = (x ≢ y) × NotIn x ys

abbrev pub In : ℕ → List ℕ → Type 0
In x [] = ⊥
In x (y ∷ ys) = (x ≡ y) ⊎ In x ys

abbrev pub Distinct : List ℕ → Type 0
Distinct [] = Unit {0}
Distinct (x ∷ xs) = NotIn x xs × Distinct xs

-- From `a` to `z`, the links run through `xs`, there and back.
abbrev pub Linked : (ℕ → ℕ) → (ℕ → ℕ) → ℕ → List ℕ → ℕ → Type 0
Linked next prev a [] z = (next a ≡ z) × (prev z ≡ a)
Linked next prev a (x ∷ xs) z = (next a ≡ x) × (prev x ≡ a) × Linked next prev x xs z

-- The memory agrees at each of these places.
abbrev pub Same : (ℕ → ℕ) → (ℕ → ℕ) → List ℕ → Type 0
Same f g [] = Unit {0}
Same f g (x ∷ xs) = (g x ≡ f x) × Same f g xs

pub Same-update : (f : ℕ → ℕ) (i v : ℕ) (xs : List ℕ) → NotIn i xs → Same f (update f i v) xs
Same-update f i v [] n = tt
Same-update f i v (x ∷ xs) (ne, n) = (update_ne f i v x ne, Same-update f i v xs n)

pub Same-trans : (f g h : ℕ → ℕ) (xs : List ℕ) → Same f g xs → Same g h xs → Same f h xs
Same-trans f g h [] s t = tt
Same-trans f g h (x ∷ xs) (e, s) (e', t) = (e' ∙ e, Same-trans f g h xs s t)

pub Linked-Same :
    (n n' p p' : ℕ → ℕ) (a : ℕ) (xs : List ℕ) (z : ℕ)
    → Same n n' (a ∷ xs)
    → Same p p' xs
    → p' z ≡ p z
    → Linked n p a xs z
    → Linked n' p' a xs z
Linked-Same n n' p p' a [] z (en, sn) sp ez (l, r) = (en ∙ l, ez ∙ r)
Linked-Same n n' p p' a (x ∷ xs) z (en, sn) (ep, sp) ez (l, r, rest) =
    (en ∙ l, ep ∙ r, Linked-Same n n' p p' x xs z sn sp ez rest)

pub Linked-snoc :
    (n p : ℕ → ℕ) (a : ℕ) (xs : List ℕ) (m z : ℕ)
    → Linked n p a xs m
    → n m ≡ z
    → p z ≡ m
    → Linked n p a (xs ++ m ∷ []) z
Linked-snoc n p a [] m z (l, r) e f = (l, r, (e, f))
Linked-snoc n p a (x ∷ xs) m z (l, r, rest) e f = (l, r, Linked-snoc n p x xs m z rest e f)

unfoldable pub reverse : List ℕ → List ℕ
reverse [] = []
reverse (x ∷ xs) = reverse xs ++ x ∷ []

-- Followed by `prev`, the list is the reverse.
pub Linked-reverse :
    (n p : ℕ → ℕ) (a : ℕ) (xs : List ℕ) (z : ℕ) → Linked n p a xs z → Linked p n z (reverse xs) a
unfolding reverse
Linked-reverse n p a [] z (l, r) = (r, l)
Linked-reverse n p a (x ∷ xs) z (l, r, rest) =
    Linked-snoc p n z (reverse xs) x a (Linked-reverse n p x xs z rest) r l

pub NotIn-append : (x : ℕ) (ys zs : List ℕ) → NotIn x ys → NotIn x zs → NotIn x (ys ++ zs)
NotIn-append x [] zs a b = b
NotIn-append x (y ∷ ys) zs (ne, a) b = (ne, NotIn-append x ys zs a b)

pub NotIn-split :
    (x : ℕ) (ys : List ℕ) (b : ℕ) (zs : List ℕ)
    → NotIn x (ys ++ b ∷ zs)
    → NotIn x ys × (x ≢ b) × NotIn x zs
NotIn-split x [] b zs (ne, n) = (tt, ne, n)
NotIn-split x (y ∷ ys) b zs (ne, n) = let (a, c, d) = NotIn-split x ys b zs n in ((ne, a), c, d)
