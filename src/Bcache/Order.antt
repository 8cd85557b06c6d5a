-- ===== src/Bcache/Order.antt =====
-- The cache with its list in order of use: `binit`, `brelse`, and `bget` by that list.
use mathlib.Core.Path.{subst}
use mit6s.Base.{
  ℕ, zero, suc, ◌+◌, ◌≤◌, ◌<◌, ◌≡◌, inl, inr, refl, ap₂, arith, List, [], ◌∷◌, length, ℕ_discrete,
}
use mit6s.Bcache.{
  nbuf, head, Bcache, set_next, set_prev, put_first, binit_from, binit, is_cached, is_unused,
  bget_with, bget,
}
use mit6s.Bcache.Links.{In, reverse, Linked-reverse}
use mit6s.Bcache.Moves.{Ring, put_first-Ring}
use mit6s.Bcache.Scans.{first, scan-first, length-reverse, reverse-In, NotIn-all}

-- The list of the cache is `xs`, from the most recently used buffer on; it holds every buffer once.
pub record Order (s : Bcache) (xs : List ℕ) : Type 0 where
  pub ring : Ring s xs
  pub all : (i : ℕ) → i < nbuf → In i xs
  pub within : (i : ℕ) → In i xs → i < nbuf
  pub size : length xs ≡ nbuf

-- The list that results when the buffers from `b` on are put in front one by one.
abbrev pub pushed : ℕ → ℕ → List ℕ → List ℕ
pushed zero b xs = xs
pushed (suc n) b xs = pushed n (b + 1) (b ∷ xs)

-- The list holds the buffers below `b`.
record Upto (b : ℕ) (xs : List ℕ) : Type 0 where
  below : (i : ℕ) → i < b → In i xs
  only : (i : ℕ) → In i xs → i < b
  count : length xs ≡ b

binit_from-Ring :
    (n b : ℕ) (xs : List ℕ) (s : Bcache)
    → b + n ≤ nbuf
    → Upto b xs
    → Ring s xs
    → Ring (binit_from n b s) (pushed n b xs) × Upto (b + n) (pushed n b xs)
unfolding binit_from
binit_from-Ring zero b xs s le u r = (r, subst (λ k. Upto k xs) (omega arith) u)
binit_from-Ring (suc n) b xs s le u r =
    let far = NotIn-all b xs (λ j m q. omega (arith, u.only j m)) in
    let up : Upto (b + 1) (b ∷ xs) = record {
      below =
          λ i lt. elim (ℕ_discrete i b) [ yes q ↦ inl q | no ne ↦ inr (u.below i (omega arith)) ];
      only = λ i m. elim m [ inl q ↦ omega arith | inr m' ↦ omega (arith, u.only i m') ];
      count = omega (arith, u.count);
    } in
    let (r', u') =
      binit_from-Ring n (b + 1) (b ∷ xs) (put_first b s) (omega arith) up
        (put_first-Ring s b xs (λ q. omega arith) far r) in
    (r', subst (λ k. Upto k (pushed n (b + 1) (b ∷ xs))) (omega arith) u')

-- After `binit` the list holds every buffer, the last one first.
pub binit-Order : (s : Bcache) → Order (binit s) (pushed nbuf 0 [])
unfolding binit
binit-Order s =
    let start = set_next head head (set_prev head head s) in
    let (r, u) =
      binit_from-Ring nbuf 0 [] start (omega arith)
        (record { below = λ i lt. absurd (omega arith); only = λ i m. absurd m; count = refl })
        (record { linked = (refl, refl); distinct = tt; no_head = tt }) in
    record { ring = r; all = u.below; within = u.only; size = u.count }

binit_from-buf : (n b : ℕ) (s : Bcache) → (binit_from n b s).buf ≡ s.buf
unfolding binit_from
binit_from-buf zero b s = refl
binit_from-buf (suc n) b s = binit_from-buf n (b + 1) (put_first b s)

-- `binit` sets links only.
pub binit-buf : (s : Bcache) → (binit s).buf ≡ s.buf
unfolding binit
binit-buf s = binit_from-buf nbuf 0 (set_next head head (set_prev head head s))

-- `bget` looks for the block from the most recently used buffer on, and for a buffer that nobody
-- uses from the least recently used one on.
pub bget-first :
    (dev blockno : ℕ) (s : Bcache) (xs : List ℕ)
    → Order s xs
    → bget dev blockno s
      ≡ bget_with
          (first (is_cached s dev blockno) xs)
          (first (is_unused s) (reverse xs))
          dev
          blockno
          s
unfolding bget
bget-first dev blockno s xs o =
    let far =
      NotIn-all head (reverse xs) (λ j m q. omega (arith, o.within j (reverse-In j xs m))) in
    ap₂ (λ a b. bget_with a b dev blockno s)
      (scan-first (nbuf + 1) (is_cached s dev blockno) s.next s.prev head xs (omega (arith, o.size))
        (o.ring.no_head) (o.ring.linked))
      (scan-first (nbuf + 1) (is_unused s) s.prev s.next head (reverse xs)
        (omega (arith, length-reverse xs, o.size)) far
        (Linked-reverse s.next s.prev head xs head (o.ring.linked)))
