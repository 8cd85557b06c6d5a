-- ===== src/Fs/Search.antt =====
-- The loops of `balloc`: they find the first free block.
use mathlib.Core.Path.{subst}
use mit6s.Base.{
  ℕ, zero, suc, ◌+◌, ◌*◌, ◌/◌, ◌%◌, ◌≤◌, ◌<◌, ◌≡◌, inl, inr, ap₂, ◌∙◌, arith, Option, none, some,
  ltb, Bool-cases, ℕ_discrete,
}
use mit6s.Fs.Blocks.{
  bpb, Superblock, Volume, bblock, bit, is_free, find_bit, mark, balloc_from, balloc,
}

-- The bit of block `x` in the bitmap: 1 if the block is in use.
abbrev pub used : Superblock → Volume → ℕ → ℕ
used sb s x = bit (x % bpb % 8) (s.bytes (bblock x sb) (x % bpb / 8))

used-at :
    (sb : Superblock) (s : Volume) (b bi : ℕ)
    → b % bpb ≡ 0
    → bi < bpb
    → used sb s (b + bi) ≡ bit (bi % 8) (s.bytes (bblock b sb) (bi / 8))
used-at sb s b bi al lt =
    let e1 : (b + bi) % bpb ≡ bi = omega arith in
    let e2 : (b + bi) / bpb ≡ b / bpb = omega arith in
    ap₂ (λ i n. bit (i % 8) (s.bytes (n + sb.bmapstart) (i / 8))) e1 e2

-- Every block from `lo` to `hi` that there is is in use.
abbrev pub AllUsed : Superblock → Volume → ℕ → ℕ → Type 0
AllUsed sb s lo hi = (x : ℕ) → lo ≤ x → x < hi → x < sb.size → used sb s x ≡ 1

AllUsed-cons :
    (sb : Superblock) (s : Volume) (lo hi : ℕ)
    → used sb s lo ≡ 1
    → AllUsed sb s (lo + 1) hi
    → AllUsed sb s lo hi
AllUsed-cons sb s lo hi u more x le lt sz = elim (ℕ_discrete lo x) [
  | yes q ↦ subst (λ y. used sb s y ≡ 1) q u
  | no ne ↦ more x (omega arith) lt sz
]

-- What the inner loop returns for the bits from `bi` on.
abbrev FindEnd : Superblock → Volume → ℕ → ℕ → Option ℕ → Type 0
FindEnd sb s b bi none = AllUsed sb s (b + bi) (b + bpb)
FindEnd sb s b bi (some k) =
    (k < bpb)
    × (bi ≤ k)
    × (b + k < sb.size)
    × (used sb s (b + k) ≡ 0)
    × AllUsed sb s (b + bi) (b + k)

FindEnd-cons :
    (sb : Superblock) (s : Volume) (b bi : ℕ) (r : Option ℕ)
    → used sb s (b + bi) ≡ 1
    → FindEnd sb s b (bi + 1) r
    → FindEnd sb s b bi r
FindEnd-cons sb s b bi none u e =
    AllUsed-cons sb s (b + bi) (b + bpb) u (subst (λ lo. AllUsed sb s lo (b + bpb)) (omega arith) e)
FindEnd-cons sb s b bi (some k) u (lt, le, sz, free, e) = (
  lt,
  omega arith,
  sz,
  free,
  AllUsed-cons sb s (b + bi) (b + k) u (subst (λ lo. AllUsed sb s lo (b + k)) (omega arith) e),
)

find_bit-FindEnd :
    (sb : Superblock) (s : Volume) (n b bi : ℕ)
    → b % bpb ≡ 0
    → bi + n ≡ bpb
    → FindEnd sb s b bi (find_bit sb n b bi s)
unfolding find_bit
find_bit-FindEnd sb s zero b bi al e = λ x le lt sz. absurd (omega arith)
find_bit-FindEnd sb s (suc n) b bi al e = elim (Bool-cases (ltb (b + bi) sb.size)) [
  | inr out ↦ rw out (λ x le lt sz. absurd (ground arith))
  | inl in_range ↦
      let at = used-at sb s b bi al (omega arith) in
      elim (Bool-cases (is_free sb b bi s)) [
        | inl f ↦
            rw (in_range, f)
              (
                omega arith,
                omega arith,
                ground arith,
                at ∙ ground arith,
                λ x le lt sz. absurd (omega arith),
              )
        | inr f ↦
            let u : used sb s (b + bi) ≡ 1 = at ∙ ground arith in
            rw (in_range, f)
              (FindEnd-cons sb s b bi (find_bit sb n b (bi + 1) s) u
                (find_bit-FindEnd sb s n b (bi + 1) al (omega arith)))
      ]
]

-- What `balloc` returns when the blocks below `b` are in use.
abbrev pub SearchEnd : Superblock → Volume → ℕ → Option (ℕ × Volume) → Type 0
SearchEnd sb s b none = AllUsed sb s b (sb.size)
SearchEnd sb s b (some (x, t)) =
    (b ≤ x)
    × (x < sb.size)
    × (used sb s x ≡ 0)
    × AllUsed sb s b x
    × (t ≡ mark sb (x / bpb * bpb) (x % bpb) s)

AllUsed-join :
    (sb : Superblock) (s : Volume) (lo mid hi : ℕ)
    → AllUsed sb s lo mid
    → AllUsed sb s mid hi
    → AllUsed sb s lo hi
AllUsed-join sb s lo mid hi a c x le lt sz = elim (Bool-cases (ltb x mid)) [
  | inl h ↦ a x le (ground arith) sz
  | inr h ↦ c x (ground arith) lt sz
]

SearchEnd-join :
    (sb : Superblock) (s : Volume) (b : ℕ) (r : Option (ℕ × Volume))
    → AllUsed sb s b (b + bpb)
    → SearchEnd sb s (b + bpb) r
    → SearchEnd sb s b r
SearchEnd-join sb s b none a e = AllUsed-join sb s b (b + bpb) (sb.size) a e
SearchEnd-join sb s b (some (x, t)) a (le, lt, free, u, m) =
    (omega arith, lt, free, AllUsed-join sb s b (b + bpb) x a u, m)

-- What the outer loop does with the answer of the inner one.
round-SearchEnd :
    (sb : Superblock) (s : Volume) (b : ℕ) (rest : Option (ℕ × Volume)) (f : Option ℕ)
    → b % bpb ≡ 0
    → FindEnd sb s b 0 f
    → SearchEnd sb s (b + bpb) rest
    → SearchEnd sb s b (elim f [ some bi ↦ some (b + bi, mark sb b bi s) | none ↦ rest ])
round-SearchEnd sb s b rest none al e more =
    SearchEnd-join sb s b rest (subst (λ lo. AllUsed sb s lo (b + bpb)) (omega arith) e) more
round-SearchEnd sb s b rest (some k) al (lt, le, sz, free, e) more = (
  omega arith,
  sz,
  free,
  subst (λ lo. AllUsed sb s lo (b + k)) (omega arith) e,
  ap₂ (λ c i. mark sb c i s) (omega arith) (omega arith),
)

balloc_from-SearchEnd :
    (fuel : ℕ) (sb : Superblock) (s : Volume) (b : ℕ)
    → b % bpb ≡ 0
    → sb.size < b + fuel * bpb
    → SearchEnd sb s b (balloc_from fuel sb b s)
unfolding balloc_from
balloc_from-SearchEnd zero sb s b al f = λ x le lt sz. absurd (omega arith)
balloc_from-SearchEnd (suc fuel) sb s b al f = elim (Bool-cases (ltb b sb.size)) [
  | inr out ↦ rw out (λ x le lt sz. absurd (ground arith))
  | inl in_range ↦ rw in_range (
      round-SearchEnd sb s b (balloc_from fuel sb (b + bpb) s) (find_bit sb bpb b 0 s) al
        (find_bit-FindEnd sb s bpb b 0 al (omega arith))
        (balloc_from-SearchEnd fuel sb s (b + bpb) (omega arith) (omega arith)))
]

pub balloc-SearchEnd : (sb : Superblock) (s : Volume) → SearchEnd sb s 0 (balloc sb s)
unfolding balloc
balloc-SearchEnd sb s = balloc_from-SearchEnd (sb.size / bpb + 1) sb s 0 (omega arith) (omega arith)
