-- ===== src/Fs/Allocate.antt =====
-- `balloc` takes the first free block and no other, and `bfree` gives it back.
use mathlib.Core.Path.{subst}
use mit6s.Base.{
  ℕ, ◌+◌, ◌-◌, ◌*◌, ◌/◌, ◌%◌, ◌^◌, ◌<◌, ◌≡◌, ◌≢◌, ◌⊎◌, inl, inr, refl, sym, ap, ap₂, ◌∙◌, arith,
  true, false, Option, none, some, ◌==◌, ltb, if◌then◌else◌, update, update_self, update_ne,
  ℕ_discrete,
}
use mit6s.Fs.Blocks.{bsize, bpb, Superblock, Volume, bblock, bit, log_byte, bzero, balloc, bfree}
use mit6s.Fs.Bits.{bit-set, bit-set_other, bit-clear, bit-clear_other}
use mit6s.Fs.Search.{used, AllUsed, SearchEnd, balloc-SearchEnd}

module _ (sb : Superblock) (s : Volume) (x v : ℕ) where
  abbrev pub byte : ℕ
  byte = x % bpb / 8

  abbrev pub old : ℕ
  old = s.bytes (bblock x sb) byte

  abbrev pub logged : Volume
  logged = log_byte (bblock x sb) byte v s

  pub used-logged : used sb logged x ≡ bit (x % bpb % 8) v
  used-logged =
      ap (λ f. bit (x % bpb % 8) (f byte))
        (update_self s.bytes (bblock x sb) (update (s.bytes (bblock x sb)) byte v))
      ∙ ap (bit (x % bpb % 8)) (update_self (s.bytes (bblock x sb)) byte v)

  -- A byte that differs in the bit of `x` only leaves the other blocks as they are.
  pub used-logged_other :
      ((j : ℕ) → j ≢ x % bpb % 8 → bit j v ≡ bit j old)
      → (y : ℕ) → x ≢ y
      → used sb logged y ≡ used sb s y
  used-logged_other same y ne = elim (ℕ_discrete (bblock x sb) (bblock y sb)) [
    | no nb ↦
        ap (λ f. bit (y % bpb % 8) (f (y % bpb / 8)))
          (update_ne s.bytes (bblock x sb) (update (s.bytes (bblock x sb)) byte v) (bblock y sb) nb)
    | yes qb ↦
        let row : logged.bytes (bblock y sb) ≡ update (s.bytes (bblock x sb)) byte v =
          ap logged.bytes (sym qb)
          ∙ update_self s.bytes (bblock x sb) (update (s.bytes (bblock x sb)) byte v) in
        ap (λ f. bit (y % bpb % 8) (f (y % bpb / 8))) row ∙ elim (ℕ_discrete byte (y % bpb / 8)) [
          | no ni ↦
              ap (bit (y % bpb % 8)) (update_ne (s.bytes (bblock x sb)) byte v (y % bpb / 8) ni)
              ∙ ap (λ n. bit (y % bpb % 8) (s.bytes n (y % bpb / 8))) qb
          | yes qi ↦
              let apart : y % bpb % 8 ≢ x % bpb % 8 = λ q. ne (omega arith) in
              let now : update (s.bytes (bblock x sb)) byte v (y % bpb / 8) ≡ v =
                ap (update (s.bytes (bblock x sb)) byte v) (sym qi)
                ∙ update_self (s.bytes (bblock x sb)) byte v in
              ap (bit (y % bpb % 8)) now
              ∙ same (y % bpb % 8) apart
              ∙ ap₂ (λ n i. bit (y % bpb % 8) (s.bytes n i)) qb qi
        ]
  ]

-- The bitmap is in use itself.
abbrev pub MapUsed : Superblock → Volume → Type 0
MapUsed sb s = (y : ℕ) → y < sb.size → (bblock y sb < sb.size) × (used sb s (bblock y sb) ≡ 1)

-- How `balloc` ends: in a panic since every block is in use, or with the first free block, now in
-- use and zero.
abbrev pub BallocEnd : Superblock → Volume → Option (ℕ × Volume) → Type 0
BallocEnd sb s none = AllUsed sb s 0 (sb.size)
BallocEnd sb s (some (x, t)) =
    (x < sb.size)
    × (used sb s x ≡ 0)
    × AllUsed sb s 0 x
    × (used sb t x ≡ 1)
    × ((y : ℕ) → y < sb.size → x ≢ y → used sb t y ≡ used sb s y)
    × ((i : ℕ) → i < bsize → t.bytes x i ≡ 0)
    × ((n : ℕ) → x ≢ n → bblock x sb ≢ n → t.bytes n ≡ s.bytes n)

module _ (sb : Superblock) (s : Volume) (m : MapUsed sb s) (x : ℕ) (lt : x < sb.size)
    (free : used sb s x ≡ 0) where
  abbrev v : ℕ
  v = old sb s x 0 + 2 ^ (x % bpb % 8)

  abbrev marked : Volume
  marked = logged sb s x v

  -- Clearing the block does not touch the bitmap, since the block is not in use.
  not_map : (y : ℕ) → y < sb.size → x ≢ bblock y sb
  not_map y ly q = absurd (omega (arith, ap (used sb s) q, (m y ly).1))

  used-bzero : (y : ℕ) → y < sb.size → used sb (bzero x marked) y ≡ used sb marked y
  used-bzero y ly =
      ap (λ f. bit (y % bpb % 8) (f (y % bpb / 8)))
        (update_ne marked.bytes x (λ i. if ltb i bsize then 0 else marked.bytes x i) (bblock y sb)
          (not_map y ly))

  marked-BallocEnd : AllUsed sb s 0 x → BallocEnd sb s (some (x, bzero x marked))
  marked-BallocEnd first = (
    lt,
    free,
    first,
    used-bzero x lt ∙ used-logged sb s x v ∙ bit-set (x % bpb % 8) (old sb s x 0) free,
    λ y ly ne.
        used-bzero y ly
        ∙ used-logged_other sb s x v (λ j nj. bit-set_other j (x % bpb % 8) (old sb s x 0) free nj)
            y ne,
    λ i li.
        let e : ltb i bsize ≡ true = ground arith in
        ap (λ f. f i)
          (update_self marked.bytes x (λ i. if ltb i bsize then 0 else marked.bytes x i))
        ∙ (rw e refl),
    λ n nx nb.
        update_ne marked.bytes x (λ i. if ltb i bsize then 0 else marked.bytes x i) n nx
        ∙ update_ne s.bytes (bblock x sb) (update (s.bytes (bblock x sb)) (x % bpb / 8) v) n nb,
  )

-- `balloc` panics only if every block is in use. Otherwise it returns the first block that is not,
-- marks it and no other as in use, fills it with zeros, and changes no block but it and the
-- bitmap's. The blocks of the bitmap must be in use themselves.
pub balloc-BallocEnd : (sb : Superblock) (s : Volume) → MapUsed sb s → BallocEnd sb s (balloc sb s)
balloc-BallocEnd sb s m = ends (balloc sb s) (balloc-SearchEnd sb s)
  where
    ends : (r : Option (ℕ × Volume)) → SearchEnd sb s 0 r → BallocEnd sb s r
    ends none e = e
    ends (some (x, t)) (le, lt, free, first, q) =
        let e1 : x / bpb * bpb / bpb ≡ x / bpb = omega arith in
        let e2 : x / bpb * bpb + x % bpb ≡ x = omega arith in
        let w : ℕ → ℕ → Volume = λ n b.
          bzero b (log_byte n (x % bpb / 8) (s.bytes n (x % bpb / 8) + 2 ^ (x % bpb % 8)) s) in
        let z : t ≡ w (bblock x sb) x = q ∙ ap₂ (λ n b. w (n + sb.bmapstart) b) e1 e2 in
        subst (λ u. BallocEnd sb s (some (x, u))) (sym z) (marked-BallocEnd sb s m x lt free first)

-- `bfree` panics if the block is not in use, and otherwise marks it and no other as free.
pub bfree-used :
    (sb : Superblock) (s : Volume) (x : ℕ)
    → ((used sb s x ≡ 0) × (bfree sb x s ≡ none))
      ⊎ ((t : Volume) × (used sb s x ≡ 1)
          × (bfree sb x s ≡ some t)
          × (used sb t x ≡ 0)
          × ((y : ℕ) → x ≢ y → used sb t y ≡ used sb s y))
unfolding bfree
bfree-used sb s x = elim (ℕ_discrete (used sb s x) 0) [
  | yes z ↦ let e : (used sb s x == 0) ≡ true = ground arith in inl (z, rw (e, bfree) refl)
  | no ne ↦
      let e : (used sb s x == 0) ≡ false = ground arith in
      let one : used sb s x ≡ 1 = omega arith in
      let w = old sb s x 0 in
      let v = w - 2 ^ (x % bpb % 8) in
      inr (
        logged sb s x v,
        one,
        rw (e, bfree) refl,
        used-logged sb s x v ∙ bit-clear (x % bpb % 8) w one,
        λ y ny. used-logged_other sb s x v (λ j nj. bit-clear_other j (x % bpb % 8) w one nj) y ny,
      )
]

-- Round trip: the block that `balloc` returns can be freed, and then the same blocks are in use as
-- before.
pub bfree-balloc :
    (sb : Superblock) (s t : Volume) (x : ℕ)
    → MapUsed sb s
    → balloc sb s ≡ some (x, t)
    → (u : Volume) × (bfree sb x t ≡ some u) × ((y : ℕ) → y < sb.size → used sb u y ≡ used sb s y)
bfree-balloc sb s t x m e =
    let (lt, free, first, now, same, _, _) = subst (BallocEnd sb s) e (balloc-BallocEnd sb s m) in
    elim (bfree-used sb t x) [
      | inl (z, _) ↦ absurd (omega arith)
      | inr (u, _, f, gone, others) ↦ (
        u,
        f,
        λ y ly. elim (ℕ_discrete x y) [
          | yes q ↦ ap (used sb u) (sym q) ∙ gone ∙ sym free ∙ ap (used sb s) q
          | no ne ↦ others y ne ∙ same y ly ne
        ],
      )
    ]
