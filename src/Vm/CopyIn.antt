-- ===== src/Vm/CopyIn.antt =====
-- `copyin`, which copies page by page, against reading one byte after the other.
use mit6s.Base.{
  ℕ, zero, suc, ◌+◌, ◌-◌, ◌%◌, ◌^◌, ◌≤◌, ◌<◌, ◌≡◌, ◌≢◌, inl, inr, refl, sym, ap, ap₂, ◌∙◌, arith,
  Option, none, some, ltb, ◌==◌, ==_ne, if◌then◌else◌, ℤ, pos, minus_one, List, [], ◌∷◌, ◌++◌, u64,
  Bool-cases, ℕ_discrete,
}
use mit6s.Kalloc.{page_size, Kmem}
use mit6s.Vm.Walk.{walkaddr}
use mit6s.Vm.Maps.{page_round_down}
use mit6s.Vm.Bytes.{get_byte, get_bytes, chunk, in_page, behind, copyin_from, copyin}

-- The byte that user code reads at `va`.
abbrev pub user_byte : ℕ → ℕ → Kmem → Option ℕ
user_byte root va s =
    let pa0 = walkaddr root (page_round_down va) s in
    if pa0 == 0 then none else some (get_byte s (in_page pa0 va))

abbrev pub then_byte : Option ℕ → ℤ × List ℕ → ℤ × List ℕ
then_byte none rest = (minus_one, [])
then_byte (some b) (r, bs) = (r, b ∷ bs)

-- The `n` bytes that user code reads from `va` on, up to the first page that it may not read.
-- Addresses are 64-bit words, so that the last one is followed by 0.
pub user_bytes : ℕ → ℕ → ℕ → Kmem → ℤ × List ℕ
user_bytes root zero va s = (pos 0, [])
user_bytes root (suc n) va s = then_byte (user_byte root va s) (user_bytes root n (u64 (va + 1)) s)

-- What the loop over the pages puts in front.
abbrev pub in_front : List ℕ → ℤ × List ℕ → ℤ × List ℕ
in_front xs (r, ys) = (r, xs ++ ys)

pub chunk-bounds :
    (va len : ℕ)
    → 0 < len
    → (0 < chunk va len)
      × (chunk va len ≤ len)
      × (va + chunk va len ≤ page_round_down va + page_size)
chunk-bounds va len nz = elim (Bool-cases (ltb len (page_size - (va - page_round_down va)))) [
  | inl e ↦ rw e (nz, omega arith, ground arith)
  | inr e ↦ rw e (omega arith, ground arith, omega arith)
]

-- After a chunk that is not the rest, the next page begins.
pub chunk_ends :
    (va len : ℕ) → len - chunk va len ≢ 0 → page_round_down va + page_size ≡ va + chunk va len
chunk_ends va len ne = elim (Bool-cases (ltb len (page_size - (va - page_round_down va)))) [
  | inl e ↦ let c : chunk va len ≡ len = rw e refl in absurd (ne (omega arith))
  | inr e ↦ let c : chunk va len ≡ page_size - (va - page_round_down va) = rw e refl in omega arith
]

module _ (root base : ℕ) (s : Kmem) (al : base % page_size ≡ 0) (word : base < 2 ^ 64)
    (ne : walkaddr root base s ≢ 0) where
  pub user_byte-some :
      (va : ℕ)
      → base ≤ va
      → va < base + page_size
      → user_byte root va s ≡ some (get_byte s (walkaddr root base s + (va - base)))
  user_byte-some va lo hi =
      let e : page_round_down va ≡ base = omega arith in
      rw (e, ==_ne (walkaddr root base s) 0 ne) refl

  -- The bytes of a chunk, and behind them the others.
  user_bytes-chunk :
      (len n m va : ℕ)
      → len ≡ n + m
      → base ≤ va
      → va + n ≤ base + page_size
      → user_bytes root len (u64 va) s
        ≡ in_front
            (get_bytes n (walkaddr root base s + (va - base)) s)
            (user_bytes root m (u64 (va + n)) s)
  unfolding user_bytes get_bytes
  user_bytes-chunk len zero m va e lo hi =
      ap₂ (λ k a. user_bytes root k a s) (omega arith) (omega arith)
  user_bytes-chunk zero (suc n) m va e lo hi = absurd (omega arith)
  user_bytes-chunk (suc len) (suc n) m va e lo hi =
      let pa = walkaddr root base s in
      let rest = user_bytes-chunk len n m (va + 1) (omega arith) (omega arith) (omega arith) in
      let ea : pa + (va + 1 - base) ≡ pa + (va - base) + 1 = omega arith in
      let ev : u64 (va + 1 + n) ≡ u64 (va + suc n) = ap u64 (omega arith) in
      let fits : u64 va ≡ va = omega arith in
      ap (λ a. user_bytes root (suc len) a s) fits
      ∙ ap₂ then_byte (user_byte-some va lo (omega arith)) rest
      ∙ ap₂
          (λ a b.
            in_front (get_byte s (pa + (va - base)) ∷ get_bytes n a s) (user_bytes root m b s))
          ea ev

copyin_from-chunk :
    (root fuel len va : ℕ) (s : Kmem)
    → walkaddr root (page_round_down va) s ≢ 0
    → let n = chunk va (suc len) in
      copyin_from (suc fuel) root va (suc len) s
      ≡ behind
          (get_bytes n (in_page (walkaddr root (page_round_down va) s) va) s)
          (copyin_from fuel root (u64 (page_round_down va + page_size)) (suc len - n) s)
unfolding copyin_from
copyin_from-chunk root fuel len va s ne =
    rw (==_ne (walkaddr root (page_round_down va) s) 0 ne) refl

copyin_from-user_bytes :
    (root fuel len va : ℕ) (s : Kmem)
    → len ≤ fuel
    → va < 2 ^ 64
    → copyin_from fuel root va len s ≡ some (user_bytes root len va s)
unfolding copyin_from user_bytes
copyin_from-user_bytes root zero zero va s f b = refl
copyin_from-user_bytes root (suc fuel) zero va s f b = refl
copyin_from-user_bytes root zero (suc len) va s f b = absurd (omega arith)
copyin_from-user_bytes root (suc fuel) (suc len) va s f b =
    let base = page_round_down va in
    let pa0 = walkaddr root base s in
    let fits : u64 va ≡ va = omega arith in
    let n = chunk va (suc len) in
    let (n0, n1, n2) = chunk-bounds va (suc len) (omega arith) in
    elim (ℕ_discrete pa0 0) [
      | yes z ↦ rw z refl
      | no ne ↦
          let next = u64 (base + page_size) in
          let rest = copyin_from fuel root next (suc len - n) s in
          let ih : rest ≡ some (user_bytes root (suc len - n) (u64 (va + n)) s) =
            elim (ℕ_discrete (suc len - n) 0) [
              | yes z ↦
                  ap (λ k. copyin_from fuel root next k s) z
                  ∙ copyin_from-user_bytes root fuel 0 next s (omega arith) (omega arith)
                  ∙ ap (λ k. some (user_bytes root k (u64 (va + n)) s)) (sym z)
              | no nz ↦
                  copyin_from-user_bytes root fuel (suc len - n) next s (omega arith) (omega arith)
                  ∙ ap (λ a. some (user_bytes root (suc len - n) (u64 a) s))
                      (chunk_ends va (suc len) nz)
            ] in
          copyin_from-chunk root fuel len va s ne
          ∙ ap (behind (get_bytes n (pa0 + (va - base)) s)) ih
          ∙ ap some (
              sym (
                user_bytes-chunk root base s (omega arith) (omega arith) ne (suc len) n
                  (suc len - n) va (omega arith) (omega arith) n2)
              ∙ ap (λ a. user_bytes root (suc len) a s) fits)
    ]

-- `copyin` from any 64-bit address, page by page, is reading one byte after the other up to the
-- first page that user code may not read: the same answer, and the same bytes in the buffer. It
-- always returns.
pub copyin-user_bytes :
    (root va len : ℕ) (s : Kmem)
    → va < 2 ^ 64
    → copyin root va len s ≡ some (user_bytes root len va s)
unfolding copyin
copyin-user_bytes root va len s b = copyin_from-user_bytes root len len va s (omega arith) b
