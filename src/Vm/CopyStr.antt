-- ===== src/Vm/CopyStr.antt =====
-- `copyinstr`, which reads page by page, against reading one byte after the other.
use mit6s.Base.{
  ℕ, zero, suc, ◌+◌, ◌-◌, ◌%◌, ◌^◌, ◌≤◌, ◌<◌, ◌≡◌, ◌≢◌, inl, inr, refl, sym, ap, ap₂, ◌∙◌, arith,
  Bool, true, false, Option, none, some, ◌==◌, ==_ne, if◌then◌else◌, ℤ, pos, minus_one, List, [],
  ◌∷◌, u64, Bool-cases, ℕ_discrete,
}
use mit6s.Kalloc.{page_size, Kmem}
use mit6s.Vm.Walk.{walkaddr}
use mit6s.Vm.Maps.{page_round_down}
use mit6s.Vm.Bytes.{get_byte, chunk, in_page, behind, string_bytes, copyinstr_from, copyinstr}
use mit6s.Vm.CopyIn.{user_byte, user_byte-some, in_front, chunk-bounds, chunk_ends}

-- A byte of a string, and what follows unless it is the end.
abbrev pub string_then : Option ℕ → ℤ × List ℕ → ℤ × List ℕ
string_then none rest = (minus_one, [])
string_then (some b) (r, bs) = if b == 0 then (pos 0, 0 ∷ []) else (r, b ∷ bs)

-- The string that user code reads at `va`, of at most `max` bytes with the null at its end: -1 if
-- there is no null, or a page before it that user code may not read.
pub user_string : ℕ → ℕ → ℕ → Kmem → ℤ × List ℕ
user_string root zero va s = (minus_one, [])
user_string root (suc max) va s =
    string_then (user_byte root va s) (user_string root max (u64 (va + 1)) s)

-- The end of the string in a chunk, or what follows it.
abbrev pub string_end : Bool × List ℕ → ℤ × List ℕ → ℤ × List ℕ
string_end (true, bs) rest = (pos 0, bs)
string_end (false, bs) rest = in_front bs rest

string_end-cons :
    (b : ℕ) (c : Bool × List ℕ) (rest : ℤ × List ℕ)
    → string_then (some b) (string_end c rest)
      ≡ string_end (if b == 0 then (true, 0 ∷ []) else (c.0, b ∷ c.1)) rest
string_end-cons b (true, bs) rest = elim (Bool-cases (b == 0)) [
  | inl e ↦ rw e refl
  | inr e ↦ rw e refl
]
string_end-cons b (false, bs) rest = elim (Bool-cases (b == 0)) [
  | inl e ↦ rw e refl
  | inr e ↦ rw e refl
]

module _ (root base : ℕ) (s : Kmem) (al : base % page_size ≡ 0) (word : base < 2 ^ 64)
    (ne : walkaddr root base s ≢ 0) where
  user_string-chunk :
      (len n m va : ℕ)
      → len ≡ n + m
      → base ≤ va
      → va + n ≤ base + page_size
      → user_string root len (u64 va) s
        ≡ string_end
            (string_bytes n (walkaddr root base s + (va - base)) s)
            (user_string root m (u64 (va + n)) s)
  unfolding user_string string_bytes
  user_string-chunk len zero m va e lo hi =
      ap₂ (λ k a. user_string root k a s) (omega arith) (omega arith)
  user_string-chunk zero (suc n) m va e lo hi = absurd (omega arith)
  user_string-chunk (suc len) (suc n) m va e lo hi =
      let pa = walkaddr root base s in
      let b = get_byte s (pa + (va - base)) in
      let rest = user_string-chunk len n m (va + 1) (omega arith) (omega arith) (omega arith) in
      let ea : pa + (va + 1 - base) ≡ pa + (va - base) + 1 = omega arith in
      let ev : u64 (va + 1 + n) ≡ u64 (va + suc n) = ap u64 (omega arith) in
      let fits : u64 va ≡ va = omega arith in
      ap (λ a. user_string root (suc len) a s) fits
      ∙ ap₂ string_then (user_byte-some root base s al word ne va lo (omega arith)) rest
      ∙ ap₂ (λ a v. string_then (some b) (string_end (string_bytes n a s) (user_string root m v s)))
          ea ev
      ∙ string_end-cons b (string_bytes n (pa + (va - base) + 1) s)
          (user_string root m (u64 (va + suc n)) s)

-- What the outer loop does after a chunk.
abbrev after_chunk : Bool × List ℕ → Option (ℤ × List ℕ) → Option (ℤ × List ℕ)
after_chunk (got_null, bs) rest = if got_null then some (pos 0, bs) else behind bs rest

after_chunk-some :
    (c : Bool × List ℕ) (rest : ℤ × List ℕ) → after_chunk c (some rest) ≡ some (string_end c rest)
after_chunk-some (true, bs) rest = refl
after_chunk-some (false, bs) rest = refl

copyinstr_from-chunk :
    (root fuel max va : ℕ) (s : Kmem)
    → walkaddr root (page_round_down va) s ≢ 0
    → let n = chunk va (suc max) in
      copyinstr_from (suc fuel) root va (suc max) s
      ≡ after_chunk
          (string_bytes n (in_page (walkaddr root (page_round_down va) s) va) s)
          (copyinstr_from fuel root (u64 (page_round_down va + page_size)) (suc max - n) s)
unfolding copyinstr_from
copyinstr_from-chunk root fuel max va s ne =
    rw (==_ne (walkaddr root (page_round_down va) s) 0 ne) refl

copyinstr_from-user_string :
    (root fuel max va : ℕ) (s : Kmem)
    → max ≤ fuel
    → va < 2 ^ 64
    → copyinstr_from fuel root va max s ≡ some (user_string root max va s)
unfolding copyinstr_from user_string
copyinstr_from-user_string root zero zero va s f b = refl
copyinstr_from-user_string root (suc fuel) zero va s f b = refl
copyinstr_from-user_string root zero (suc max) va s f b = absurd (omega arith)
copyinstr_from-user_string root (suc fuel) (suc max) va s f b =
    let base = page_round_down va in
    let pa0 = walkaddr root base s in
    let fits : u64 va ≡ va = omega arith in
    let n = chunk va (suc max) in
    let (n0, n1, n2) = chunk-bounds va (suc max) (omega arith) in
    elim (ℕ_discrete pa0 0) [
      | yes z ↦ rw z refl
      | no ne ↦
          let next = u64 (base + page_size) in
          let rest = copyinstr_from fuel root next (suc max - n) s in
          let ih : rest ≡ some (user_string root (suc max - n) (u64 (va + n)) s) =
            elim (ℕ_discrete (suc max - n) 0) [
              | yes z ↦
                  ap (λ k. copyinstr_from fuel root next k s) z
                  ∙ copyinstr_from-user_string root fuel 0 next s (omega arith) (omega arith)
                  ∙ ap (λ k. some (user_string root k (u64 (va + n)) s)) (sym z)
              | no nz ↦
                  copyinstr_from-user_string root fuel (suc max - n) next s (omega arith)
                    (omega arith)
                  ∙ ap (λ a. some (user_string root (suc max - n) (u64 a) s))
                      (chunk_ends va (suc max) nz)
            ] in
          let c = string_bytes n (pa0 + (va - base)) s in
          copyinstr_from-chunk root fuel max va s ne
          ∙ ap (after_chunk c) ih
          ∙ after_chunk-some c (user_string root (suc max - n) (u64 (va + n)) s)
          ∙ ap some (
              sym (
                user_string-chunk root base s (omega arith) (omega arith) ne (suc max) n
                  (suc max - n) va (omega arith) (omega arith) n2)
              ∙ ap (λ a. user_string root (suc max) a s) fits)
    ]

-- `copyinstr` from any 64-bit address, page by page, is reading one byte after the other up to the null: it returns 0 with
-- the null copied, and -1 if a page that user code may not read or the end of the buffer comes
-- first; what has been copied is the same. It always returns.
pub copyinstr-user_string :
    (root va max : ℕ) (s : Kmem)
    → va < 2 ^ 64
    → copyinstr root va max s ≡ some (user_string root max va s)
unfolding copyinstr
copyinstr-user_string root va max s b = copyinstr_from-user_string root max max va s (omega arith) b
