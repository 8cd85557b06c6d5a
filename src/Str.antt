-- ===== src/Str.antt =====
-- kernel/string.c, over a memory of bytes that is a function of the address. An address range that
-- a call is given does not wrap. A loop that runs until it finds a NUL takes fuel; `none` means
-- that the fuel ran out. A `char` is unsigned here, as on RISC-V.
pub mod Move
pub mod Text
pub mod Compare
pub mod Copies
mod Examples
use mit6s.Base.{
  ℕ, zero, suc, ◌+◌, ◌-◌, ◌%◌, Bool, true, false, not, ◌&&◌, ◌||◌, Option, none, some, ltb, ◌==◌,
  if◌then◌else◌, ℤ, pos, sub_ℕ, update,
}

abbrev pub Memory : Type 0
Memory = ℕ → ℕ

-- The loop of `memset` from index `i`, with `k` rounds left.
pub set_from : ℕ → ℕ → ℕ → ℕ → Memory → Memory
set_from zero i dst c m = m
set_from (suc k) i dst c m = set_from k (i + 1) dst c (update m (dst + i) (c % 256))

pub memset : ℕ → ℕ → ℕ → Memory → Memory
unfolding set_from
memset dst c n m = set_from n 0 dst c m

-- `while(n-- > 0) { if(*s1 != *s2) return *s1 - *s2; s1++, s2++; }`
pub memcmp : ℕ → ℕ → ℕ → Memory → ℤ
memcmp s1 s2 zero m = pos 0
memcmp s1 s2 (suc n) m =
    let rest = memcmp (s1 + 1) (s2 + 1) n m in if m s1 == m s2 then rest else sub_ℕ (m s1) (m s2)

-- `while(n-- > 0) *d++ = *s++;`
pub move_up : ℕ → ℕ → ℕ → Memory → Memory
move_up zero d s m = m
move_up (suc n) d s m = move_up n (d + 1) (s + 1) (update m d (m s))

-- `while(n-- > 0) *--d = *--s;`
pub move_down : ℕ → ℕ → ℕ → Memory → Memory
move_down zero d s m = m
move_down (suc n) d s m = move_down n (d - 1) (s - 1) (update m (d - 1) (m (s - 1)))

pub memmove : ℕ → ℕ → ℕ → Memory → Memory
unfolding move_up move_down
memmove dst src n m =
    if ltb src dst && ltb dst (src + n)
    then move_down n (dst + n) (src + n) m
    else move_up n dst src m

pub memcpy : ℕ → ℕ → ℕ → Memory → Memory
unfolding memmove
memcpy dst src n m = memmove dst src n m

-- `while(n > 0 && *p && *p == *q) n--, p++, q++;` and the two returns after it.
pub strncmp : ℕ → ℕ → ℕ → Memory → ℤ
strncmp p q zero m = pos 0
strncmp p q (suc n) m =
    let rest = strncmp (p + 1) (q + 1) n m in
    if not (m p == 0) && (m p == m q) then rest else sub_ℕ (m p) (m q)

-- `while(n-- > 0) *s++ = 0;`
pub fill_zero : ℕ → ℕ → Memory → Memory
fill_zero zero s m = m
fill_zero (suc n) s m = fill_zero n (s + 1) (update m s 0)

-- `while(n-- > 0 && (*s++ = *t++) != 0) ;` and the loop after it.
pub strncpy : ℕ → ℕ → ℕ → Memory → Memory
unfolding fill_zero
strncpy s t zero m = m
strncpy s t (suc n) m =
    let m' = update m s (m t) in
    let rest = strncpy (s + 1) (t + 1) n m' in if m t == 0 then fill_zero n (s + 1) m' else rest

-- `while(--n > 0 && (*s++ = *t++) != 0) ; *s = 0;`, for `n` as it is after the first `--n`.
pub safe_from : ℕ → ℕ → ℕ → Memory → Memory
safe_from s t zero m = update m s 0
safe_from s t (suc n) m =
    let m' = update m s (m t) in
    let rest = safe_from (s + 1) (t + 1) n m' in if m t == 0 then update m' (s + 1) 0 else rest

-- A size that is not positive is 0 here.
pub safestrcpy : ℕ → ℕ → ℕ → Memory → Memory
unfolding safe_from
safestrcpy s t zero m = m
safestrcpy s t (suc n) m = safe_from s t n m

-- `for(n = 0; s[n]; n++) ;`
pub strlen_from : ℕ → ℕ → ℕ → Memory → Option ℕ
strlen_from zero s n m = none
strlen_from (suc f) s n m =
    let rest = strlen_from f s (n + 1) m in if m (s + n) == 0 then some n else rest

pub strlen : ℕ → ℕ → Memory → Option ℕ
unfolding strlen_from
strlen fuel s m = strlen_from fuel s 0 m
