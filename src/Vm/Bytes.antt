-- ===== src/Vm/Bytes.antt =====
-- kernel/vm.c: `uvminit`, `copyout`, `copyin` and `copyinstr`. A word of the memory is eight bytes,
-- the lowest first. The kernel's buffer is a list of bytes: the one to copy from, or the bytes
-- that have been copied to it.
use mit6s.Base.{
  ℕ, zero, suc, ◌+◌, ◌-◌, ◌*◌, ◌/◌, ◌%◌, ◌^◌, Bool, true, false, Option, none, some, ◌==◌, leb, ltb,
  if◌then◌else◌, ℤ, pos, minus_one, List, [], ◌∷◌, ◌++◌, length, take, drop, u64,
}
use mit6s.Kalloc.{page_size, Kmem, kalloc}
use mit6s.Vm.Walk.{store, clear_page, walkaddr}
use mit6s.Vm.Maps.{user_rwx, page_round_down, mappages}

-- The byte at address `a`.
abbrev pub get_byte : Kmem → ℕ → ℕ
get_byte s a = s.mem (a / 8 * 8) / 256 ^ (a % 8) % 256

-- The word `w` with the byte `b` in place of byte `k`.
abbrev pub set_byte : ℕ → ℕ → ℕ → ℕ
set_byte w k b = w / 256 ^ (k + 1) * 256 ^ (k + 1) + b * 256 ^ k + w % 256 ^ k

abbrev pub put_byte : ℕ → ℕ → Kmem → Kmem
put_byte a b s = store (a / 8 * 8) (set_byte (s.mem (a / 8 * 8)) (a % 8) b) s

-- `memmove` of the bytes `src` to address `dst`, and of `n` bytes at `src` to a buffer.
unfoldable pub put_bytes : ℕ → List ℕ → Kmem → Kmem
put_bytes dst [] s = s
put_bytes dst (b ∷ bs) s = put_bytes (dst + 1) bs (put_byte dst b s)

unfoldable pub get_bytes : ℕ → ℕ → Kmem → List ℕ
get_bytes zero src s = []
get_bytes (suc n) src s = get_byte s src ∷ get_bytes n (src + 1) s

-- `n = PGSIZE - (va - va0); if(n > len) n = len;`
abbrev pub chunk : ℕ → ℕ → ℕ
chunk va len = let n = page_size - (va - page_round_down va) in if ltb len n then len else n

-- The physical address of `va`, given its page's.
abbrev pub in_page : ℕ → ℕ → ℕ
in_page pa0 va = pa0 + (va - page_round_down va)

-- `copyout`; none is the end of the fuel.
unfoldable pub copyout_from : ℕ → ℕ → ℕ → List ℕ → Kmem → Option (ℤ × Kmem)
copyout_from fuel pagetable dstva [] s = some (pos 0, s)
copyout_from zero pagetable dstva (b ∷ bs) s = none
copyout_from (suc fuel) pagetable dstva (b ∷ bs) s =
    let src = b ∷ bs in
    let pa0 = walkaddr pagetable (page_round_down dstva) s in
    let n = chunk dstva (length src) in
    let rest =
      copyout_from fuel pagetable (u64 (page_round_down dstva + page_size)) (drop n src)
        (put_bytes (in_page pa0 dstva) (take n src) s) in
    if pa0 == 0 then some (minus_one, s) else rest

-- `copyout(pagetable, dstva, src, len)`: every round copies a byte at least.
unfoldable pub copyout : ℕ → ℕ → List ℕ → Kmem → Option (ℤ × Kmem)
copyout pagetable dstva src s = copyout_from (length src) pagetable dstva src s

-- The answer of `copyin`, and what stands in the buffer behind the bytes copied before.
abbrev pub behind : List ℕ → Option (ℤ × List ℕ) → Option (ℤ × List ℕ)
behind xs none = none
behind xs (some (r, ys)) = some (r, xs ++ ys)

unfoldable pub copyin_from : ℕ → ℕ → ℕ → ℕ → Kmem → Option (ℤ × List ℕ)
copyin_from fuel pagetable srcva zero s = some (pos 0, [])
copyin_from zero pagetable srcva (suc len) s = none
copyin_from (suc fuel) pagetable srcva (suc len) s =
    let pa0 = walkaddr pagetable (page_round_down srcva) s in
    let n = chunk srcva (suc len) in
    let rest =
      copyin_from fuel pagetable (u64 (page_round_down srcva + page_size)) (suc len - n) s in
    if pa0 == 0 then some (minus_one, []) else behind (get_bytes n (in_page pa0 srcva) s) rest

-- `copyin(pagetable, dst, srcva, len)`
unfoldable pub copyin : ℕ → ℕ → ℕ → Kmem → Option (ℤ × List ℕ)
copyin pagetable srcva len s = copyin_from len pagetable srcva len s

-- The inner loop of `copyinstr`, over `n` bytes at `p`: `got_null`, and the bytes stored.
unfoldable pub string_bytes : ℕ → ℕ → Kmem → Bool × List ℕ
string_bytes zero p s = (false, [])
string_bytes (suc n) p s =
    let (got_null, bs) = string_bytes n (p + 1) s in
    if get_byte s p == 0 then (true, 0 ∷ []) else (got_null, get_byte s p ∷ bs)

-- The outer loop of `copyinstr`.
unfoldable pub copyinstr_from : ℕ → ℕ → ℕ → ℕ → Kmem → Option (ℤ × List ℕ)
copyinstr_from fuel pagetable srcva zero s = some (minus_one, [])
copyinstr_from zero pagetable srcva (suc max) s = none
copyinstr_from (suc fuel) pagetable srcva (suc max) s =
    let pa0 = walkaddr pagetable (page_round_down srcva) s in
    let n = chunk srcva (suc max) in
    let (got_null, bs) = string_bytes n (in_page pa0 srcva) s in
    let rest =
      copyinstr_from fuel pagetable (u64 (page_round_down srcva + page_size)) (suc max - n) s in
    if pa0 == 0 then some (minus_one, []) else if got_null then some (pos 0, bs) else behind bs rest

-- `copyinstr(pagetable, dst, srcva, max)`
unfoldable pub copyinstr : ℕ → ℕ → ℕ → Kmem → Option (ℤ × List ℕ)
copyinstr pagetable srcva max s = copyinstr_from max pagetable srcva max s

-- `uvminit(pagetable, src, sz)`; none is a panic. The code tests neither `kalloc` nor `mappages`.
unfoldable pub uvminit : ℕ → List ℕ → Kmem → Option Kmem
uvminit pagetable src s =
    let (mem, t) = kalloc s in
    if leb page_size (length src)
    then none
    else elim (mappages 1 pagetable 0 page_size mem user_rwx (clear_page mem t)) [
      | none ↦ none
      | some (r, u) ↦ some (put_bytes mem src u)
    ]
