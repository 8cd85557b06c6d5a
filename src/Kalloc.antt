-- ===== src/Kalloc.antt =====
-- kernel/kalloc.c: the allocator of physical pages. Memory is the 64-bit words at addresses that
-- are multiples of 8, as a function of the address; the free list runs through the first words of the
-- free pages. The first address after the kernel, which the linker sets, is an argument.
pub mod Pages
pub mod Owners
pub mod Init
mod Examples
use mit6s.Base.{
  ℕ, zero, suc, ◌+◌, ◌-◌, ◌*◌, ◌/◌, ◌%◌, Bool, true, false, not, ◌&&◌, ◌||◌, Option, none, some,
  ltb, leb, ◌==◌, if◌then◌else◌, update,
}

abbrev pub page_size : ℕ
page_size = 4096

-- `PHYSTOP`
abbrev pub phys_stop : ℕ
phys_stop = 2281701376

-- `kmem`, and the memory.
pub record Kmem : Type 0 where
  pub lock : Bool
  pub freelist : ℕ
  pub mem : ℕ → ℕ

-- `memset(pa, c, PGSIZE)`, for the word `w` of eight bytes `c`.
abbrev pub fill : ℕ → ℕ → (ℕ → ℕ) → ℕ → ℕ
fill pa w m a = if leb pa a && ltb a (pa + page_size) then w else m a

-- Eight bytes 1, and eight bytes 5.
abbrev pub freed_junk : ℕ
freed_junk = 72340172838076673

abbrev pub fresh_junk : ℕ
fresh_junk = 361700864190383365

-- `kfree(pa)`; none is the panic.
unfoldable pub kfree : ℕ → ℕ → Kmem → Option Kmem
kfree end pa s =
    if not (pa % page_size == 0) || (ltb pa end || leb phys_stop pa)
    then none
    else some (record s {
      lock = false;
      mem = update (fill pa freed_junk s.mem) pa s.freelist;
      freelist = pa;
    })

-- `kalloc()`; 0 is the null pointer.
unfoldable pub kalloc : Kmem → ℕ × Kmem
kalloc s =
    let r = s.freelist in
    if r == 0
    then (0, record s { lock = false })
    else (r, record s { lock = false; freelist = s.mem r; mem = fill r fresh_junk s.mem })

-- The loop of `freerange` from page `p` on; none is a panic, or the end of the fuel.
pub freerange_from : ℕ → ℕ → ℕ → ℕ → Kmem → Option Kmem
freerange_from zero end p pa_end s = none
freerange_from (suc fuel) end p pa_end s =
    if leb (p + page_size) pa_end
    then elim (kfree end p s) [
      | none ↦ none
      | some t ↦ freerange_from fuel end (p + page_size) pa_end t
    ]
    else some s

-- `PGROUNDUP(a)`
abbrev pub page_round_up : ℕ → ℕ
page_round_up a = (a + page_size - 1) / page_size * page_size

pub freerange : ℕ → ℕ → ℕ → ℕ → Kmem → Option Kmem
freerange fuel end pa_start pa_end s = freerange_from fuel end (page_round_up pa_start) pa_end s

pub kinit : ℕ → ℕ → Kmem → Option Kmem
kinit fuel end s = freerange fuel end end phys_stop (record s { lock = false })
