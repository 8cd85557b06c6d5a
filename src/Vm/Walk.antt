-- ===== src/Vm/Walk.antt =====
-- kernel/vm.c: `walk`, `walkaddr`, `kvmpa`, `uvmclear` and `uvmcreate`, and the macros of
-- kernel/riscv.h on page-table entries.
use mit6s.Base.{
  ℕ, zero, suc, ◌+◌, ◌-◌, ◌*◌, ◌/◌, ◌%◌, ◌^◌, Bool, false, not, Option, none, some, ◌==◌, leb,
  if◌then◌else◌, update, u64,
}
use mit6s.Kalloc.{page_size, Kmem, fill, kalloc}

-- `MAXVA`
abbrev pub max_va : ℕ
max_va = 2 ^ 38

-- `PX(level, va)`
abbrev pub px : ℕ → ℕ → ℕ
px level va = va / 2 ^ (12 + 9 * level) % 512

-- `PA2PTE(pa)`
abbrev pub pa2pte : ℕ → ℕ
pa2pte pa = u64 (pa / 2 ^ 12 * 2 ^ 10)

-- `PTE2PA(pte)`
abbrev pub pte2pa : ℕ → ℕ
pte2pa pte = u64 (pte / 2 ^ 10 * 2 ^ 12)

-- `PTE_FLAGS(pte)`
abbrev pub pte_flags : ℕ → ℕ
pte_flags pte = pte % 1024

-- `pte & PTE_V`
abbrev pub is_valid : ℕ → Bool
is_valid pte = pte % 2 == 1

-- `pte & PTE_U`
abbrev pub is_user : ℕ → Bool
is_user pte = pte / 16 % 2 == 1

-- The address of entry `i` of a page table.
abbrev pub slot : ℕ → ℕ → ℕ
slot pagetable i = pagetable + 8 * i

abbrev pub store : ℕ → ℕ → Kmem → Kmem
store a v s = record s { mem = update s.mem a v }

-- `memset(pa, 0, PGSIZE)`
abbrev pub clear_page : ℕ → Kmem → Kmem
clear_page pa s = record s { mem = fill pa 0 s.mem }

-- The new page-table page `r` is cleared, and the entry at `pte` is made to point to it.
abbrev pub attach : ℕ → ℕ → Kmem → Kmem
attach pte r s = store pte (pa2pte r + 1) (clear_page r s)

-- The loop of `walk` from `level` on: the address of the last level's entry, or 0.
unfoldable pub walk_from : ℕ → Bool → ℕ → ℕ → Kmem → ℕ × Kmem
walk_from zero alloc pagetable va s = (slot pagetable (px 0 va), s)
walk_from (suc l) alloc pagetable va s =
    let pte = slot pagetable (px (suc l) va) in
    let (r, t) = kalloc s in
    let known = walk_from l alloc (pte2pa (s.mem pte)) va s in
    let fresh = walk_from l alloc r va (attach pte r t) in
    if is_valid (s.mem pte)
    then known
    else if not alloc
    then (0, s)
    else if r == 0
    then (0, t)
    else fresh

-- `walk(pagetable, va, alloc)`; none is the panic.
unfoldable pub walk : Bool → ℕ → ℕ → Kmem → Option (ℕ × Kmem)
walk alloc pagetable va s = if leb max_va va then none else some (walk_from 2 alloc pagetable va s)

-- What `walkaddr` does with the entry at `pte`.
abbrev pub user_page : ℕ → ℕ → ℕ
user_page pte w =
    if pte == 0 then 0 else if not (is_valid w) then 0 else if not (is_user w) then 0 else pte2pa w

-- `walkaddr(pagetable, va)`
unfoldable pub walkaddr : ℕ → ℕ → Kmem → ℕ
walkaddr pagetable va s =
    if leb max_va va
    then 0
    else let pte = (walk_from 2 false pagetable va s).0 in user_page pte (s.mem pte)

-- `kvmpa(va)`, with the kernel's page table as an argument; none is a panic.
unfoldable pub kvmpa : ℕ → ℕ → Kmem → Option ℕ
kvmpa kernel_pagetable va s = elim (walk false kernel_pagetable va s) [
  | none ↦ none
  | some (pte, t) ↦
      if pte == 0
      then none
      else if not (is_valid (s.mem pte))
      then none
      else some (u64 (pte2pa (s.mem pte) + va % page_size))
]

-- `pte & ~PTE_U`
abbrev pub without_user : ℕ → ℕ
without_user pte = pte - pte / 16 % 2 * 16

-- `uvmclear(pagetable, va)`; none is a panic.
unfoldable pub uvmclear : ℕ → ℕ → Kmem → Option Kmem
uvmclear pagetable va s = elim (walk false pagetable va s) [
  | none ↦ none
  | some (pte, t) ↦ if pte == 0 then none else some (store pte (without_user (s.mem pte)) s)
]

-- `uvmcreate()`; 0 is the null pointer.
unfoldable pub uvmcreate : Kmem → ℕ × Kmem
uvmcreate s =
    let (pagetable, t) = kalloc s in
    if pagetable == 0 then (0, t) else (pagetable, clear_page pagetable t)
