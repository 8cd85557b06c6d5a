-- ===== src/Vm/Maps.antt =====
-- kernel/vm.c: `mappages`, `kvmmap`, `uvmunmap`, `uvminit`, `uvmalloc`, `uvmdealloc`, `uvmcopy`,
-- `freewalk` and `uvmfree`. The permissions are numbers of ten bits, so that `|` of them and an
-- entry's page number is a sum.
use mit6s.Base.{
  ℕ, zero, suc, ◌+◌, ◌-◌, ◌*◌, ◌/◌, ◌%◌, ◌^◌, Bool, true, false, not, ◌&&◌, ◌||◌, Option, none,
  some, ◌==◌, leb, ltb, if◌then◌else◌, ℤ, pos, minus_one, u64,
}
use mit6s.Kalloc.{page_size, Kmem, kalloc, kfree, page_round_up}
use mit6s.Vm.Walk.{pa2pte, pte2pa, pte_flags, is_valid, store, clear_page, walk}

-- `PTE_W|PTE_X|PTE_R|PTE_U`
abbrev pub user_rwx : ℕ
user_rwx = 30

-- `PGROUNDDOWN(a)`
abbrev pub page_round_down : ℕ → ℕ
page_round_down a = a / page_size * page_size

-- `PA2PTE(pa) | perm | PTE_V`
abbrev pub leaf_entry : ℕ → ℕ → ℕ
leaf_entry pa perm = pa2pte pa + perm / 2 * 2 + 1

-- What a round of `mappages` does with the answer of `walk`: none is the panic, false inside it
-- the failure.
abbrev pub set_leaf : ℕ → ℕ → Kmem → Option (Bool × Kmem)
set_leaf w pte t =
    if pte == 0
    then some (false, t)
    else if is_valid (t.mem pte)
    then none
    else some (true, store pte w t)

-- One round of `mappages`.
unfoldable pub map_page : ℕ → ℕ → ℕ → ℕ → Kmem → Option (Bool × Kmem)
map_page pagetable a pa perm s = elim (walk true pagetable a s) [
  | none ↦ none
  | some (pte, t) ↦ set_leaf (leaf_entry pa perm) pte t
]

-- What `mappages` does after a round, with `rest` for the rounds that follow.
abbrev pub map_next : (Kmem → Option (ℤ × Kmem)) → Bool → Option (Bool × Kmem) → Option (ℤ × Kmem)
map_next rest is_last none = none
map_next rest is_last (some (false, t)) = some (minus_one, t)
map_next rest is_last (some (true, t)) = if is_last then some (pos 0, t) else rest t

-- The loop of `mappages`; none is a panic, or the end of the fuel.
unfoldable pub map_from : ℕ → ℕ → ℕ → ℕ → ℕ → ℕ → Kmem → Option (ℤ × Kmem)
map_from zero pagetable a last pa perm s = none
map_from (suc fuel) pagetable a last pa perm s =
    map_next (λ t. map_from fuel pagetable (u64 (a + page_size)) last (u64 (pa + page_size)) perm t)
      (a == last) (map_page pagetable a pa perm s)

-- `mappages(pagetable, va, size, pa, perm)`
unfoldable pub mappages : ℕ → ℕ → ℕ → ℕ → ℕ → ℕ → Kmem → Option (ℤ × Kmem)
mappages fuel pagetable va size pa perm s =
    map_from fuel pagetable (page_round_down va) (page_round_down (u64 (va + size + 2 ^ 64 - 1))) pa
      perm s

-- `kvmmap(va, pa, sz, perm)`, with the kernel's page table as an argument.
unfoldable pub kvmmap : ℕ → ℕ → ℕ → ℕ → ℕ → ℕ → Kmem → Option Kmem
kvmmap fuel kernel_pagetable va pa sz perm s =
    elim (mappages fuel kernel_pagetable va sz pa perm s) [
      | none ↦ none
      | some (pos zero, t) ↦ some t
      | some (_, t) ↦ none
    ]

-- `if(do_free) kfree(pa)`
abbrev pub free_page : ℕ → Bool → ℕ → Kmem → Option Kmem
free_page end true pa s = kfree end pa s
free_page end false pa s = some s

-- What a round of `uvmunmap` does with the answer of `walk`.
abbrev pub clear_leaf : ℕ → Bool → ℕ → Kmem → Option Kmem
clear_leaf end do_free pte s =
    if pte == 0 || not (is_valid (s.mem pte)) || pte_flags (s.mem pte) == 1
    then none
    else elim (free_page end do_free (pte2pa (s.mem pte)) s) [
      | none ↦ none
      | some u ↦ some (store pte 0 u)
    ]

-- One round of `uvmunmap`.
unfoldable pub unmap_page : ℕ → Bool → ℕ → ℕ → Kmem → Option Kmem
unmap_page end do_free pagetable a s = elim (walk false pagetable a s) [
  | none ↦ none
  | some (pte, t) ↦ clear_leaf end do_free pte s
]

-- `npages` rounds of `uvmunmap` from address `a` on.
unfoldable pub unmap_from : ℕ → Bool → ℕ → ℕ → ℕ → Kmem → Option Kmem
unmap_from end do_free zero pagetable a s = some s
unmap_from end do_free (suc n) pagetable a s = elim (unmap_page end do_free pagetable a s) [
  | none ↦ none
  | some t ↦ unmap_from end do_free n pagetable (a + page_size) t
]

-- `uvmunmap(pagetable, va, npages, do_free)`, with `va + npages * PGSIZE` below `2 ^ 64`.
unfoldable pub uvmunmap : ℕ → Bool → ℕ → ℕ → ℕ → Kmem → Option Kmem
uvmunmap end do_free pagetable va npages s =
    if not (va % page_size == 0) then none else unmap_from end do_free npages pagetable va s

-- `memmove(mem, src, PGSIZE)` of a page.
abbrev pub copy_page : ℕ → ℕ → Kmem → Kmem
copy_page dst src s = record s {
  mem = λ a. if leb dst a && ltb a (dst + page_size) then s.mem (src + (a - dst)) else s.mem a;
}

-- `uvmdealloc(pagetable, oldsz, newsz)`
unfoldable pub uvmdealloc : ℕ → ℕ → ℕ → ℕ → Kmem → Option (ℕ × Kmem)
uvmdealloc end pagetable oldsz newsz s =
    let npages = (page_round_up oldsz - page_round_up newsz) / page_size in
    if leb oldsz newsz
    then some (oldsz, s)
    else if ltb (page_round_up newsz) (page_round_up oldsz)
    then elim (uvmunmap end true pagetable (page_round_up newsz) npages s) [
      | none ↦ none
      | some t ↦ some (newsz, t)
    ]
    else some (newsz, s)

-- `uvmdealloc(pagetable, a, oldsz); return 0;`
abbrev pub give_up : ℕ → ℕ → ℕ → ℕ → Kmem → Option (ℕ × Kmem)
give_up end pagetable a oldsz s = elim (uvmdealloc end pagetable a oldsz s) [
  | none ↦ none
  | some (_, t) ↦ some (0, t)
]

-- What `uvmalloc` does with the answer of `mappages` for the page `r`: false is the failure, after
-- `kfree(mem)`.
abbrev pub grow_next : ℕ → ℕ → Option (ℤ × Kmem) → Option (Bool × Kmem)
grow_next end r none = none
grow_next end r (some (pos zero, u)) = some (true, u)
grow_next end r (some (_, u)) = elim (kfree end r u) [ none ↦ none | some v ↦ some (false, v) ]

-- The body of `uvmalloc`'s loop once `kalloc` has returned `r`: none is a panic, false inside it
-- the failure that ends the loop.
unfoldable pub grow_page : ℕ → ℕ → ℕ → ℕ → Kmem → Option (Bool × Kmem)
grow_page end pagetable a r t =
    if r == 0
    then some (false, t)
    else grow_next end r (mappages 1 pagetable a page_size r user_rwx (clear_page r t))

-- What `uvmalloc` does after a round: `more` for the rounds that follow, `less` on the failure.
abbrev pub alloc_next :
    (Kmem → Option (ℕ × Kmem))
    → (Kmem → Option (ℕ × Kmem))
    → Option (Bool × Kmem)
    → Option (ℕ × Kmem)
alloc_next more less none = none
alloc_next more less (some (false, u)) = less u
alloc_next more less (some (true, u)) = more u

-- The loop of `uvmalloc`, for the `n` pages from `a` on.
unfoldable pub grow_from : ℕ → ℕ → ℕ → ℕ → ℕ → ℕ → Kmem → Option (ℕ × Kmem)
grow_from end zero pagetable a oldsz newsz s = some (newsz, s)
grow_from end (suc n) pagetable a oldsz newsz s =
    let (r, t) = kalloc s in
    alloc_next (grow_from end n pagetable (a + page_size) oldsz newsz)
      (give_up end pagetable a oldsz) (grow_page end pagetable a r t)

-- `uvmalloc(pagetable, oldsz, newsz)`
unfoldable pub uvmalloc : ℕ → ℕ → ℕ → ℕ → Kmem → Option (ℕ × Kmem)
uvmalloc end pagetable oldsz newsz s =
    let start = page_round_up oldsz in
    if ltb newsz oldsz
    then some (oldsz, s)
    else grow_from end ((newsz + page_size - 1 - start) / page_size) pagetable start start newsz s
