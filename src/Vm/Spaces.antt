-- ===== src/Vm/Spaces.antt =====
-- kernel/vm.c: `uvmcopy`, `freewalk` and `uvmfree`.
use mit6s.Base.{
  ℕ, zero, suc, ◌+◌, ◌-◌, ◌/◌, ◌%◌, Bool, true, false, not, ◌&&◌, ◌||◌, Option, none, some, ◌==◌,
  ltb, if◌then◌else◌, ℤ, pos, minus_one,
}
use mit6s.Kalloc.{page_size, Kmem, kalloc, kfree, page_round_up}
use mit6s.Vm.Walk.{pte2pa, pte_flags, is_valid, slot, store, walk}
use mit6s.Vm.Maps.{mappages, uvmunmap, copy_page}

-- What the loop of `uvmcopy` has come to: every page copied, or `goto err` at address `i`.
pub data Copied : Type 0 where
  all_copied : Kmem → Copied
  err_at : ℕ → Kmem → Copied

-- One round of `uvmcopy`: none is a panic, false inside it is `goto err`.
unfoldable pub copy_entry : ℕ → ℕ → ℕ → ℕ → Kmem → Option (Bool × Kmem)
copy_entry end old new i s = elim (walk false old i s) [
  | none ↦ none
  | some (pte, u) ↦
      let w = s.mem pte in
      let (mem, t) = kalloc s in
      if pte == 0 || not (is_valid w)
      then none
      else if mem == 0
      then some (false, t)
      else elim (mappages 1 new i page_size mem (pte_flags w) (copy_page mem (pte2pa w) t)) [
        | none ↦ none
        | some (pos zero, v) ↦ some (true, v)
        | some (_, v) ↦ elim (kfree end mem v) [ none ↦ none | some x ↦ some (false, x) ]
      ]
]

-- The loop of `uvmcopy`, for the `n` pages from `i` on.
unfoldable pub copy_from : ℕ → ℕ → ℕ → ℕ → ℕ → Kmem → Option Copied
copy_from end zero old new i s = some (all_copied s)
copy_from end (suc n) old new i s = elim (copy_entry end old new i s) [
  | none ↦ none
  | some (false, t) ↦ some (err_at i t)
  | some (true, t) ↦ copy_from end n old new (i + page_size) t
]

-- `uvmcopy(old, new, sz)`
unfoldable pub uvmcopy : ℕ → ℕ → ℕ → ℕ → Kmem → Option (ℤ × Kmem)
uvmcopy end old new sz s = elim (copy_from end ((sz + page_size - 1) / page_size) old new 0 s) [
  | none ↦ none
  | some (all_copied t) ↦ some (pos 0, t)
  | some (err_at i t) ↦ elim (uvmunmap end true new 0 (i / page_size) t) [
    | none ↦ none
    | some u ↦ some (minus_one, u)
  ]
]

-- `pte & (PTE_R|PTE_W|PTE_X)` is not 0.
abbrev pub is_leaf : ℕ → Bool
is_leaf pte = not (pte / 2 % 8 == 0)

-- The loop of `freewalk` over the `n` entries from `i` on, with `free` for the call of itself.
unfoldable pub free_entries : (ℕ → Kmem → Option Kmem) → ℕ → ℕ → ℕ → Kmem → Option Kmem
free_entries free zero pagetable i s = some s
free_entries free (suc n) pagetable i s =
    let pte = s.mem (slot pagetable i) in
    if is_valid pte && not (is_leaf pte)
    then elim (free (pte2pa pte) s) [
      | none ↦ none
      | some t ↦ free_entries free n pagetable (i + 1) (store (slot pagetable i) 0 t)
    ]
    else if is_valid pte
    then none
    else free_entries free n pagetable (i + 1) s

-- `freewalk(pagetable)` for a tree of at most `depth` levels; none is a panic, or a deeper tree.
unfoldable pub freewalk : ℕ → ℕ → ℕ → Kmem → Option Kmem
freewalk zero end pagetable s = none
freewalk (suc depth) end pagetable s = elim (free_entries (freewalk depth end) 512 pagetable 0 s) [
  | none ↦ none
  | some t ↦ kfree end pagetable t
]

-- `uvmfree(pagetable, sz)`
unfoldable pub uvmfree : ℕ → ℕ → ℕ → Kmem → Option Kmem
uvmfree end pagetable sz s =
    let unmapped =
      if ltb 0 sz then uvmunmap end true pagetable 0 (page_round_up sz / page_size) s else some s in
    elim unmapped [ none ↦ none | some t ↦ freewalk 3 end pagetable t ]
