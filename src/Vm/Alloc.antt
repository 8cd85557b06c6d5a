-- ===== src/Vm/Alloc.antt =====
-- `uvmalloc`: it grows the process, or takes back what it has mapped.
use mit6s.Base.{ℕ, ◌+◌, ◌*◌, ◌%◌, ◌≤◌, ◌<◌, ◌≡◌, ◌⊎◌, true, Option, none, some}
use mit6s.Kalloc.{page_size, Kmem}
use mit6s.Vm.Walk.{max_va, is_valid}
use mit6s.Vm.Store.{Space, mapped}
use mit6s.Vm.Unmaps.{RangeFreed}
use mit6s.Vm.GrowEnd.{Unchanged, GrowEnd}
use mit6s.Vm.Growth.{Grown}

-- The first `k` pages from `start` on are not mapped, every other page has the entry that it had,
-- and what was held as data is held. The `k` pages had been mapped in a memory `p`; the round that
-- failed left entries and the front of the free list as in `p`; then the memory of the `k` pages has
-- been put on the free list.
pub record Restored (end root start k : ℕ) (s : Kmem) (a : Space end root s) (t : Kmem)
    : Type 0 where
  pub space : Space end root t
  pub inside :
      (va : ℕ) → va < max_va → start ≤ va → va < start + k * page_size → mapped t root va ≡ 0
  pub outside :
      (va : ℕ)
      → va < max_va
      → (va < start) ⊎ (start + k * page_size ≤ va)
      → mapped t root va ≡ mapped s root va
  pub kept :
      (x : ℕ) → a.own x ≡ true → a.home x ≡ none → (space.own x ≡ true) × (space.home x ≡ none)
  pub given_back :
      (p : Kmem) × (u : Kmem) × (v : Space end root u) × Grown end root start k s a p
      × ((va : ℕ) → va < max_va → mapped u root va ≡ mapped p root va)
      × (u.freelist ≡ p.freelist)
      × RangeFreed end root start k u v t

-- How `uvmalloc` ends when it maps `n` pages from `start` on.
abbrev pub AllocEnd :
    (end root start n newsz : ℕ) (s : Kmem) → Space end root s → Option (ℕ × Kmem) → Type 0
AllocEnd end root start n newsz s a none =
    (k : ℕ) × (k < n) × (is_valid (mapped s root (start + k * page_size)) ≡ true)
AllocEnd end root start n newsz s a (some (r, t)) =
    ((r ≡ newsz) × Grown end root start n s a t)
    ⊎ ((r ≡ 0) × ((k : ℕ) × (k < n) × Restored end root start k s a t))

module _ (end root start k : ℕ) (s : Kmem) (a : Space end root s) (t : Kmem)
    (al : start % page_size ≡ 0) (b : start + k * page_size ≤ max_va)
    (w : Grown end root start k s a t) (u : Kmem) (c : Unchanged end root t (w.space) u) where
  abbrev v : Space end root u
  v = c.0.0
