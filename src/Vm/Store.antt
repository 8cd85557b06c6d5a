-- ===== src/Vm/Store.antt =====
-- A word written into an entry of the last level: the entry of one page changes, and no other.
use mit6s.Base.{
  ℕ, suc, ◌/◌, ◌<◌, ◌≡◌, ◌≢◌, inl, inr, refl, sym, ap, ◌∙◌, arith, Bool, some, some_inj,
  update_self, update_ne, Option-cases,
}
use mit6s.Kalloc.{Kmem}
use mit6s.Kalloc.Pages.{page_apart}
use mit6s.Vm.Walk.{max_va, px, pte2pa, is_valid, slot, store}
use mit6s.Vm.Index.{prefix, px-lt, px_page, same_page, slot_inj}
use mit6s.Vm.Shape.{
  table, word_in, entry, Home, Shaped, home-Page, table-home, table_same, last-apart, table_page,
}
use mit6s.Vm.Attach.{Sound-mem, Sound-mem_list}

-- A page table with its root: what the pages of the memory are for is known.
pub record Space (end root : ℕ) (s : Kmem) : Type 0 where
  pub home : Home
  pub own : ℕ → Bool
  pub shaped : Shaped end home own s
  pub at_root : home root ≡ some (2, 0)

-- The entry of the page of `va`, 0 where it has none: what a page table stands for.
abbrev pub mapped : Kmem → ℕ → ℕ → ℕ
mapped s root va = entry 2 s.mem root va

pub root-prefix :
    (home : Home) (root va : ℕ)
    → va < max_va
    → home root ≡ some (2, 0)
    → home root ≡ some (2, prefix 2 va)
root-prefix home root va lt h = h ∙ ap (λ p. some (2, p)) (omega arith)

module _ (end root x va v : ℕ) {home : Home} {own : ℕ → Bool} {s : Kmem} (d : Shaped end home own s)
    (h : home x ≡ some (0, prefix 0 va)) where
  abbrev written : Kmem
  written = store (slot x (px 0 va)) v s

  upper-kept :
      (y l p i : ℕ) → home y ≡ some (suc l, p) → i < 512 → written.mem (slot y i) ≡ s.mem (slot y i)
  upper-kept y l p i hy hi =
      update_ne s.mem (slot x (px 0 va)) v (slot y i)
        (last-apart end d x (prefix 0 va) (px 0 va) y l p i h hy (px-lt 0 va) hi)

  pub written-Shaped : Shaped end home own written
  written-Shaped = record {
    child = λ y l p i hy hi w.
        let e = upper-kept y l p i hy hi in
        ap (λ b. home (pte2pa b)) e ∙ d.child y l p i hy hi (sym (ap is_valid e) ∙ w);
    held = d.held;
    sound =
        Sound-mem end own s written.mem
          (λ y py fy. update_ne s.mem (slot x (px 0 va)) v y (λ q.
            page_apart x y (slot x (px 0 va)) ((home-Page end d h).1) (py.1)
              (λ e. cc (ap own e, d.held x 0 (prefix 0 va) h, fy)) (omega arith)
              (omega (arith, px-lt 0 va)) (sym q)))
          (d.sound);
  }

  pub written-list : written-Shaped.sound.free ≡ d.sound.free
  unfolding written-Shaped
  written-list = Sound-mem_list end own s written.mem _ (d.sound)

  -- The page of `va` has the new entry.
  pub mapped-here :
      (va' : ℕ)
      → va' < max_va
      → va / 4096 ≡ va' / 4096
      → home root ≡ some (2, 0)
      → table 2 s.mem root va ≡ some x
      → mapped written root va' ≡ v
  mapped-here va' lt e r tx =
      let e2 =
        table_same end d written.mem upper-kept 2 root va' (omega arith)
          (root-prefix home root va' lt r)
        ∙ sym (table_page s.mem 2 root va va' (omega arith) e)
        ∙ tx in
      ap (word_in written.mem va') e2
      ∙ ap (λ i. written.mem (slot x i)) (sym (px_page 0 va va' (omega arith) e))
      ∙ update_self s.mem (slot x (px 0 va)) v

  -- Any other page keeps its entry.
  pub mapped-other :
      (va' : ℕ)
      → va' < max_va
      → va / 4096 ≢ va' / 4096
      → home root ≡ some (2, 0)
      → mapped written root va' ≡ mapped s root va'
  mapped-other va' lt ne r =
      let up = root-prefix home root va' lt r in
      let e = table_same end d written.mem upper-kept 2 root va' (omega arith) up in
      ap (word_in written.mem va') e ∙ elim (Option-cases (table 2 s.mem root va')) [
        | inl n ↦ rw n refl
        | inr (y, ty) ↦
            let hy = table-home end d 2 root va' y (omega arith) up ty in
            let apart : slot x (px 0 va) ≢ slot y (px 0 va') = λ q.
              let (xy, ii) =
                slot_inj x y (px 0 va) (px 0 va') ((home-Page end d h).1) ((home-Page end d hy).1)
                  (px-lt 0 va) (px-lt 0 va') q in
              ne (same_page va va' (ap (λ n. n.1) (some_inj (sym h ∙ ap home xy ∙ hy))) ii) in
            rw ty (update_ne s.mem (slot x (px 0 va)) v (slot y (px 0 va')) apart)
      ]
