-- ===== src/Vm/Unmap.antt =====
-- One round of `uvmunmap` that frees the page: the page's entry is cleared, its memory goes back
-- to the allocator, and the page tables stay as they are.
use mit6s.Base.{
  ◌∷◌, ℕ, suc, ◌<◌, ◌≡◌, ◌≢◌, inl, inr, refl, sym, ap, ◌∙◌, arith, Bool, true, false, none, some,
  ==_ne, update, update_ne,
}
use mit6s.Kalloc.{Kmem, fill, freed_junk, kfree}
use mit6s.Kalloc.Pages.{page_apart}
use mit6s.Kalloc.Owners.{Sound, freed-Sound, freed-list, freed, kfree-Page, outside}
use mit6s.Vm.Walk.{max_va, px, pte2pa, pte_flags, is_valid, slot, store, walk_from}
use mit6s.Vm.Maps.{clear_leaf, unmap_page}
use mit6s.Vm.Index.{prefix, px-lt}
use mit6s.Vm.Shape.{table, word_in, slot_in, home-Page, table_same, walk_known, walk_in}
use mit6s.Vm.Store.{
  Space, mapped, root-prefix, written-Shaped, written-list, mapped-here, mapped-other,
}
use mit6s.Vm.MapPage.{PageSet}
use mit6s.Vm.Lookup.{entry_found}

-- A change of the memory outside the page tables.
module _ (end root : ℕ) (s t : Kmem) (a : Space end root s) (own' : ℕ → Bool)
    (same : (x l p i : ℕ) → a.home x ≡ some (l, p) → i < 512 → t.mem (slot x i) ≡ s.mem (slot x i))
    (held' : (x l p : ℕ) → a.home x ≡ some (l, p) → own' x ≡ true)
    (g : Sound end (record { kmem = t; own = own' })) where
  abbrev pub kept-Space : Space end root t
  kept-Space = record {
    home = a.home;
    own = own';
    shaped = record {
      child = λ x l p i h hi v.
          let e = same x (suc l) p i h hi in
          ap (λ w. a.home (pte2pa w)) e ∙ a.shaped.child x l p i h hi (sym (ap is_valid e) ∙ v);
      held = held';
      sound = g;
    };
    at_root = a.at_root;
  }

  pub kept-table : (va : ℕ) → va < max_va → table 2 t.mem root va ≡ table 2 s.mem root va
  kept-table va lt =
      table_same end (a.shaped) t.mem (λ x l p i h hi. same x (suc l) p i h hi) 2 root va
        (omega arith) (root-prefix (a.home) root va lt (a.at_root))

  pub kept-mapped : (va : ℕ) → va < max_va → mapped t root va ≡ mapped s root va
  kept-mapped va lt = elim (entry_found end root s a va lt) [
    | inl (n, z) ↦ ap (word_in t.mem va) (kept-table va lt ∙ n) ∙ sym z
    | inr (x, tx, hx, ne, e) ↦
        ap (word_in t.mem va) (kept-table va lt ∙ tx)
        ∙ same x 0 (prefix 0 va) (px 0 va) hx (px-lt 0 va)
        ∙ e
  ]

-- A page that is held and is no page table is freed.
module _ (end root pa : ℕ) (s : Kmem) (a : Space end root s) (held : a.own pa ≡ true)
    (plain : a.home pa ≡ none) where
  pub freed_kept :
      (x l p i : ℕ)
      → a.home x ≡ some (l, p)
      → i < 512
      → (freed pa s).mem (slot x i) ≡ s.mem (slot x i)
  freed_kept x l p i h hi =
      let ne : pa ≢ x = λ q. cc (plain, h) in
      let al = (a.shaped.sound.pages pa held).1 in
      let ax = (home-Page end (a.shaped) h).1 in
      update_ne (fill pa freed_junk s.mem) pa s.freelist (slot x i)
        (λ q. page_apart x pa (slot x i) ax al (λ e. ne (sym e)) (omega arith) (omega arith) q)
      ∙ outside x pa (slot x i) freed_junk s.mem ax al ne (omega arith) (omega arith)

  pub freed_held : (x l p : ℕ) → a.home x ≡ some (l, p) → update a.own pa false x ≡ true
  freed_held x l p h = update_ne a.own pa false x (λ q. cc (plain, h)) ∙ a.shaped.held x l p h

  pub kfree-freed : kfree end pa s ≡ some (freed pa s)
  kfree-freed = kfree-Page end pa s (a.shaped.sound.pages pa held)

  pub freed_Sound : Sound end (record { kmem = freed pa s; own = update a.own pa false })
  freed_Sound = freed-Sound end pa (record { kmem = s; own = a.own }) held (a.shaped.sound)

  pub freed_Sound-list : freed_Sound.free ≡ pa ∷ a.shaped.sound.free
  unfolding freed_Sound
  freed_Sound-list = freed-list end pa (record { kmem = s; own = a.own }) held (a.shaped.sound)

  abbrev pub freed-Space : Space end root (freed pa s)
  freed-Space =
      kept-Space end root s (freed pa s) a (update a.own pa false) freed_kept freed_held freed_Sound

  pub freed-table :
      (va : ℕ) → va < max_va → table 2 (freed pa s).mem root va ≡ table 2 s.mem root va
  freed-table =
      kept-table end root s (freed pa s) a (update a.own pa false) freed_kept freed_held freed_Sound

  pub freed-mapped : (va : ℕ) → va < max_va → mapped (freed pa s) root va ≡ mapped s root va
  freed-mapped =
      kept-mapped end root s (freed pa s) a (update a.own pa false) freed_kept freed_held
        freed_Sound

-- The page of `va` is mapped, by a leaf, to a page that is held and is no page table.
pub record LeafAt (end root va : ℕ) (s : Kmem) (a : Space end root s) : Type 0 where
  pub valid : is_valid (mapped s root va) ≡ true
  pub leaf : pte_flags (mapped s root va) ≢ 1
  pub held : a.own (pte2pa (mapped s root va)) ≡ true
  pub plain : a.home (pte2pa (mapped s root va)) ≡ none

-- The page of `va` has been unmapped, and its memory is in front of the free list.
pub record PageFreed (end root va : ℕ) (s : Kmem) (a : Space end root s) (t : Kmem) : Type 0 where
  pub set : PageSet end root va 0 s t
  pub home_same : set.space.home ≡ a.home
  pub own_same : set.space.own ≡ update a.own (pte2pa (mapped s root va)) false
  pub list : set.space.shaped.sound.free ≡ pte2pa (mapped s root va) ∷ a.shaped.sound.free

module _ (end root va : ℕ) (s : Kmem) (a : Space end root s) (lt : va < max_va)
    (f : LeafAt end root va s a) where
  abbrev pa : ℕ
  pa = pte2pa (mapped s root va)

  unmap_page-walk :
      unmap_page end true root va s ≡ clear_leaf end true (slot_in va (table 2 s.mem root va)) s
  unfolding unmap_page
  unmap_page-walk =
      let e : unmap_page end true root va s
          ≡ clear_leaf end true (walk_from 2 false root va s).0 s =
        rw (walk_in false root va s lt, unmap_page) refl in
      e ∙ ap (λ r. clear_leaf end true r.0 s) (walk_known 2 root va s)

  clear_leaf-some :
      (p : ℕ)
      → p ≢ 0
      → s.mem p ≡ mapped s root va
      → clear_leaf end true p s ≡ some (store p 0 (freed pa s))
  clear_leaf-some p ne e =
      rw
        (
          e,
          ==_ne p 0 ne,
          f.valid,
          ==_ne (pte_flags (mapped s root va)) 1 (f.leaf),
          kfree-freed end root pa s a (f.held) (f.plain),
        )
        refl

  pub unmap_page-PageFreed :
      (t : Kmem) × (unmap_page end true root va s ≡ some t) × PageFreed end root va s a t
  unmap_page-PageFreed = elim (entry_found end root s a va lt) [
    | inl (n, z) ↦ absurd (ground (arith, f.valid))
    | inr (x, tx, hx, ne, e) ↦
        let p = slot x (px 0 va) in
        let u = freed pa s in
        let b = freed-Space end root pa s a (f.held) (f.plain) in
        let t = store p 0 u in
        let set : PageSet end root va 0 s t = record {
          space = record {
            home = a.home;
            own = update a.own pa false;
            shaped = written-Shaped end root x va 0 (b.shaped) hx;
            at_root = a.at_root;
          };
          at_page = λ va' l q.
              mapped-here end root x va 0 (b.shaped) hx va' l q (a.at_root)
                (freed-table end root pa s a (f.held) (f.plain) va lt ∙ tx);
          elsewhere = λ va' l q.
              mapped-other end root x va 0 (b.shaped) hx va' l q (a.at_root)
              ∙ freed-mapped end root pa s a (f.held) (f.plain) va' l;
        } in
        (
          t,
          unmap_page-walk
              ∙ ap (λ q. clear_leaf end true (slot_in va q) s) tx
              ∙ clear_leaf-some p ne e,
          record {
            set = set;
            home_same = refl;
            own_same = refl;
            list =
                written-list end root x va 0 (b.shaped) hx
                ∙ freed_Sound-list end root pa s a (f.held) (f.plain);
          },
        )
  ]
