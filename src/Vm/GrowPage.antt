-- ===== src/Vm/GrowPage.antt =====
-- One round of `uvmalloc`: a page is allocated, cleared and mapped, or given back.
use mit6s.Base.{
  ℕ, ◌+◌, ◌≤◌, ◌<◌, ◌≡◌, ◌≢◌, inl, inr, refl, ap, ◌∙◌, arith, true, false, ◌&&◌, none, some, ltb,
  leb, update, update_self, update_ne, Option-cases,
}
use mit6s.Kalloc.{page_size, Kmem}
use mit6s.Kalloc.Pages.{Page}
use mit6s.Kalloc.Owners.{Sound, Fresh, fill-other, outside}
use mit6s.Vm.Walk.{max_va, slot, clear_page}
use mit6s.Vm.Maps.{user_rwx, leaf_entry}
use mit6s.Vm.Attach.{Sound-mem}
use mit6s.Vm.Store.{Space, mapped}
use mit6s.Vm.MapPage.{PageSet, Kept}
use mit6s.Vm.Unmap.{kept-Space, kept-mapped}

-- The page `r` has been taken, cleared and mapped at `va`; it was in nobody's hands.
pub record PageGrown (end root va r : ℕ) (s : Kmem) (a : Space end root s) (t : Kmem) : Type 0 where
  pub set : PageSet end root va (leaf_entry r user_rwx) s t
  pub kept : Kept end root s t a (set.space)
  pub page : Page end r
  pub unowned : a.own r ≡ false
  pub held : set.space.own r ≡ true
  pub plain : set.space.home r ≡ none
  pub zeros : (i : ℕ) → r ≤ i → i < r + page_size → t.mem i ≡ 0

-- What `kalloc` and `memset` leave: the page `r` is held and clear, and the page tables are as they
-- were.
module _ (end root r : ℕ) (s t : Kmem) (a : Space end root s)
    (f : Fresh end (record { kmem = s; own = a.own }) r t)
    (g : Sound end (record { kmem = t; own = update a.own r true })) where
  abbrev pub clean : Kmem
  clean = clear_page r t

  clean-kept : (x i : ℕ) → a.own x ≡ true → x ≤ i → i < x + page_size → clean.mem i ≡ s.mem i
  clean-kept x i o lo hi =
      outside x r i 0 t.mem ((a.shaped.sound.pages x o).1) (f.page.1)
        (λ q. cc (ap a.own q, f.unowned, o)) lo hi
      ∙ f.kept x i o lo hi

  pub clean-slots :
      (x l p i : ℕ) → a.home x ≡ some (l, p) → i < 512 → clean.mem (slot x i) ≡ s.mem (slot x i)
  clean-slots x l p i h hi =
      clean-kept x (slot x i) (a.shaped.held x l p h) (omega arith) (omega arith)

  held_after : (x : ℕ) → a.own x ≡ true → update a.own r true x ≡ true
  held_after x o = update_ne a.own r true x (λ q. cc (ap a.own q, f.unowned, o)) ∙ o

  pub clean-held : (x l p : ℕ) → a.home x ≡ some (l, p) → update a.own r true x ≡ true
  clean-held x l p h = held_after x (a.shaped.held x l p h)

  pub clean-Sound : Sound end (record { kmem = clean; own = update a.own r true })
  clean-Sound =
      Sound-mem end (update a.own r true) t clean.mem
        (λ x px fx.
          let ne : r ≢ x = λ q. cc (ap (update a.own r true) q, update_self a.own r true, fx) in
          fill-other r x 0 t.mem (f.page.1) (px.1) ne)
        g

  abbrev pub clean-Space : Space end root clean
  clean-Space =
      kept-Space end root s clean a (update a.own r true) clean-slots clean-held clean-Sound

  pub clean-mapped : (va : ℕ) → va < max_va → mapped clean root va ≡ mapped s root va
  clean-mapped =
      kept-mapped end root s clean a (update a.own r true) clean-slots clean-held clean-Sound

  pub clean-Kept : Kept end root s clean a clean-Space
  clean-Kept x o n = (held_after x o, n, λ i lo hi. clean-kept x i o lo hi)

  pub plain_page : a.home r ≡ none
  plain_page = elim (Option-cases (a.home r)) [
    | inl e ↦ e
    | inr (lp, e) ↦ absurd (cc (a.shaped.held r (lp.0) (lp.1) e, f.unowned))
  ]

  pub clean-zero : (i : ℕ) → r ≤ i → i < r + page_size → clean.mem i ≡ 0
  clean-zero i lo hi = let e : (leb r i && ltb i (r + page_size)) ≡ true = ground arith in rw e refl
