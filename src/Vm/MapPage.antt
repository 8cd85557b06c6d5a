-- ===== src/Vm/MapPage.antt =====
-- One round of `mappages`: the page gets its entry, unless it has one.
use mathlib.Core.Path.{subst}
use mit6s.Base.{
  ℕ, ◌+◌, ◌/◌, ◌≤◌, ◌<◌, ◌≡◌, ◌≢◌, inl, inr, refl, sym, ap, ◌∙◌, arith, Bool, true, false, Option,
  none, some, ==_ne, update, update_ne, Bool-cases,
}
use mit6s.Kalloc.{page_size, Kmem}
use mit6s.Vm.Walk.{max_va, px, is_valid, slot, store, walk_from}
use mit6s.Vm.Maps.{leaf_entry, set_leaf, map_page}
use mit6s.Vm.Index.{prefix, px-lt}
use mit6s.Vm.Shape.{table, word_in, home-Page, table-home, walk_in}
use mit6s.Vm.Grow.{Walked}
use mit6s.Vm.Tables.{walk-Walked}
use mit6s.Vm.Store.{Space, mapped, root-prefix, written-Shaped, mapped-here, mapped-other}

-- The page of `va` has got the entry `w`, and no other page a new one.
pub record PageSet (end root va w : ℕ) (s t : Kmem) : Type 0 where
  pub space : Space end root t
  pub at_page : (va' : ℕ) → va' < max_va → va / 4096 ≡ va' / 4096 → mapped t root va' ≡ w
  pub elsewhere :
      (va' : ℕ) → va' < max_va → va / 4096 ≢ va' / 4096 → mapped t root va' ≡ mapped s root va'

-- What is held and no page table stays so, with what it holds.
abbrev pub Kept : (end root : ℕ) (s t : Kmem) → Space end root s → Space end root t → Type 0
Kept end root s t a b =
    (x : ℕ)
    → a.own x ≡ true
    → a.home x ≡ none
    → (b.own x ≡ true)
      × (b.home x ≡ none)
      × ((i : ℕ) → x ≤ i → i < x + page_size → t.mem i ≡ s.mem i)

abbrev pub PageEnd :
    (end root va w : ℕ) (s : Kmem) → Space end root s → Option (Bool × Kmem) → Type 0
PageEnd end root va w s a none = is_valid (mapped s root va) ≡ true
PageEnd end root va w s a (some (false, t)) =
    (t.freelist ≡ 0)
    × ((b : Space end root t) × Kept end root s t a b)
    × ((va' : ℕ) → va' < max_va → mapped t root va' ≡ mapped s root va')
PageEnd end root va w s a (some (true, t)) =
    (is_valid (mapped s root va) ≡ false)
    × ((p : PageSet end root va w s t) × Kept end root s t a (p.space))

map_page-walk :
    (root va pa perm : ℕ) (s : Kmem)
    → va < max_va
    → map_page root va pa perm s
      ≡ (let (p, t) = walk_from 2 true root va s in set_leaf (leaf_entry pa perm) p t)
unfolding map_page
map_page-walk root va pa perm s lt = rw (walk_in true root va s lt, map_page) refl

module _ (end root va w p : ℕ) (s t : Kmem) (a : Space end root s) (lt : va < max_va)
    (k : Walked end (a.home) (a.own) s 2 root va p t) where
  same_entry : (va' : ℕ) → va' < max_va → mapped t root va' ≡ mapped s root va'
  same_entry va' l = k.same 2 root va' (omega arith) (root-prefix (a.home) root va' l (a.at_root))

  abbrev after : Space end root t
  after = record {
    home = k.home_after;
    own = k.own_after;
    shaped = k.shaped;
    at_root = k.grows (a.at_root);
  }

  set_leaf-full : p ≡ 0 → t.freelist ≡ 0 → PageEnd end root va w s a (set_leaf w p t)
  set_leaf-full z full =
      let e : set_leaf w p t ≡ some (false, t) = rw z refl in
      subst (PageEnd end root va w s a) (sym e) (full, (after, k.others), same_entry)

  -- The entry written is in a page table.
  kept_over :
      (x : ℕ)
      → k.home_after x ≡ some (0, prefix 0 va)
      → (y : ℕ) → a.own y ≡ true
      → a.home y ≡ none
      → (k.own_after y ≡ true)
        × (k.home_after y ≡ none)
        × ((i : ℕ) → y ≤ i → i < y + page_size → update t.mem (slot x (px 0 va)) w i ≡ s.mem i)
  kept_over x hx y o n =
      let (o', n', same) = k.others y o n in
      let ax = (home-Page end (k.shaped) hx).1 in
      let ay = (a.shaped.sound.pages y o).1 in
      let ne : x ≢ y = λ q. cc (ap k.home_after q, hx, n') in
      (
        o',
        n',
        λ i lo hi.
            update_ne t.mem (slot x (px 0 va)) w i (λ q. ne (omega (arith, px-lt 0 va)))
            ∙ same i lo hi,
      )

  set_leaf-found :
      (x : ℕ)
      → table 2 t.mem root va ≡ some x
      → p ≡ slot x (px 0 va)
      → PageEnd end root va w s a (set_leaf w p t)
  set_leaf-found x tx ep =
      let hx =
        table-home end (k.shaped) 2 root va x (omega arith)
          (root-prefix (k.home_after) root va lt (k.grows (a.at_root))) tx in
      let ne : p ≢ 0 = λ z. omega (arith, (home-Page end (k.shaped) hx).0) in
      let here : t.mem p ≡ mapped s root va =
        ap t.mem ep ∙ sym (ap (word_in t.mem va) tx) ∙ same_entry va lt in
      let u = store (slot x (px 0 va)) w t in
      let set : PageSet end root va w s u = record {
        space = record {
          home = k.home_after;
          own = k.own_after;
          shaped = written-Shaped end root x va w (k.shaped) hx;
          at_root = k.grows (a.at_root);
        };
        at_page =
            λ va' l q. mapped-here end root x va w (k.shaped) hx va' l q (k.grows (a.at_root)) tx;
        elsewhere = λ va' l q.
            mapped-other end root x va w (k.shaped) hx va' l q (k.grows (a.at_root))
            ∙ same_entry va' l;
      } in
      elim (Bool-cases (is_valid (t.mem p))) [
        | inl v ↦
            let e : set_leaf w p t ≡ none = rw (==_ne p 0 ne, v) refl in
            subst (PageEnd end root va w s a) (sym e) (sym (ap is_valid here) ∙ v)
        | inr v ↦
            let e : set_leaf w p t ≡ some (true, store p w t) = rw (==_ne p 0 ne, v) refl in
            let e' : set_leaf w p t ≡ some (true, u) = e ∙ ap (λ q. some (true, store q w t)) ep in
            subst (PageEnd end root va w s a) (sym e')
              (sym (ap is_valid here) ∙ v, (set, kept_over x hx))
      ]

  set_leaf-PageEnd : PageEnd end root va w s a (set_leaf w p t)
  set_leaf-PageEnd = elim (k.ends) [
    | inl (z, full) ↦ set_leaf-full z full
    | inr (x, tx, ep) ↦ set_leaf-found x tx ep
  ]

pub map_page-PageEnd :
    (end root va pa perm : ℕ) (s : Kmem)
    → (sp : Space end root s) → va < max_va
    → PageEnd end root va (leaf_entry pa perm) s sp (map_page root va pa perm s)
map_page-PageEnd end root va pa perm s sp lt =
    let (p, t) = walk_from 2 true root va s in
    let k =
      walk-Walked end 2 (sp.shaped) (omega arith) root va
        (root-prefix (sp.home) root va lt (sp.at_root)) in
    subst (PageEnd end root va (leaf_entry pa perm) s sp) (sym (map_page-walk root va pa perm s lt))
      (set_leaf-PageEnd end root va (leaf_entry pa perm) p s t sp lt k)
