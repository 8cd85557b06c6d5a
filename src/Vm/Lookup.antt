-- ===== src/Vm/Lookup.antt =====
-- `walkaddr`, `kvmpa` and `uvmclear` by the entry that the address has.
use mathlib.Core.Path.{subst}
use mit6s.Base.{
  ℕ, suc, ◌+◌, ◌-◌, ◌*◌, ◌/◌, ◌%◌, ◌^◌, ◌≤◌, ◌<◌, ◌≡◌, ◌≢◌, ◌⊎◌, inl, inr, refl, sym, ap, ◌∙◌,
  arith, true, false, ◌&&◌, Option, none, some, leb, ==_ne, if◌then◌else◌, ℤ, pos, Bool-cases,
  Option-cases,
}
use mit6s.Kalloc.{page_size, Kmem}
use mit6s.Vm.Walk.{
  max_va, px, pte2pa, is_valid, is_user, slot, store, user_page, walkaddr, without_user, uvmclear,
}
use mit6s.Vm.Maps.{page_round_down, leaf_entry, mappages}
use mit6s.Vm.Index.{prefix}
use mit6s.Vm.Shape.{table, word_in, slot_in, home-Page, table-home, walk_known, walk_in}
use mit6s.Vm.Store.{Space, mapped, root-prefix, written-Shaped, mapped-here, mapped-other}
use mit6s.Vm.MapPage.{PageSet}
use mit6s.Vm.MapPages.{Extended, MapEnd, mappages-MapEnd}

-- The answer of `walkaddr` for a page with the entry `w`.
abbrev pub user_frame : ℕ → ℕ
user_frame w = if is_valid w && is_user w then pte2pa w else 0

module _ (end root : ℕ) (s : Kmem) (a : Space end root s) (va : ℕ) (lt : va < max_va) where
  -- Either the address has no table, and no entry, or the entry stands where `walk` finds it.
  pub entry_found :
      ((table 2 s.mem root va ≡ none) × (mapped s root va ≡ 0))
      ⊎ ((x : ℕ) × (table 2 s.mem root va ≡ some x)
          × (a.home x ≡ some (0, prefix 0 va))
          × (slot x (px 0 va) ≢ 0)
          × (s.mem (slot x (px 0 va)) ≡ mapped s root va))
  entry_found = elim (Option-cases (table 2 s.mem root va)) [
    | inl n ↦ inl (n, ap (word_in s.mem va) n)
    | inr (x, tx) ↦
        let hx =
          table-home end (a.shaped) 2 root va x (omega arith)
            (root-prefix (a.home) root va lt (a.at_root)) tx in
        inr (
          x,
          tx,
          hx,
          (λ z. omega (arith, (home-Page end (a.shaped) hx).0)),
          sym (ap (word_in s.mem va) tx),
        )
  ]

  walkaddr-slot :
      walkaddr root va s ≡ (let p = slot_in va (table 2 s.mem root va) in user_page p (s.mem p))
  unfolding walkaddr
  walkaddr-slot =
      let e : leb max_va va ≡ false = ground arith in rw (e, walk_known 2 root va s) refl

  pub walkaddr-mapped : walkaddr root va s ≡ user_frame (mapped s root va)
  walkaddr-mapped = walkaddr-slot ∙ elim entry_found [
    | inl (n, z) ↦
        ap (λ t. user_page (slot_in va t) (s.mem (slot_in va t))) n ∙ sym (ap user_frame z)
    | inr (x, tx, hx, ne, e) ↦
        ap (λ t. user_page (slot_in va t) (s.mem (slot_in va t))) tx
        ∙ user_page-some (slot x (px 0 va)) (s.mem (slot x (px 0 va))) ne
        ∙ ap user_frame e
  ]
    where
      user_page-some : (p w : ℕ) → p ≢ 0 → user_page p w ≡ user_frame w
      user_page-some p w ne = rw (==_ne p 0 ne) (elim (Bool-cases (is_valid w)) [
        | inl v ↦ elim (Bool-cases (is_user w)) [ inl u ↦ rw (v, u) refl | inr u ↦ rw (v, u) refl ]
        | inr v ↦ rw v refl
      ])

-- An entry of `mappages` leads to its page.
leaf-user_frame :
    (pa perm : ℕ)
    → pa % page_size ≡ 0
    → pa < 2 ^ 56
    → perm < 1024
    → is_user perm ≡ true
    → user_frame (leaf_entry pa perm) ≡ pa
leaf-user_frame pa perm al lt p u =
    let v : is_valid (leaf_entry pa perm) ≡ true = ground arith in
    let w : is_user (leaf_entry pa perm) ≡ true = ground arith in
    let e : pte2pa (leaf_entry pa perm) ≡ pa = omega arith in rw (v, w, e) refl

MapEnd-zero :
    (end root a pa perm n : ℕ) (s t : Kmem) (r : Option (ℤ × Kmem))
    → r ≡ some (pos 0, t)
    → MapEnd end root a pa perm n s r
    → Extended end root a pa perm n s t
MapEnd-zero end root a pa perm n s t r e m = (subst (MapEnd end root a pa perm n s) e m).1

-- Round trip: after a successful `mappages` with user permission, `walkaddr` gives each page of
-- the range the physical page that it was mapped to.
pub mappages-walkaddr :
    (end root fuel va size pa perm : ℕ) (s t : Kmem)
    → Space end root s
    → 0 < size
    → va + size ≤ max_va
    → pa % page_size ≡ 0
    → pa + size + 2 * page_size ≤ 2 ^ 56
    → perm < 1024
    → is_user perm ≡ true
    → (va + size - 1) / page_size - va / page_size < fuel
    → mappages fuel root va size pa perm s ≡ some (pos 0, t)
    → (va' : ℕ) → va ≤ va'
    → va' < va + size
    → walkaddr root va' t ≡ pa + (page_round_down va' - page_round_down va)
mappages-walkaddr end root fuel va size pa perm s t sp nz b al c pb u f r va' lo hi =
    let n = (va + size - 1) / page_size - va / page_size in
    let e =
      MapEnd-zero end root (page_round_down va) pa perm (suc n) s t
        (mappages fuel root va size pa perm s) r
        (mappages-MapEnd end root fuel va size pa perm s sp nz b (omega arith) f) in
    walkaddr-mapped end root t (e.space) va' (omega arith)
    ∙ ap user_frame (e.inside va' (omega arith) (omega arith) (omega arith))
    ∙ leaf-user_frame (pa + (page_round_down va' - page_round_down va)) perm (omega arith)
        (omega arith) pb u

without_user-user_frame : (w : ℕ) → user_frame (without_user w) ≡ 0
without_user-user_frame w =
    let e : is_user (without_user w) ≡ false = ground arith in
    elim (Bool-cases (is_valid (without_user w))) [ inl v ↦ rw (v, e) refl | inr v ↦ rw v refl ]

-- `uvmclear` panics if the page has no table for it; otherwise user code loses the page, and no
-- other page changes.
pub uvmclear-PageSet :
    (end root va : ℕ) (s : Kmem)
    → Space end root s
    → va < max_va
    → ((uvmclear root va s ≡ none) × (mapped s root va ≡ 0))
      ⊎ ((t : Kmem) × (uvmclear root va s ≡ some t)
          × PageSet end root va (without_user (mapped s root va)) s t
          × (walkaddr root va t ≡ 0))
unfolding uvmclear
uvmclear-PageSet end root va s a lt = elim (entry_found end root s a va lt) [
  | inl (n, z) ↦ inl (rw (walk_in false root va s lt, walk_known 2 root va s, n, uvmclear) refl, z)
  | inr (x, tx, hx, ne, e) ↦
      let p = slot x (px 0 va) in
      let w = without_user (mapped s root va) in
      let t = store p w s in
      let set : PageSet end root va w s t = record {
        space = record {
          home = a.home;
          own = a.own;
          shaped = written-Shaped end root x va w (a.shaped) hx;
          at_root = a.at_root;
        };
        at_page = λ va' l q. mapped-here end root x va w (a.shaped) hx va' l q (a.at_root) tx;
        elsewhere = λ va' l q. mapped-other end root x va w (a.shaped) hx va' l q (a.at_root);
      } in
      inr (
        t,
        rw (walk_in false root va s lt, walk_known 2 root va s, tx, ==_ne p 0 ne, e, uvmclear) refl,
        set,
        walkaddr-mapped end root t (set.space) va lt
            ∙ ap user_frame (set.at_page va lt refl)
            ∙ without_user-user_frame (mapped s root va),
      )
]
