-- ===== src/Vm/GrowEnd.antt =====
-- How a round of `uvmalloc` ends.
use mathlib.Core.Path.{subst}
use mit6s.Base.{
  Bool-cases, ◌==◌, ℕ, ◌+◌, ◌-◌, ◌%◌, ◌^◌, ◌<◌, ◌≡◌, ◌≢◌, inl, inr, refl, sym, ap, ◌∙◌, arith, Bool,
  true, false, Option, none, some, ==_ne, ==_refl, u64, update, update_self, update_ne,
}
use mit6s.Kalloc.{page_size, Kmem, kalloc, kfree, fill, freed_junk}
use mit6s.Kalloc.Owners.{
  Heap, Sound, here, next, allocates, Fresh, kalloc-Fresh, Reach-Sound, kalloc-none, freed, outside,
}
use mit6s.Vm.Walk.{max_va, is_valid, clear_page}
use mit6s.Vm.Maps.{
  user_rwx, page_round_down, leaf_entry, map_page, map_next, map_from, mappages, grow_next,
  grow_page,
}
use mit6s.Vm.Store.{Space, mapped}
use mit6s.Vm.MapPage.{Kept, PageEnd, map_page-PageEnd}
use mit6s.Vm.Unmap.{kfree-freed, freed-Space, freed-mapped}
use mit6s.Vm.GrowPage.{
  PageGrown, clean, clean-Space, clean-mapped, clean-Kept, plain_page, clean-zero,
}

-- The addresses keep their entries, what was held stays held, and the page that `kalloc` takes, if
-- any, is in front of the free list again.
abbrev pub Unchanged : (end root : ℕ) (s : Kmem) → Space end root s → Kmem → Type 0
Unchanged end root s a u =
    ((b : Space end root u) × Kept end root s u a b)
    × ((va : ℕ) → va < max_va → mapped u root va ≡ mapped s root va)
    × (u.freelist ≡ s.freelist)

abbrev pub GrowEnd : (end root va : ℕ) (s : Kmem) → Space end root s → Option (Bool × Kmem) → Type 0
GrowEnd end root va s a none = is_valid (mapped s root va) ≡ true
GrowEnd end root va s a (some (false, u)) = Unchanged end root s a u
GrowEnd end root va s a (some (true, u)) = (r : ℕ) × PageGrown end root va r s a u

-- A call of `mappages` for one page is one round.
mappages-page :
    (root va pa perm : ℕ) (s : Kmem)
    → va % page_size ≡ 0
    → va < max_va
    → mappages 1 root va page_size pa perm s
      ≡ map_next (λ t. none) true (map_page root va pa perm s)
unfolding mappages map_from
mappages-page root va pa perm s al lt =
    let e : page_round_down va ≡ va = omega arith in
    let last : page_round_down (u64 (va + page_size + 2 ^ 64 - 1)) ≡ va = omega arith in
    rw (e, last, ==_refl va) refl

module _ (end root va : ℕ) (s : Kmem) (a : Space end root s) (lt : va < max_va) where
  no_memory : s.freelist ≡ 0 → GrowEnd end root va s a (some (false, record s { lock = false }))
  no_memory e = (
    (
      record {
        home = a.home;
        own = a.own;
        shaped = record {
          child = a.shaped.child;
          held = a.shaped.held;
          sound = record {
            free = a.shaped.sound.free;
            listed = a.shaped.sound.listed;
            pages = a.shaped.sound.pages;
          };
        };
        at_root = a.at_root;
      },
      λ x o n. (o, n, λ i lo hi. refl),
    ),
    λ va' l. refl,
    refl,
  )

  module _ (r : ℕ) (t : Kmem) (front : r ≡ s.freelist)
      (f : Fresh end (record { kmem = s; own = a.own }) r t)
      (g : Sound end (record { kmem = t; own = update a.own r true })) where
    abbrev cleaned : Kmem
    cleaned = clean end root r s t a f g

    abbrev b : Space end root cleaned
    b = clean-Space end root r s t a f g

    r_held : b.own r ≡ true
    r_held = update_self a.own r true

    -- The page is given back.
    given_back :
        (u : Kmem) (c : Space end root u)
        → Kept end root cleaned u b c
        → ((va' : ℕ) → va' < max_va → mapped u root va' ≡ mapped cleaned root va')
        → (kfree end r u ≡ some (freed r u)) × Unchanged end root s a (freed r u)
    given_back u c k same =
        let (o, n, _) = k r r_held (plain_page end root r s t a f g) in
        (
          kfree-freed end root r u c o n,
          (
            (
              freed-Space end root r u c o n,
              λ x ox nx.
                  let ne : r ≢ x = λ q. cc (ap a.own q, f.unowned, ox) in
                  let (o1, n1, same1) = clean-Kept end root r s t a f g x ox nx in
                  let (o2, n2, same2) = k x o1 n1 in
                  let al = (a.shaped.sound.pages x ox).1 in
                  (
                    update_ne c.own r false x ne ∙ o2,
                    n2,
                    λ i lo hi.
                        update_ne (fill r freed_junk u.mem) r u.freelist i
                          (λ q. ne (omega (arith, f.page.1)))
                        ∙ outside x r i freed_junk u.mem al (f.page.1) ne lo hi
                        ∙ same2 i lo hi
                        ∙ same1 i lo hi,
                  ),
            ),
            λ va' l.
                freed-mapped end root r u c o n va' l
                ∙ same va' l
                ∙ clean-mapped end root r s t a f g va' l,
            front,
          ),
        )

    page_mapped :
        (m : Option (Bool × Kmem))
        → PageEnd end root va (leaf_entry r user_rwx) cleaned b m
        → GrowEnd end root va s a (grow_next end r (map_next (λ u. none) true m))
    page_mapped none v = sym (ap is_valid (clean-mapped end root r s t a f g va lt)) ∙ v
    page_mapped (some (false, u)) (full, (c, k), same) =
        let (e, un) = given_back u c k same in
        let back : Option Kmem → Option (Bool × Kmem) =
          λ q. elim q [ none ↦ none | some v ↦ some (false, v) ] in
        subst (λ q. GrowEnd end root va s a (back q)) (sym e) un
    page_mapped (some (true, u)) (v, (p, k)) =
        let (o, n, same) = k r r_held (plain_page end root r s t a f g) in
        (
          r,
          record {
            set = record {
              space = p.space;
              at_page = p.at_page;
              elsewhere =
                  λ va' l ne. p.elsewhere va' l ne ∙ clean-mapped end root r s t a f g va' l;
            };
            kept = λ x ox nx.
                let (o1, n1, same1) = clean-Kept end root r s t a f g x ox nx in
                let (o2, n2, same2) = k x o1 n1 in
                (o2, n2, λ i lo hi. same2 i lo hi ∙ same1 i lo hi);
            page = f.page;
            unowned = f.unowned;
            held = o;
            plain = n;
            zeros = λ i lo hi. same i lo hi ∙ clean-zero end root r s t a f g i lo hi;
          },
        )

grow_page-some :
    (end root va r : ℕ) (t : Kmem)
    → r ≢ 0
    → va % page_size ≡ 0
    → va < max_va
    → grow_page end root va r t
      ≡ grow_next end r (map_next (λ u. none) true (map_page root va r user_rwx (clear_page r t)))
unfolding grow_page
grow_page-some end root va r t ne al lt =
    rw (==_ne r 0 ne)
      (ap (grow_next end r) (mappages-page root va r user_rwx (clear_page r t) al lt))

grow_page-null : (end root va : ℕ) (t : Kmem) → grow_page end root va 0 t ≡ some (false, t)
unfolding grow_page
grow_page-null end root va t = refl

-- `kalloc` takes the first page of the free list.
kalloc-front : (s : Kmem) → (kalloc s).0 ≡ s.freelist
unfolding kalloc
kalloc-front s = elim (Bool-cases (s.freelist == 0)) [
  | inl e ↦ let z : s.freelist ≡ 0 = ground arith in rw e (sym z)
  | inr e ↦ rw e refl
]

pub grow_page-GrowEnd :
    (end root va : ℕ) (s : Kmem) (a : Space end root s)
    → va % page_size ≡ 0
    → va < max_va
    → GrowEnd end root va s a (let (r, t) = kalloc s in grow_page end root va r t)
grow_page-GrowEnd end root va s a al lt =
    let heap : Heap = record { kmem = s; own = a.own } in
    let (r, t) = kalloc s in
    elim (kalloc-Fresh end {h = heap} {k = heap} here (a.shaped.sound)) [
      | inl (z, e) ↦
          let eq : grow_page end root va (kalloc s).0 (kalloc s).1
              ≡ some (false, record s { lock = false }) =
            ap (λ q. grow_page end root va q.0 q.1) (kalloc-none s e)
            ∙ grow_page-null end root va (record s { lock = false }) in
          subst (GrowEnd end root va s a) (sym eq) (no_memory end root va s a lt e)
      | inr f ↦
          let ne : r ≢ 0 = λ z. omega (arith, f.page.0) in
          let g = Reach-Sound end (next here (allocates ne)) (a.shaped.sound) in
          let c = clean end root r s t a f g in
          subst (GrowEnd end root va s a) (sym (grow_page-some end root va r t ne al lt)) (
            page_mapped end root va s a lt r t (kalloc-front s) f g (map_page root va r user_rwx c)
              (map_page-PageEnd end root va r user_rwx c (clean-Space end root r s t a f g) lt))
    ]
