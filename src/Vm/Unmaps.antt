-- ===== src/Vm/Unmaps.antt =====
-- `uvmunmap` with `do_free`, and `uvmdealloc`: the loop over the pages of a range.
use mathlib.Core.Path.{subst}
use mit6s.Base.{
  List, ◌∷◌, ℕ, zero, suc, ◌+◌, ◌-◌, ◌*◌, ◌/◌, ◌%◌, ◌≤◌, ◌<◌, ◌≡◌, ◌≢◌, ◌⊎◌, inl, inr, refl, sym,
  ap, ◌∙◌, arith, true, false, not, some, leb, ltb, ◌==◌, update, update_self, update_ne,
  ℕ_discrete,
}
use mit6s.Kalloc.{page_size, page_round_up, Kmem}
use mit6s.Vm.Walk.{max_va, pte2pa, pte_flags, is_valid}
use mit6s.Vm.Maps.{unmap_page, unmap_from, uvmunmap, uvmdealloc}
use mit6s.Vm.Store.{Space, mapped}
use mit6s.Vm.Unmap.{LeafAt, PageFreed, unmap_page-PageFreed}

-- The physical page of the `k`-th page from `va` on.
abbrev pub frame : ℕ → ℕ → Kmem → ℕ → ℕ
frame root va s k = pte2pa (mapped s root (va + k * page_size))

-- The `n` pages from `va` on are mapped by leaves, to different pages that are held and are no
-- page tables.
pub record LeavesAt (end root va n : ℕ) (s : Kmem) (a : Space end root s) : Type 0 where
  pub leaf : (k : ℕ) → k < n → LeafAt end root (va + k * page_size) s a
  pub apart : (i j : ℕ) → i < n → j < n → i ≢ j → frame root va s i ≢ frame root va s j

-- The pages `f k` up to `f (k + n - 1)`, put in front of a free list one after the other.
abbrev pub stacked : (ℕ → ℕ) → ℕ → ℕ → List ℕ → List ℕ
stacked f zero k xs = xs
stacked f (suc n) k xs = stacked f n (k + 1) (f k ∷ xs)

stacked-shift :
    (f g : ℕ → ℕ) (n i j : ℕ) (xs : List ℕ)
    → ((k : ℕ) → k < n → g (i + k) ≡ f (j + k))
    → stacked g n i xs ≡ stacked f n j xs
stacked-shift f g zero i j xs same = refl
stacked-shift f g (suc n) i j xs same =
    let e : g i ≡ f j = ap g (omega arith) ∙ same 0 (omega arith) ∙ ap f (omega arith) in
    ap (λ x. stacked g n (i + 1) (x ∷ xs)) e
    ∙ stacked-shift f g n (i + 1) (j + 1) (f j ∷ xs)
        (λ k lt. ap g (omega arith) ∙ same (k + 1) (omega arith) ∙ ap f (omega arith))

-- These pages have been unmapped and put on the free list, and nothing else has.
pub record RangeFreed (end root va n : ℕ) (s : Kmem) (a : Space end root s) (t : Kmem)
    : Type 0 where
  pub space : Space end root t
  pub inside :
      (va' : ℕ) → va' < max_va → va ≤ va' → va' < va + n * page_size → mapped t root va' ≡ 0
  pub outside :
      (va' : ℕ)
      → va' < max_va
      → (va' < va) ⊎ (va + n * page_size ≤ va')
      → mapped t root va' ≡ mapped s root va'
  pub home_same : space.home ≡ a.home
  pub list : space.shaped.sound.free ≡ stacked (frame root va s) n 0 (a.shaped.sound.free)
  pub own_freed : (k : ℕ) → k < n → space.own (frame root va s k) ≡ false
  pub own_kept : (x : ℕ) → ((k : ℕ) → k < n → frame root va s k ≢ x) → space.own x ≡ a.own x

pub nothing_freed :
    (end root va : ℕ) (s : Kmem) (a : Space end root s) → RangeFreed end root va 0 s a s
nothing_freed end root va s a = record {
  space = a;
  inside = λ va' lt lo hi. absurd (omega arith);
  outside = λ va' lt o. refl;
  home_same = refl;
  list = refl;
  own_freed = λ k lt. absurd (omega arith);
  own_kept = λ x far. refl;
}

module _ (end root va n : ℕ) (s : Kmem) (a : Space end root s) (al : va % page_size ≡ 0)
    (b : va + suc n * page_size ≤ max_va) (l : LeavesAt end root va (suc n) s a) (t : Kmem)
    (f : PageFreed end root va s a t) where
  next_entry :
      (k : ℕ)
      → k < n
      → mapped t root (va + page_size + k * page_size) ≡ mapped s root (va + suc k * page_size)
  next_entry k lt =
      let e : va + page_size + k * page_size ≡ va + suc k * page_size = omega arith in
      ap (mapped t root) e
      ∙ f.set.elsewhere (va + suc k * page_size) (omega arith) (λ q. omega arith)

  next_frame : (k : ℕ) → k < n → frame root (va + page_size) t k ≡ frame root va s (suc k)
  next_frame k lt = ap pte2pa (next_entry k lt)

  first_frame : frame root va s 0 ≡ pte2pa (mapped s root va)
  first_frame = ap (λ x. pte2pa (mapped s root x)) (omega arith)

  not_first : (k : ℕ) → k < n → pte2pa (mapped s root va) ≢ frame root va s (suc k)
  not_first k lt q =
      l.apart 0 (suc k) (omega arith) (omega arith) (λ z. omega arith) (first_frame ∙ q)

  next-LeavesAt : LeavesAt end root (va + page_size) n t (f.set.space)
  next-LeavesAt = record {
    leaf = λ k lt.
        let old = l.leaf (suc k) (omega arith) in
        let e = next_entry k lt in
        record {
          valid = ap is_valid e ∙ old.valid;
          leaf = λ q. old.leaf (sym (ap pte_flags e) ∙ q);
          held =
              ap (λ o. o (frame root (va + page_size) t k)) (f.own_same)
              ∙ ap (update a.own (pte2pa (mapped s root va)) false) (next_frame k lt)
              ∙ update_ne a.own (pte2pa (mapped s root va)) false (frame root va s (suc k))
                  (not_first k lt)
              ∙ old.held;
          plain =
              ap (λ o. o (frame root (va + page_size) t k)) (f.home_same)
              ∙ ap a.home (next_frame k lt)
              ∙ old.plain;
        };
    apart = λ i j hi hj ne q.
        l.apart (suc i) (suc j) (omega arith) (omega arith) (λ e. ne (omega arith))
          (sym (next_frame i hi) ∙ q ∙ next_frame j hj);
  }

  one_more_freed :
      (u : Kmem)
      → RangeFreed end root (va + page_size) n t (f.set.space) u
      → RangeFreed end root va (suc n) s a u
  one_more_freed u r = record {
    space = r.space;
    inside = λ va' lt lo hi. elim (ℕ_discrete (va / 4096) (va' / 4096)) [
      | yes q ↦ r.outside va' lt (inl (omega arith)) ∙ f.set.at_page va' lt q
      | no ne ↦ r.inside va' lt (omega arith) (omega arith)
    ];
    outside = λ va' lt o.
        let ne : va / 4096 ≢ va' / 4096 =
          λ q. elim o [ inl l ↦ absurd (omega arith) | inr h ↦ absurd (omega arith) ] in
        r.outside va' lt (elim o [ inl l ↦ inl (omega arith) | inr h ↦ inr (omega arith) ])
        ∙ f.set.elsewhere va' lt ne;
    home_same = r.home_same ∙ f.home_same;
    list =
        r.list
        ∙ ap (stacked (frame root (va + page_size) t) n 0) (f.list)
        ∙ stacked-shift (frame root va s) (frame root (va + page_size) t) n 0 1
            (pte2pa (mapped s root va) ∷ a.shaped.sound.free)
            (λ k lt.
              ap (frame root (va + page_size) t) (omega arith)
              ∙ next_frame k lt
              ∙ ap (frame root va s) (omega arith))
        ∙ ap (λ x. stacked (frame root va s) n 1 (x ∷ a.shaped.sound.free)) (sym first_frame);
    own_freed = own_freed_all;
    own_kept = λ x far.
        r.own_kept x (λ k lt q. far (suc k) (omega arith) (sym (next_frame k lt) ∙ q))
        ∙ ap (λ o. o x) (f.own_same)
        ∙ update_ne a.own (pte2pa (mapped s root va)) false x
            (λ q. far 0 (omega arith) (first_frame ∙ q));
  }
    where
      own_freed_all : (k : ℕ) → k < suc n → r.space.own (frame root va s k) ≡ false
      own_freed_all zero lt =
          let p = pte2pa (mapped s root va) in
          ap r.space.own first_frame
          ∙ r.own_kept p (λ k lt q. not_first k lt (sym q ∙ next_frame k lt))
          ∙ ap (λ o. o p) (f.own_same)
          ∙ update_self a.own p false
      own_freed_all (suc k) lt =
          ap r.space.own (sym (next_frame k (omega arith))) ∙ r.own_freed k (omega arith)

unmap_from-suc :
    (end root va n : ℕ) (s t : Kmem)
    → unmap_page end true root va s ≡ some t
    → unmap_from end true (suc n) root va s ≡ unmap_from end true n root (va + page_size) t
unfolding unmap_from
unmap_from-suc end root va n s t e = rw (e, unmap_from) refl

unmap_from-RangeFreed :
    (end root va n : ℕ) (s : Kmem) (a : Space end root s)
    → va % page_size ≡ 0
    → va + n * page_size ≤ max_va
    → LeavesAt end root va n s a
    → (t : Kmem) × (unmap_from end true n root va s ≡ some t) × RangeFreed end root va n s a t
unfolding unmap_from
unmap_from-RangeFreed end root va zero s a al b l = (s, refl, nothing_freed end root va s a)
unmap_from-RangeFreed end root va (suc n) s a al b l =
    let first : LeafAt end root va s a =
      subst (λ x. LeafAt end root x s a) (omega arith) (l.leaf 0 (omega arith)) in
    let (t, e, f) = unmap_page-PageFreed end root va s a (omega arith) first in
    let (u, e', r) =
      unmap_from-RangeFreed end root (va + page_size) n t (f.set.space) (omega arith) (omega arith)
        (next-LeavesAt end root va n s a al b l t f) in
    (u, unmap_from-suc end root va n s t e ∙ e', one_more_freed end root va n s a al b l t f u r)

-- Where the pages of a range are mapped to different pages in use, none a page table, `uvmunmap`
-- with `do_free` does not panic: it unmaps these pages and no other, and puts them on the free list.
pub uvmunmap-RangeFreed :
    (end root va n : ℕ) (s : Kmem) (a : Space end root s)
    → va % page_size ≡ 0
    → va + n * page_size ≤ max_va
    → LeavesAt end root va n s a
    → (t : Kmem) × (uvmunmap end true root va n s ≡ some t) × RangeFreed end root va n s a t
unfolding uvmunmap
uvmunmap-RangeFreed end root va n s a al b l =
    let (t, e, r) = unmap_from-RangeFreed end root va n s a al b l in
    let z : not (va % page_size == 0) ≡ false = ground arith in (t, rw z e, r)

uvmdealloc-frees :
    (end root oldsz newsz : ℕ) (s t : Kmem)
    → newsz < oldsz
    → ltb (page_round_up newsz) (page_round_up oldsz) ≡ true
    → uvmunmap end true root
        (page_round_up newsz)
        ((page_round_up oldsz - page_round_up newsz) / page_size)
        s
      ≡ some t
    → uvmdealloc end root oldsz newsz s ≡ some (newsz, t)
unfolding uvmdealloc
uvmdealloc-frees end root oldsz newsz s t lt more e =
    let shrinks : leb oldsz newsz ≡ false = ground arith in rw (shrinks, more, e, uvmdealloc) refl

-- Where the pages that a process gives up are mapped to different pages in use, none a page table,
-- `uvmdealloc` returns the new size and has unmapped these pages and no other; the free list is as
-- before, with their memory put in front of it, page after page.
pub uvmdealloc-RangeFreed :
    (end root oldsz newsz : ℕ) (s : Kmem) (a : Space end root s)
    → newsz < oldsz
    → page_round_up oldsz ≤ max_va
    → let n = (page_round_up oldsz - page_round_up newsz) / page_size in
      LeavesAt end root (page_round_up newsz) n s a
      → (t : Kmem) × (uvmdealloc end root oldsz newsz s ≡ some (newsz, t))
        × RangeFreed end root (page_round_up newsz) n s a t
unfolding uvmdealloc
uvmdealloc-RangeFreed end root oldsz newsz s a lt b l =
    let n = (page_round_up oldsz - page_round_up newsz) / page_size in
    let shrinks : leb oldsz newsz ≡ false = ground arith in
    elim (ℕ_discrete n 0) [
      | yes z ↦
          let none_freed : ltb (page_round_up newsz) (page_round_up oldsz) ≡ false = ground arith in
          (
            s,
            rw (shrinks, none_freed) refl,
            subst (λ k. RangeFreed end root (page_round_up newsz) k s a s) (sym z)
                (nothing_freed end root (page_round_up newsz) s a),
          )
      | no ne ↦
          let some_freed : ltb (page_round_up newsz) (page_round_up oldsz) ≡ true = ground arith in
          let (t, e, r) =
            uvmunmap-RangeFreed end root (page_round_up newsz) n s a (omega arith) (omega arith)
              l in
          (t, uvmdealloc-frees end root oldsz newsz s t lt some_freed e, r)
    ]
