-- ===== src/Vm/MapPages.antt =====
-- `mappages` and `kvmmap`: the loop over the pages of a range.
use mit6s.Base.{
  ℕ, zero, suc, ◌+◌, ◌-◌, ◌*◌, ◌/◌, ◌%◌, ◌^◌, ◌≤◌, ◌<◌, ◌≡◌, ◌≢◌, ◌⊎◌, inl, inr, refl, sym, ap, ◌∙◌,
  arith, Bool, true, false, Option, none, some, ◌==◌, ℤ, pos, negsuc, ℕ_discrete, u64,
}
use mit6s.Kalloc.{page_size, Kmem}
use mit6s.Vm.Walk.{max_va, is_valid}
use mit6s.Vm.Maps.{page_round_down, leaf_entry, map_page, map_next, map_from, mappages}
use mit6s.Vm.Store.{Space, mapped}
use mit6s.Vm.MapPage.{PageSet, PageEnd, map_page-PageEnd}

-- From `s` to `t`, the `k` pages from address `a` on have been mapped to the `k` pages from `pa`
-- on, and no other page has got a new entry.
pub record Extended (end root a pa perm k : ℕ) (s t : Kmem) : Type 0 where
  pub space : Space end root t
  pub inside :
      (va : ℕ)
      → va < max_va
      → a ≤ va
      → va < a + k * page_size
      → mapped t root va ≡ leaf_entry (pa + (page_round_down va - a)) perm
  pub outside :
      (va : ℕ)
      → va < max_va
      → (va < a) ⊎ (a + k * page_size ≤ va)
      → mapped t root va ≡ mapped s root va

-- How a call that maps `n` pages ends: in a panic since one of them is mapped already, with all of
-- them mapped, or with -1, no page left, and some of them mapped.
abbrev pub MapEnd : ℕ → ℕ → ℕ → ℕ → ℕ → ℕ → Kmem → Option (ℤ × Kmem) → Type 0
MapEnd end root a pa perm n s none =
    (k : ℕ) × (k < n) × (is_valid (mapped s root (a + k * page_size)) ≡ true)
MapEnd end root a pa perm n s (some (pos r, t)) = (r ≡ 0) × Extended end root a pa perm n s t
MapEnd end root a pa perm n s (some (negsuc r, t)) =
    (r ≡ 0) × (t.freelist ≡ 0) × ((k : ℕ) × (k < n) × Extended end root a pa perm k s t)

module _ (end root a pa perm : ℕ) (al : a % page_size ≡ 0) where
  no_page :
      (s t : Kmem)
      → Space end root t
      → ((va : ℕ) → va < max_va → mapped t root va ≡ mapped s root va)
      → Extended end root a pa perm 0 s t
  no_page s t b same = record {
    space = b;
    inside = λ va lt lo hi. absurd (omega arith);
    outside = λ va lt o. same va lt;
  }

  one_more :
      (k : ℕ) (s t u : Kmem)
      → PageSet end root a (leaf_entry pa perm) s t
      → Extended end root (a + page_size) (pa + page_size) perm k t u
      → Extended end root a pa perm (suc k) s u
  one_more k s t u p e = record {
    space = e.space;
    inside = λ va lt lo hi. elim (ℕ_discrete (a / 4096) (va / 4096)) [
      | yes q ↦
          let z : pa ≡ pa + (page_round_down va - a) = omega arith in
          e.outside va lt (inl (omega arith)) ∙ p.at_page va lt q ∙ ap (λ x. leaf_entry x perm) z
      | no ne ↦
          let z : pa + page_size + (page_round_down va - (a + page_size))
              ≡ pa + (page_round_down va - a) =
            omega arith in
          e.inside va lt (omega arith) (omega arith) ∙ ap (λ x. leaf_entry x perm) z
    ];
    outside = λ va lt o.
        let ne : a / 4096 ≢ va / 4096 =
          λ q. elim o [ inl l ↦ absurd (omega arith) | inr h ↦ absurd (omega arith) ] in
        e.outside va lt (elim o [ inl l ↦ inl (omega arith) | inr h ↦ inr (omega arith) ])
        ∙ p.elsewhere va lt ne;
  }

  last_one :
      (s t : Kmem) → PageSet end root a (leaf_entry pa perm) s t → Extended end root a pa perm 1 s t
  last_one s t p = record {
    space = p.space;
    inside = λ va lt lo hi.
        let z : pa ≡ pa + (page_round_down va - a) = omega arith in
        p.at_page va lt (omega arith) ∙ ap (λ x. leaf_entry x perm) z;
    outside = λ va lt o.
        p.elsewhere va lt
          (λ q. elim o [ inl l ↦ absurd (omega arith) | inr h ↦ absurd (omega arith) ]);
  }

  one_more-MapEnd :
      (n : ℕ) (s t : Kmem) (r : Option (ℤ × Kmem))
      → a + suc n * page_size ≤ max_va
      → PageSet end root a (leaf_entry pa perm) s t
      → MapEnd end root (a + page_size) (pa + page_size) perm n t r
      → MapEnd end root a pa perm (suc n) s r
  one_more-MapEnd n s t none b p (k, lt, v) =
      let z : a + page_size + k * page_size ≡ a + suc k * page_size = omega arith in
      (
        suc k,
        omega arith,
        sym (ap is_valid (p.elsewhere (a + suc k * page_size) (omega arith) (λ q. omega arith)))
            ∙ ap (λ x. is_valid (mapped t root x)) (sym z)
            ∙ v,
      )
  one_more-MapEnd n s t (some (pos r, u)) b p (z, e) = (z, one_more n s t u p e)
  one_more-MapEnd n s t (some (negsuc r, u)) b p (z, full, (k, lt, e)) =
      (z, full, (suc k, omega arith, one_more k s t u p e))

  next-MapEnd :
      (n : ℕ) (s : Kmem) (rest : Kmem → Option (ℤ × Kmem)) (r : Option (Bool × Kmem))
      → a + suc n * page_size ≤ max_va
      → (sp : Space end root s) → PageEnd end root a (leaf_entry pa perm) s sp r
      → (n ≢ 0
          → (t : Kmem) → Space end root t
          → MapEnd end root (a + page_size) (pa + page_size) perm n t (rest t))
      → MapEnd end root a pa perm (suc n) s (map_next rest (a == a + n * page_size) r)
  next-MapEnd n s rest none b sp e more =
      (0, omega arith, ap (λ x. is_valid (mapped s root x)) (omega arith) ∙ e)
  next-MapEnd n s rest (some (false, t)) b sp (full, (after, _), same) more =
      (refl, full, (0, omega arith, no_page s t after same))
  next-MapEnd n s rest (some (true, t)) b sp (_, (p, _)) more = elim (ℕ_discrete n 0) [
    | yes z ↦
        let e : (a == a + n * page_size) ≡ true = ground arith in rw (e, z) (refl, last_one s t p)
    | no ne ↦
        let e : (a == a + n * page_size) ≡ false = ground arith in
        rw e (one_more-MapEnd n s t (rest t) b p (more ne t (p.space)))
  ]

pub map_from-MapEnd :
    (end root : ℕ) (fuel n a pa perm : ℕ) (s : Kmem)
    → n < fuel
    → a % page_size ≡ 0
    → a + suc n * page_size ≤ max_va
    → pa + suc n * page_size ≤ 2 ^ 64
    → Space end root s
    → MapEnd end root a pa perm (suc n) s (map_from fuel root a (a + n * page_size) pa perm s)
unfolding map_from
map_from-MapEnd end root zero n a pa perm s f al b c sp = absurd (omega arith)
map_from-MapEnd end root (suc fuel) zero a pa perm s f al b c sp =
    next-MapEnd end root a pa perm al 0 s
      (λ t.
        map_from fuel root (u64 (a + page_size)) (a + 0 * page_size) (u64 (pa + page_size)) perm t)
      (map_page root a pa perm s) b sp (map_page-PageEnd end root a pa perm s sp (omega arith))
      (λ ne t st. absurd (ne refl))
map_from-MapEnd end root (suc fuel) (suc n) a pa perm s f al b c sp =
    let ea : u64 (a + page_size) ≡ a + page_size = omega arith in
    let ep : u64 (pa + page_size) ≡ pa + page_size = omega arith in
    let el : a + suc n * page_size ≡ a + page_size + n * page_size = omega arith in
    next-MapEnd end root a pa perm al (suc n) s
      (λ t.
        map_from fuel root (u64 (a + page_size)) (a + suc n * page_size) (u64 (pa + page_size)) perm
          t)
      (map_page root a pa perm s) b sp (map_page-PageEnd end root a pa perm s sp (omega arith))
      (λ ne t st.
        rw (ea, ep, el)
          (map_from-MapEnd end root fuel n (a + page_size) (pa + page_size) perm t (omega arith)
            (omega arith) (omega arith) (omega arith) st))

-- A call of `mappages` for the pages of `[va, va + size)`, where page table and free list are well
-- formed, `size` is not 0, the pages lie below `MAXVA` and physical addresses do not wrap around:
-- it panics if one of the pages is mapped already, it returns 0 with all of them mapped to
-- consecutive physical pages, or it returns -1 since the free list is empty, with some of them
-- mapped; it gives no other page a new entry. The fuel is the number of pages.
pub mappages-MapEnd :
    (end root fuel va size pa perm : ℕ) (s : Kmem)
    → Space end root s
    → 0 < size
    → va + size ≤ max_va
    → pa + size + 2 * page_size ≤ 2 ^ 64
    → let n = (va + size - 1) / page_size - va / page_size in
      n < fuel
      → MapEnd end root
          (page_round_down va)
          pa
          perm
          (suc n)
          s
          (mappages fuel root va size pa perm s)
unfolding mappages
mappages-MapEnd end root fuel va size pa perm s sp nz b c f =
    let n = (va + size - 1) / page_size - va / page_size in
    let last : page_round_down (u64 (va + size + 2 ^ 64 - 1)) ≡ page_round_down va + n * page_size =
      omega arith in
    rw last (
      map_from-MapEnd end root fuel n (page_round_down va) pa perm s f (omega arith) (omega arith)
        (omega arith) sp)
