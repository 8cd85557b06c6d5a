-- ===== src/Vm/Growth.antt =====
-- What `uvmalloc` has mapped so far, one page at a time.
use mathlib.Core.Path.{subst}
use mit6s.Base.{
  ℕ, suc, ◌+◌, ◌*◌, ◌/◌, ◌%◌, ◌≤◌, ◌<◌, ◌≡◌, ◌≢◌, ◌⊎◌, inl, inr, refl, sym, ap, ◌∙◌, arith, true,
  none, ℕ_discrete,
}
use mit6s.Kalloc.{page_size, Kmem}
use mit6s.Kalloc.Pages.{Page}
use mit6s.Vm.Walk.{max_va, pte2pa, pte_flags, is_valid}
use mit6s.Vm.Maps.{user_rwx, leaf_entry}
use mit6s.Vm.Store.{Space, mapped}
use mit6s.Vm.MapPage.{Kept}
use mit6s.Vm.Unmap.{LeafAt}
use mit6s.Vm.Unmaps.{frame, LeavesAt}
use mit6s.Vm.GrowPage.{PageGrown}

-- The `k` pages from `start` on have got different pages of memory, all zero, with every permission
-- of user code; none of them is a page of data that was held before, and nothing else has changed.
pub record Grown (end root start k : ℕ) (s : Kmem) (a : Space end root s) (t : Kmem) : Type 0 where
  pub space : Space end root t
  pub entries :
      (i : ℕ)
      → i < k
      → mapped t root (start + i * page_size) ≡ leaf_entry (frame root start t i) user_rwx
  pub outside :
      (va : ℕ)
      → va < max_va
      → (va < start) ⊎ (start + k * page_size ≤ va)
      → mapped t root va ≡ mapped s root va
  pub leaves : LeavesAt end root start k t space
  pub fresh :
      (i : ℕ) → i < k → (x : ℕ) → a.own x ≡ true → a.home x ≡ none → frame root start t i ≢ x
  pub zeros :
      (i j : ℕ)
      → i < k
      → frame root start t i ≤ j
      → j < frame root start t i + page_size
      → t.mem j ≡ 0
  pub kept : Kept end root s t a space

pub nothing-Grown :
    (end root start : ℕ) (s : Kmem) (a : Space end root s) → Grown end root start 0 s a s
nothing-Grown end root start s a = record {
  space = a;
  entries = λ i lt. absurd (omega arith);
  outside = λ va lt o. refl;
  leaves = record {
    leaf = λ i lt. absurd (omega arith);
    apart = λ i j hi hj ne. absurd (omega arith);
  };
  fresh = λ i lt. absurd (omega arith);
  zeros = λ i j lt. absurd (omega arith);
  kept = λ x o n. (o, n, λ i lo hi. refl);
}

leaf-frame :
    (end r : ℕ)
    → Page end r
    → (pte2pa (leaf_entry r user_rwx) ≡ r)
      × (is_valid (leaf_entry r user_rwx) ≡ true)
      × (pte_flags (leaf_entry r user_rwx) ≢ 1)
leaf-frame end r (pos_r, al, lo, hi) = (omega arith, ground arith, λ q. omega arith)

module _ (end root start k : ℕ) (s : Kmem) (a : Space end root s) (t : Kmem)
    (al : start % page_size ≡ 0) (b : start + suc k * page_size ≤ max_va)
    (w : Grown end root start k s a t) (r : ℕ) (u : Kmem)
    (p : PageGrown end root (start + k * page_size) r t (w.space) u) where
  old_entry :
      (i : ℕ)
      → i < k
      → mapped u root (start + i * page_size) ≡ mapped t root (start + i * page_size)
  old_entry i lt = p.set.elsewhere (start + i * page_size) (omega arith) (λ q. omega arith)

  old_frame : (i : ℕ) → i < k → frame root start u i ≡ frame root start t i
  old_frame i lt = ap pte2pa (old_entry i lt)

  new_entry : mapped u root (start + k * page_size) ≡ leaf_entry r user_rwx
  new_entry = p.set.at_page (start + k * page_size) (omega arith) refl

  new_frame : frame root start u k ≡ r
  new_frame = ap pte2pa new_entry ∙ (leaf-frame end r (p.page)).0

  -- A property of the old frames and of the new page is one of all.
  each_frame :
      (P : ℕ → Type 0)
      → ((i : ℕ) → i < k → P (frame root start t i))
      → P r
      → (i : ℕ) → i < suc k
      → P (frame root start u i)
  each_frame P old new i lt = elim (ℕ_discrete i k) [
    | yes q ↦ subst (λ j. P (frame root start u j)) (sym q) (subst P (sym new_frame) new)
    | no ne ↦ let h : i < k = omega arith in subst P (sym (old_frame i h)) (old i h)
  ]

  kept_frame :
      (i : ℕ)
      → i < k
      → (p.set.space.own (frame root start t i) ≡ true)
        × (p.set.space.home (frame root start t i) ≡ none)
        × ((j : ℕ)
            → frame root start t i ≤ j
            → j < frame root start t i + page_size
            → u.mem j ≡ t.mem j)
  kept_frame i lt = let l = w.leaves.leaf i lt in p.kept (frame root start t i) (l.held) (l.plain)

  old_apart : (i : ℕ) → i < k → frame root start t i ≢ r
  old_apart i lt q = cc ((w.leaves.leaf i lt).held, q, p.unowned)

  new-LeafAt : (i : ℕ) → i < suc k → LeafAt end root (start + i * page_size) u (p.set.space)
  new-LeafAt i lt = record {
    valid = elim (ℕ_discrete i k) [
      | yes q ↦
          ap (λ j. is_valid (mapped u root (start + j * page_size))) q
          ∙ ap is_valid new_entry
          ∙ (leaf-frame end r (p.page)).1
      | no ne ↦
          let h : i < k = omega arith in ap is_valid (old_entry i h) ∙ (w.leaves.leaf i h).valid
    ];
    leaf = elim (ℕ_discrete i k) [
      | yes q ↦ λ e. (leaf-frame end r (p.page)).2 (
          sym
            (ap (λ j. pte_flags (mapped u root (start + j * page_size))) q ∙ ap pte_flags new_entry)
          ∙ e)
      | no ne ↦ λ e.
          let h : i < k = omega arith in
          (w.leaves.leaf i h).leaf (sym (ap pte_flags (old_entry i h)) ∙ e)
    ];
    held = each_frame (λ x. p.set.space.own x ≡ true) (λ j h. (kept_frame j h).0) (p.held) i lt;
    plain = each_frame (λ x. p.set.space.home x ≡ none) (λ j h. (kept_frame j h).1) (p.plain) i lt;
  }

  new_apart :
      (i j : ℕ) → i < suc k → j < suc k → i ≢ j → frame root start u i ≢ frame root start u j
  new_apart i j hi hj ne e = elim (ℕ_discrete i k) [
    | yes q ↦
        let h : j < k = omega arith in
        old_apart j h (sym (old_frame j h) ∙ sym e ∙ ap (frame root start u) q ∙ new_frame)
    | no ni ↦
        let g : i < k = omega arith in
        elim (ℕ_discrete j k) [
          | yes q ↦ old_apart i g (sym (old_frame i g) ∙ e ∙ ap (frame root start u) q ∙ new_frame)
          | no nj ↦
              let h : j < k = omega arith in
              w.leaves.apart i j g h ne (sym (old_frame i g) ∙ e ∙ old_frame j h)
        ]
  ]

  pub one_more-Grown : Grown end root start (suc k) s a u
  one_more-Grown = record {
    space = p.set.space;
    entries = λ i lt. elim (ℕ_discrete i k) [
      | yes q ↦
          ap (λ j. mapped u root (start + j * page_size)) q
          ∙ new_entry
          ∙ ap (λ x. leaf_entry x user_rwx) (sym new_frame ∙ ap (frame root start u) (sym q))
      | no ne ↦
          let h : i < k = omega arith in
          old_entry i h ∙ w.entries i h ∙ ap (λ x. leaf_entry x user_rwx) (sym (old_frame i h))
    ];
    outside = λ va lt o.
        let ne : (start + k * page_size) / 4096 ≢ va / 4096 =
          λ q. elim o [ inl l ↦ absurd (omega arith) | inr h ↦ absurd (omega arith) ] in
        p.set.elsewhere va lt ne
        ∙ w.outside va lt (elim o [ inl l ↦ inl l | inr h ↦ inr (omega arith) ]);
    leaves = record { leaf = new-LeafAt; apart = new_apart };
    fresh = λ i lt x o n.
        each_frame (λ y. y ≢ x) (λ j h. w.fresh j h x o n)
          (λ q. cc (ap w.space.own q, p.unowned, (w.kept x o n).0)) i lt;
    zeros = λ i j lt.
        each_frame (λ x. x ≤ j → j < x + page_size → u.mem j ≡ 0)
          (λ i h lo hi. (kept_frame i h).2 j lo hi ∙ w.zeros i j h lo hi) (p.zeros j) i lt;
    kept = λ x o n.
        let (o1, n1, same1) = w.kept x o n in
        let (o2, n2, same2) = p.kept x o1 n1 in (o2, n2, λ i lo hi. same2 i lo hi ∙ same1 i lo hi);
  }
