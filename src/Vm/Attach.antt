-- ===== src/Vm/Attach.antt =====
-- One step of `walk` with `alloc`: a new page-table page is cleared and attached to the tree.
use mathlib.Core.Path.{subst}
use mit6s.Base.{
  ℕ, zero, suc, ◌+◌, ◌*◌, ◌≤◌, ◌<◌, ◌≡◌, ◌≢◌, ◌⊎◌, inl, inr, refl, sym, ap, ap₂, ◌∙◌, arith, Bool,
  true, false, some, some_inj, List, [], ◌∷◌, ltb, leb, ◌&&◌, update, update_self, update_ne,
  Bool-cases, ℕ_discrete,
}
use mit6s.Kalloc.{page_size, Kmem, fill}
use mit6s.Kalloc.Pages.{Page, Listed, page_apart}
use mit6s.Kalloc.Owners.{Sound, Fresh, fill-other, outside}
use mit6s.Vm.Walk.{px, pa2pte, pte2pa, is_valid, slot, attach}
use mit6s.Vm.Index.{prefix, px-lt, prefix-suc, slot_inj}
use mit6s.Vm.Shape.{table, entry, Home, Shaped, home-Page, home-child}

-- A memory that differs in pages that are not free only has the same free list.
pub Listed-mem :
    (end : ℕ) (own : ℕ → Bool) (m m' : ℕ → ℕ) (head : ℕ) (xs : List ℕ)
    → ((x : ℕ) → Page end x → own x ≡ false → m' x ≡ m x)
    → Listed end own m head xs
    → Listed end own m' head xs
Listed-mem end own m m' head [] same l = l
Listed-mem end own m m' head (x ∷ xs) same (e, pg, free, once, rest) = (
  e,
  pg,
  free,
  once,
  subst (λ h. Listed end own m' h xs) (sym (same x pg free))
      (Listed-mem end own m m' (m x) xs same rest),
)

pub Sound-mem :
    (end : ℕ) (own : ℕ → Bool) (s : Kmem) (m' : ℕ → ℕ)
    → ((x : ℕ) → Page end x → own x ≡ false → m' x ≡ s.mem x)
    → Sound end (record { kmem = s; own = own })
    → Sound end (record { kmem = record s { mem = m' }; own = own })
Sound-mem end own s m' same d = record {
  free = d.free;
  listed = Listed-mem end own s.mem m' s.freelist d.free same d.listed;
  pages = d.pages;
}

pub Sound-mem_list :
    (end : ℕ) (own : ℕ → Bool) (s : Kmem) (m' : ℕ → ℕ)
    (same : (x : ℕ) → Page end x → own x ≡ false → m' x ≡ s.mem x)
    (d : Sound end (record { kmem = s; own = own }))
    → (Sound-mem end own s m' same d).free ≡ d.free
unfolding Sound-mem
Sound-mem_list end own s m' same d = refl

-- An entry that points to a page leads to it.
pub pte2pa-pa2pte :
    (end r : ℕ) → Page end r → (pte2pa (pa2pte r + 1) ≡ r) × (is_valid (pa2pte r + 1) ≡ true)
pte2pa-pa2pte end r (pos_r, al, lo, hi) = (omega arith, ground arith)

cleared-slot : (r i : ℕ) (m : ℕ → ℕ) → i < 512 → fill r 0 m (slot r i) ≡ 0
cleared-slot r i m h =
    let e : (leb r (slot r i) && ltb (slot r i) (r + page_size)) ≡ true = ground arith in rw e refl

-- `walk` attaches the page `r`, which nobody holds, at an invalid entry of a table of level k + 1.
module _ (end : ℕ) {home : Home} {own : ℕ → Bool} {s : Kmem} (d : Shaped end home own s)
    (k pt va r : ℕ) (t : Kmem) (bound : suc k ≤ 2)
    (at_pt : home pt ≡ some (suc k, prefix (suc k) va))
    (invalid : is_valid (s.mem (slot pt (px (suc k) va))) ≡ false)
    (f : Fresh end (record { kmem = s; own = own }) r t)
    (g : Sound end (record { kmem = t; own = update own r true })) where
  abbrev pub pte : ℕ
  pte = slot pt (px (suc k) va)

  abbrev pub attached : Kmem
  attached = attach pte r t

  abbrev pub home_after : Home
  home_after = update home r (some (k, prefix k va))

  pub fresh-ne : {x l p : ℕ} → home x ≡ some (l, p) → r ≢ x
  fresh-ne {x} {l} {p} h q = cc (ap own q, f.unowned, d.held x l p h)

  -- What the new page does not touch.
  pub attached-kept :
      (x a : ℕ) → own x ≡ true → x ≤ a → a < x + page_size → a ≢ pte → attached.mem a ≡ s.mem a
  attached-kept x a o lo hi ne =
      update_ne (fill r 0 t.mem) pte (pa2pte r + 1) a (λ q. ne (sym q))
      ∙ outside x r a 0 t.mem ((d.sound.pages x o).1) (f.page.1) (λ q. cc (ap own q, f.unowned, o))
          lo hi
      ∙ f.kept x a o lo hi

  pub attached-pte : attached.mem pte ≡ pa2pte r + 1
  attached-pte = update_self (fill r 0 t.mem) pte (pa2pte r + 1)

  pub attached-fresh : (i : ℕ) → i < 512 → attached.mem (slot r i) ≡ 0
  attached-fresh i h =
      let ne : pte ≢ slot r i = λ q. fresh-ne at_pt (
        sym (
          (slot_inj pt r (px (suc k) va) i ((home-Page end d at_pt).1) (f.page.1) (px-lt (suc k) va)
            h q).0)) in
      update_ne (fill r 0 t.mem) pte (pa2pte r + 1) (slot r i) ne ∙ cleared-slot r i t.mem h

  pub home_after-old : {x l p : ℕ} → home x ≡ some (l, p) → home_after x ≡ some (l, p)
  home_after-old {x} h = update_ne home r (some (k, prefix k va)) x (fresh-ne h) ∙ h

  pub home_after-new : home_after r ≡ some (k, prefix k va)
  home_after-new = update_self home r (some (k, prefix k va))

  -- An entry of an older table is as it was, or is the one that has changed.
  pub old-slot :
      (x l p i : ℕ)
      → home x ≡ some (l, p)
      → i < 512
      → ((slot x i ≡ pte) × (x ≡ pt) × (i ≡ px (suc k) va))
        ⊎ (attached.mem (slot x i) ≡ s.mem (slot x i))
  old-slot x l p i h hi = elim (ℕ_discrete (slot x i) pte) [
    | yes q ↦
        let (xp, ip) =
          slot_inj x pt i (px (suc k) va) ((home-Page end d h).1) ((home-Page end d at_pt).1) hi
            (px-lt (suc k) va) q in
        inl (q, xp, ip)
    | no ne ↦ inr (attached-kept x (slot x i) (d.held x l p h) (omega arith) (omega arith) ne)
  ]

  new-child :
      (x l p i : ℕ)
      → home x ≡ some (suc l, p)
      → slot x i ≡ pte
      → x ≡ pt
      → i ≡ px (suc k) va
      → home_after (pte2pa (attached.mem (slot x i))) ≡ some (l, p * 512 + i)
  new-child x l p i h q xp ip =
      let same : Path (ℕ × ℕ) (suc k, prefix (suc k) va) (suc l, p) =
        some_inj (sym at_pt ∙ ap home (sym xp) ∙ h) in
      let sl : suc k ≡ suc l = ap (λ n. n.0) same in
      let lk : k ≡ l = omega arith in
      let pp : prefix (suc k) va ≡ p = ap (λ n. n.1) same in
      let pi : prefix k va ≡ p * 512 + i = omega (arith, prefix-suc k va (omega arith)) in
      ap (λ a. home_after (pte2pa (attached.mem a))) q
      ∙ ap (λ w. home_after (pte2pa w)) attached-pte
      ∙ ap home_after ((pte2pa-pa2pte end r (f.page)).0)
      ∙ home_after-new
      ∙ ap₂ (λ m n. some (m, n)) lk pi

  pub attached-Shaped : Shaped end home_after (update own r true) attached
  attached-Shaped = record {
    child = λ x l p i h hi v. elim (ℕ_discrete r x) [
      | yes q ↦
          let z = ap (λ y. attached.mem (slot y i)) (sym q) ∙ attached-fresh i hi in
          let v0 : is_valid 0 ≡ true = sym (ap is_valid z) ∙ v in absurd (ground arith)
      | no ne ↦
          let old : home x ≡ some (suc l, p) =
            sym (update_ne home r (some (k, prefix k va)) x ne) ∙ h in
          elim (old-slot x (suc l) p i old hi) [
            | inl (q, xp, ip) ↦ new-child x l p i old q xp ip
            | inr e ↦
                ap (λ w. home_after (pte2pa w)) e
                ∙ home_after-old (d.child x l p i old hi (sym (ap is_valid e) ∙ v))
          ]
    ];
    held = λ x l p h. elim (ℕ_discrete r x) [
      | yes q ↦ subst (λ y. update own r true y ≡ true) q (update_self own r true)
      | no ne ↦
          update_ne own r true x ne
          ∙ d.held x l p (sym (update_ne home r (some (k, prefix k va)) x ne) ∙ h)
    ];
    sound =
        Sound-mem end (update own r true) t attached.mem
          (λ x px fx.
            let ne : r ≢ x = λ q. cc (ap (update own r true) q, update_self own r true, fx) in
            update_ne (fill r 0 t.mem) pte (pa2pte r + 1) x (λ q.
              page_apart pt x pte ((home-Page end d at_pt).1) (px.1)
                (λ e. cc (
                  ap own e,
                  d.held pt (suc k) (prefix (suc k) va) at_pt,
                  sym (update_ne own r true x ne) ∙ fx,
                ))
                (omega arith) (omega (arith, px-lt (suc k) va)) (sym q))
            ∙ fill-other r x 0 t.mem (f.page.1) (px.1) ne)
          g;
  }

  -- Below the new page no address has an entry.
  empty-entry : (va' : ℕ) → entry k attached.mem r va' ≡ 0
  unfolding table
  empty-entry va' = elim k as (λ l. entry l attached.mem r va' ≡ 0) [
    | zero ↦ attached-fresh (px 0 va') (px-lt 0 va')
    | suc l ↦
        let z = attached-fresh (px (suc l) va') (px-lt (suc l) va') in
        let v : is_valid (attached.mem (slot r (px (suc l) va'))) ≡ false = rw z refl in rw v refl
  ]

  -- The step leaves every address the entry that it has.
  pub entry-attached :
      (l x va' : ℕ)
      → l ≤ 2
      → home x ≡ some (l, prefix l va')
      → entry l attached.mem x va' ≡ entry l s.mem x va'
  unfolding table
  entry-attached zero x va' h e = elim (old-slot x 0 (prefix 0 va') (px 0 va') e (px-lt 0 va')) [
    | inl (q, xp, ip) ↦
        let z : 0 ≡ suc k = ap (λ n. n.0) (some_inj (sym e ∙ ap home xp ∙ at_pt)) in
        absurd (omega arith)
    | inr same ↦ same
  ]
  entry-attached (suc l) x va' h e =
      let a = slot x (px (suc l) va') in
      elim (old-slot x (suc l) (prefix (suc l) va') (px (suc l) va') e (px-lt (suc l) va')) [
        | inl (q, xp, ip) ↦
            let sl : suc l ≡ suc k = ap (λ n. n.0) (some_inj (sym e ∙ ap home xp ∙ at_pt)) in
            let lk : l ≡ k = omega arith in
            let em : attached.mem a ≡ pa2pte r + 1 = ap attached.mem q ∙ attached-pte in
            let (back, v) = pte2pa-pa2pte end r (f.page) in
            let w : is_valid (s.mem a) ≡ false = ap (λ b. is_valid (s.mem b)) q ∙ invalid in
            rw (em, v, w, back, lk) (empty-entry va')
        | inr same ↦ elim (Bool-cases (is_valid (s.mem a))) [
          | inl v ↦
              rw (same, v)
                (entry-attached l (pte2pa (s.mem a)) va' (omega arith)
                  (home-child end d l x va' h e v))
          | inr v ↦ rw (same, v) refl
        ]
      ]
