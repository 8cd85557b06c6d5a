-- ===== src/Vm/Tables.antt =====
-- `walk` with `alloc` as a whole: every level is entered through a valid entry or a new table.
use mathlib.Core.Path.{subst}
use mit6s.Base.{
  ℕ, zero, suc, ◌+◌, ◌≤◌, ◌<◌, ◌≡◌, ◌≢◌, inl, inr, refl, sym, ap, ◌∙◌, arith, Bool, true, false,
  some, update, update_ne, Bool-cases,
}
use mit6s.Kalloc.{page_size, Kmem, kalloc}
use mit6s.Kalloc.Owners.{Heap, Sound, here, next, allocates, Fresh, kalloc-Fresh, Reach-Sound}
use mit6s.Vm.Walk.{px, pa2pte, pte2pa, is_valid, slot, attach, walk_from}
use mit6s.Vm.Index.{prefix, px-lt}
use mit6s.Vm.Shape.{table, Home, Shaped, home-Page, home-child}
use mit6s.Vm.Grow.{Walked, walk_valid, walk_null, walk_fresh, Walked-nothing, Walked-valid}
use mit6s.Vm.Attach.{
  pte2pa-pa2pte, attached-kept, attached-pte, home_after-old, home_after-new, old-slot,
  attached-Shaped, entry-attached,
}

-- Through a new table.
module _ (end : ℕ) {home : Home} {own : ℕ → Bool} {s : Kmem} (d : Shaped end home own s)
    (k pt va r : ℕ) (t : Kmem) (bound : suc k ≤ 2)
    (at_pt : home pt ≡ some (suc k, prefix (suc k) va))
    (invalid : is_valid (s.mem (slot pt (px (suc k) va))) ≡ false)
    (f : Fresh end (record { kmem = s; own = own }) r t)
    (g : Sound end (record { kmem = t; own = update own r true })) where
  abbrev added : Kmem
  added = attach (slot pt (px (suc k) va)) r t

  added-valid :
      (x l p i : ℕ)
      → home x ≡ some (l, p)
      → i < 512
      → is_valid (s.mem (slot x i)) ≡ true
      → added.mem (slot x i) ≡ s.mem (slot x i)
  added-valid x l p i h hi v =
      elim (old-slot end d k pt va r t bound at_pt invalid f g x l p i h hi) [
        | inl (q, xp, ip) ↦ absurd (cc (ap (λ a. is_valid (s.mem a)) q, v, invalid))
        | inr e ↦ e
      ]

  Walked-fresh :
      (p : ℕ) (u : Kmem)
      → Walked end (update home r (some (k, prefix k va))) (update own r true) added k r va p u
      → Walked end home own s (suc k) pt va p u
  unfolding table
  Walked-fresh p u w = record {
    home_after = w.home_after;
    own_after = w.own_after;
    shaped = w.shaped;
    grows = λ h. w.grows (home_after-old end d k pt va r t bound at_pt invalid f g h);
    same = λ l x va' b h.
        w.same l x va' b (home_after-old end d k pt va r t bound at_pt invalid f g h)
        ∙ entry-attached end d k pt va r t bound at_pt invalid f g l x va' b h;
    keeps = λ x l q i h hi v.
        let e = added-valid x (suc l) q i h hi v in
        w.keeps x l q i (home_after-old end d k pt va r t bound at_pt invalid f g h) hi
          (ap is_valid e ∙ v)
        ∙ e;
    others = λ x o n.
        let ne : r ≢ x = λ q. cc (ap own q, f.unowned, o) in
        let np : pt ≢ x = λ q. cc (ap home q, at_pt, n) in
        let (o', n', same) =
          w.others x (update_ne own r true x ne ∙ o)
            (update_ne home r (some (k, prefix k va)) x ne ∙ n) in
        (
          o',
          n',
          λ a lo hi.
              same a lo hi
              ∙ attached-kept end d k pt va r t bound at_pt invalid f g x a o lo hi
                  (λ q. other-page x a o np lo hi q),
        );
    ends =
        let pte = slot pt (px (suc k) va) in
        let (back, valid) = pte2pa-pa2pte end r (f.page) in
        let e0 = attached-pte end d k pt va r t bound at_pt invalid f g in
        let e1 =
          w.keeps pt k (prefix (suc k) va) (px (suc k) va)
            (home_after-old end d k pt va r t bound at_pt invalid f g at_pt) (px-lt (suc k) va)
            (ap is_valid e0 ∙ valid) in
        let e : u.mem pte ≡ pa2pte r + 1 = e1 ∙ e0 in
        elim w.ends [ inl full ↦ inl full | inr (x, tx, ep) ↦ inr (x, rw (e, valid, back) tx, ep) ];
  }
    where
      other-page :
          (x a : ℕ)
          → own x ≡ true
          → pt ≢ x
          → x ≤ a
          → a < x + page_size
          → a ≢ slot pt (px (suc k) va)
      other-page x a o np lo hi q =
          let ex = d.sound.pages x o in
          let ept = home-Page end d at_pt in
          absurd (np (omega (arith, px-lt (suc k) va, ex.1, ept.1)))

pub walk-Walked :
    (end : ℕ) (l : ℕ) {home : Home} {own : ℕ → Bool} {s : Kmem}
    → Shaped end home own s
    → l ≤ 2
    → (pt va : ℕ) → home pt ≡ some (l, prefix l va)
    → Walked end home own s l pt va (walk_from l true pt va s).0 (walk_from l true pt va s).1
unfolding table walk_from
walk-Walked end zero {home} {own} {s} d b pt va h =
    Walked-nothing end home own s 0 pt va (slot pt (px 0 va)) (s.lock) d (inr (pt, refl, refl))
walk-Walked end (suc l) {home} {own} {s} d b pt va h =
    let P : ℕ × Kmem → Type 0 = λ r. Walked end home own s (suc l) pt va r.0 r.1 in
    let pte = slot pt (px (suc l) va) in
    elim (Bool-cases (is_valid (s.mem pte))) [
      | inl v ↦
          let c = pte2pa (s.mem pte) in
          let (p, t) = walk_from l true c va s in
          subst P (sym (walk_valid true l pt va s v)) (
            Walked-valid end home own s l pt va p t h v
              (walk-Walked end l d (omega arith) c va (home-child end d l pt va b h v)))
      | inr v ↦
          let heap : Heap = record { kmem = s; own = own } in
          let (r, t) = kalloc s in
          elim (kalloc-Fresh end {h = heap} {k = heap} here (d.sound)) [
            | inl (z, e) ↦
                subst P (sym (walk_null l pt va s v e))
                  (Walked-nothing end home own s (suc l) pt va 0 false d (inl (refl, e)))
            | inr f ↦
                let ne : r ≢ 0 = λ z. omega (arith, f.page.0) in
                let g = Reach-Sound end (next here (allocates ne)) (d.sound) in
                let u = attach pte r t in
                let (p, x) = walk_from l true r va u in
                subst P (sym (walk_fresh l pt va s v ne)) (
                  Walked-fresh end d l pt va r t b h v f g p x (
                    walk-Walked end l (attached-Shaped end d l pt va r t b h v f g) (omega arith) r
                      va (home_after-new end d l pt va r t b h v f g)))
          ]
    ]
