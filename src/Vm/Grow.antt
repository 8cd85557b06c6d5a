-- ===== src/Vm/Grow.antt =====
-- `walk` with `alloc`: the tables that it adds leave every address its entry.
use mit6s.Base.{
  ℕ, suc, ◌+◌, ◌≤◌, ◌<◌, ◌≡◌, ◌≢◌, ◌⊎◌, inl, inr, refl, Bool, true, false, none, some, ==_ne,
}
use mit6s.Kalloc.{page_size, Kmem, kalloc}
use mit6s.Kalloc.Owners.{kalloc-none}
use mit6s.Vm.Walk.{px, pte2pa, is_valid, slot, attach, walk_from}
use mit6s.Vm.Index.{prefix, px-lt}
use mit6s.Vm.Shape.{table, entry, Home, Shaped}

-- What `walk` with `alloc` does below the table `pt` of level `l`: `home` and `own` grow by the
-- new tables, and the answer is 0 with an empty free list, or the entry for `va`.
pub record Walked (end : ℕ) (home : Home) (own : ℕ → Bool) (s : Kmem) (l pt va p : ℕ) (t : Kmem)
    : Type 0 where
  pub home_after : Home
  pub own_after : ℕ → Bool
  pub shaped : Shaped end home_after own_after t
  pub grows : {x k q : ℕ} → home x ≡ some (k, q) → home_after x ≡ some (k, q)
  pub same :
      (k x va' : ℕ)
      → k ≤ 2
      → home x ≡ some (k, prefix k va')
      → entry k t.mem x va' ≡ entry k s.mem x va'
  pub keeps :
      (x k q i : ℕ)
      → home x ≡ some (suc k, q)
      → i < 512
      → is_valid (s.mem (slot x i)) ≡ true
      → t.mem (slot x i) ≡ s.mem (slot x i)
  pub others :
      (x : ℕ)
      → own x ≡ true
      → home x ≡ none
      → (own_after x ≡ true)
        × (home_after x ≡ none)
        × ((a : ℕ) → x ≤ a → a < x + page_size → t.mem a ≡ s.mem a)
  pub ends :
      ((p ≡ 0) × (t.freelist ≡ 0))
      ⊎ ((x : ℕ) × (table l t.mem pt va ≡ some x) × (p ≡ slot x (px 0 va)))

pub walk_valid :
    (alloc : Bool) (l pt va : ℕ) (s : Kmem)
    → is_valid (s.mem (slot pt (px (suc l) va))) ≡ true
    → walk_from (suc l) alloc pt va s
      ≡ walk_from l alloc (pte2pa (s.mem (slot pt (px (suc l) va)))) va s
unfolding walk_from
walk_valid alloc l pt va s v = rw v refl

pub walk_null :
    (l pt va : ℕ) (s : Kmem)
    → is_valid (s.mem (slot pt (px (suc l) va))) ≡ false
    → s.freelist ≡ 0
    → walk_from (suc l) true pt va s ≡ (0, record s { lock = false })
unfolding walk_from
walk_null l pt va s v e = rw (v, kalloc-none s e) refl

pub walk_fresh :
    (l pt va : ℕ) (s : Kmem)
    → is_valid (s.mem (slot pt (px (suc l) va))) ≡ false
    → (kalloc s).0 ≢ 0
    → walk_from (suc l) true pt va s
      ≡ walk_from l true
          (kalloc s).0
          va
          (attach (slot pt (px (suc l) va)) (kalloc s).0 (kalloc s).1)
unfolding walk_from
walk_fresh l pt va s v ne = rw (v, ==_ne (kalloc s).0 0 ne) refl

-- Nothing has been done.
pub Walked-nothing :
    (end : ℕ) (home : Home) (own : ℕ → Bool) (s : Kmem) (l pt va p : ℕ) (b : Bool)
    → Shaped end home own s
    → ((p ≡ 0) × (s.freelist ≡ 0))
      ⊎ ((x : ℕ) × (table l s.mem pt va ≡ some x) × (p ≡ slot x (px 0 va)))
    → Walked end home own s l pt va p (record s { lock = b })
Walked-nothing end home own s l pt va p b d e = record {
  home_after = home;
  own_after = own;
  shaped = record {
    child = d.child;
    held = d.held;
    sound = record { free = d.sound.free; listed = d.sound.listed; pages = d.sound.pages };
  };
  grows = λ h. h;
  same = λ k x va' b h. refl;
  keeps = λ x k q i h hi v. refl;
  others = λ x o n. (o, n, λ a lo hi. refl);
  ends = e;
}

-- Through a valid entry.
pub Walked-valid :
    (end : ℕ) (home : Home) (own : ℕ → Bool) (s : Kmem) (l pt va p : ℕ) (t : Kmem)
    → home pt ≡ some (suc l, prefix (suc l) va)
    → is_valid (s.mem (slot pt (px (suc l) va))) ≡ true
    → Walked end home own s l (pte2pa (s.mem (slot pt (px (suc l) va)))) va p t
    → Walked end home own s (suc l) pt va p t
unfolding table
Walked-valid end home own s l pt va p t h v w = record {
  home_after = w.home_after;
  own_after = w.own_after;
  shaped = w.shaped;
  grows = w.grows;
  same = w.same;
  keeps = w.keeps;
  others = w.others;
  ends =
      let e = w.keeps pt l (prefix (suc l) va) (px (suc l) va) h (px-lt (suc l) va) v in
      elim w.ends [ inl full ↦ inl full | inr (x, tx, ep) ↦ inr (x, rw (e, v) tx, ep) ];
}
