-- ===== src/Kalloc/Owners.antt =====
-- Clients that allocate, write to and free pages, in any order.
use mathlib.Core.Path.{subst}
use mit6s.Base.{
  ℕ, ◌+◌, ◌%◌, ◌≤◌, ◌<◌, ◌≡◌, ◌≢◌, ◌⊎◌, inl, inr, refl, ap, sym, ◌∙◌, arith, Bool, true, false,
  some, some_inj, List, [], ◌∷◌, ltb, leb, ◌==◌, ◌&&◌, ◌||◌, not, update, update_self, update_ne,
  ℕ_discrete, Bool-cases,
}
use mit6s.Kalloc.{page_size, phys_stop, Kmem, fill, freed_junk, fresh_junk, kfree, kalloc}
use mit6s.Kalloc.Pages.{NotIn, Page, Listed, Listed-change, owned-NotIn, page_apart}

-- The allocator, and which pages clients hold.
pub record Heap : Type 0 where
  pub kmem : Kmem
  pub own : ℕ → Bool

-- The free list is well formed, and what clients hold are pages.
pub record Sound (end : ℕ) (h : Heap) : Type 0 where
  pub free : List ℕ
  pub listed : Listed end h.own h.kmem.mem h.kmem.freelist free
  pub pages : (p : ℕ) → h.own p ≡ true → Page end p

-- What clients may do: allocate a page, free one that they hold, or write a word into one that
-- they hold.
pub data Step (end : ℕ) (h : Heap) : Heap → Type 0 where
  allocates :
      (kalloc h.kmem).0 ≢ 0
      → Step end h (record { kmem = (kalloc h.kmem).1; own = update h.own (kalloc h.kmem).0 true })
  is_full : (kalloc h.kmem).0 ≡ 0 → Step end h (record { kmem = (kalloc h.kmem).1; own = h.own })
  frees :
      (p : ℕ) (t : Kmem)
      → h.own p ≡ true
      → kfree end p h.kmem ≡ some t
      → Step end h (record { kmem = t; own = update h.own p false })
  writes :
      (p a v : ℕ)
      → h.own p ≡ true
      → p ≤ a
      → a < p + page_size
      → Step end h (record { kmem = record (h.kmem) { mem = update h.kmem.mem a v }; own = h.own })

pub data Reach (end : ℕ) (h : Heap) : Heap → Type 0 where
  here : Reach end h h
  next : {g k : Heap} → Reach end h g → Step end g k → Reach end h k

pub fill-other :
    (p x w : ℕ) (m : ℕ → ℕ) → p % page_size ≡ 0 → x % page_size ≡ 0 → p ≢ x → fill p w m x ≡ m x
fill-other p x w m ep ex ne = elim (Bool-cases (leb p x && ltb x (p + page_size))) [
  | inl e ↦ absurd (page_apart p x x ep ex ne (ground arith) (ground arith) refl)
  | inr e ↦ rw e refl
]

-- The allocator after a `kfree` that does not panic.
abbrev pub freed : ℕ → Kmem → Kmem
freed p s = record s {
  lock = false;
  mem = update (fill p freed_junk s.mem) p s.freelist;
  freelist = p;
}

pub kfree-Page : (end p : ℕ) (s : Kmem) → Page end p → kfree end p s ≡ some (freed p s)
unfolding kfree
kfree-Page end p s (pos_p, aligned, lo, hi) =
    let e : (not (p % page_size == 0) || (ltb p end || leb phys_stop p)) ≡ false = ground arith in
    rw e refl

-- A page that is not on the list, and not to be used any more, is put at its front.
pub freed-Listed :
    (end p : ℕ) (own own' : ℕ → Bool) (s : Kmem) (xs : List ℕ)
    → Page end p
    → own' p ≡ false
    → ((x : ℕ) → p ≢ x → own' x ≡ own x)
    → NotIn p xs
    → Listed end own s.mem s.freelist xs
    → Listed end own' (freed p s).mem p (p ∷ xs)
freed-Listed end p own own' s xs pg off same far l = (
  refl,
  pg,
  off,
  far,
  subst (λ h. Listed end own' (freed p s).mem h xs)
      (sym (update_self (fill p freed_junk s.mem) p s.freelist))
      (Listed-change end own own' s.mem (freed p s).mem p s.freelist xs
        (λ x px free ne. (
          update_ne (fill p freed_junk s.mem) p s.freelist x ne
              ∙ fill-other p x freed_junk s.mem (pg.1) (px.1) ne,
          same x ne ∙ free,
        ))
        far l),
)

kalloc-some :
    (end : ℕ) (own : ℕ → Bool) (s : Kmem) (x : ℕ) (xs : List ℕ)
    → Listed end own s.mem s.freelist (x ∷ xs)
    → kalloc s ≡ (x, record s { lock = false; freelist = s.mem x; mem = fill x fresh_junk s.mem })
unfolding kalloc
kalloc-some end own s x xs (e, (px, al, lo, hi), free, once, rest) =
    let ne : (s.freelist == 0) ≡ false = ground arith in rw (ne, e) refl

pub kalloc-none : (s : Kmem) → s.freelist ≡ 0 → kalloc s ≡ (0, record s { lock = false })
unfolding kalloc
kalloc-none s e = rw e refl

-- The heap after a page has been allocated.
abbrev taken : Heap → Heap
taken h = record { kmem = (kalloc h.kmem).1; own = update h.own (kalloc h.kmem).0 true }

taken-Sound :
    (end : ℕ) (h : Heap) (xs : List ℕ)
    → ((p : ℕ) → h.own p ≡ true → Page end p)
    → (kalloc h.kmem).0 ≢ 0
    → Listed end h.own h.kmem.mem h.kmem.freelist xs
    → Sound end (taken h)
taken-Sound end h [] pages ne l = absurd (ne (ap (λ r. r.0) (kalloc-none (h.kmem) l)))
taken-Sound end h (x ∷ xs) pages ne l =
    let (e, pg, free, once, rest) = l in
    let s : Kmem = h.kmem in
    let m : ℕ → ℕ = fill x fresh_junk s.mem in
    let after : ℕ × Kmem → Heap = λ r. record { kmem = r.1; own = update h.own r.0 true } in
    subst (λ r. Sound end (after r)) (sym (kalloc-some end h.own s x xs l))
      (record {
        free = xs;
        listed =
            Listed-change end h.own (update h.own x true) s.mem m x (s.mem x) xs
              (λ y py fy ny.
                (fill-other x y fresh_junk s.mem pg.1 py.1 ny, update_ne h.own x true y ny ∙ fy))
              once rest;
        pages = λ p o. elim (ℕ_discrete x p) [
          | yes q ↦ subst (Page end) q pg
          | no np ↦ pages p (sym (update_ne h.own x true p np) ∙ o)
        ];
      })

full-Sound :
    (end : ℕ) (h : Heap) (xs : List ℕ)
    → ((p : ℕ) → h.own p ≡ true → Page end p)
    → (kalloc h.kmem).0 ≡ 0
    → Listed end h.own h.kmem.mem h.kmem.freelist xs
    → Sound end (record { kmem = (kalloc h.kmem).1; own = h.own })
full-Sound end h [] pages z l =
    let after : ℕ × Kmem → Heap = λ r. record { kmem = r.1; own = h.own } in
    subst (λ r. Sound end (after r)) (sym (kalloc-none (h.kmem) l))
      (record { free = []; listed = l; pages = pages })
full-Sound end h (x ∷ xs) pages z l =
    let (e, (px, _, _, _), _, _, _) = l in
    let zx : x ≡ 0 = sym (ap (λ r. r.0) (kalloc-some end h.own (h.kmem) x xs l)) ∙ z in
    absurd (omega arith)

-- The heap after a page that is held has been freed; the page is now in front of the free list.
pub freed-Sound :
    (end p : ℕ) (h : Heap)
    → h.own p ≡ true
    → Sound end h
    → Sound end (record { kmem = freed p (h.kmem); own = update h.own p false })
freed-Sound end p h o d = record {
  free = p ∷ d.free;
  listed =
      freed-Listed end p h.own (update h.own p false) (h.kmem) d.free (d.pages p o)
        (update_self h.own p false) (λ x ne. update_ne h.own p false x ne)
        (owned-NotIn end h.own h.kmem.mem p h.kmem.freelist d.free o d.listed) d.listed;
  pages = λ x ox. elim (ℕ_discrete p x) [
    | yes q ↦ subst (Page end) q (d.pages p o)
    | no np ↦ d.pages x (sym (update_ne h.own p false x np) ∙ ox)
  ];
}

pub freed-list :
    (end p : ℕ) (h : Heap) (o : h.own p ≡ true) (d : Sound end h)
    → (freed-Sound end p h o d).free ≡ p ∷ d.free
unfolding freed-Sound
freed-list end p h o d = refl

Step-Sound : (end : ℕ) {h k : Heap} → Step end h k → Sound end h → Sound end k
Step-Sound end {h} (allocates ne) d = taken-Sound end h d.free d.pages ne d.listed
Step-Sound end {h} (is_full e) d = full-Sound end h d.free d.pages e d.listed
Step-Sound end {h} (frees p t o e) d =
    let et : freed p (h.kmem) ≡ t = some_inj (sym (kfree-Page end p (h.kmem) (d.pages p o)) ∙ e) in
    let after : Kmem → Heap = λ k. record { kmem = k; own = update h.own p false } in
    subst (λ k. Sound end (after k)) et (freed-Sound end p h o d)
Step-Sound end {h} (writes p a v o lo hi) d = record {
  free = d.free;
  listed =
      Listed-change end h.own h.own h.kmem.mem (update h.kmem.mem a v) p h.kmem.freelist d.free
        (λ x px free ne. (
          update_ne h.kmem.mem a v x (λ q. page_apart p x a (d.pages p o).1 px.1 ne lo hi (sym q)),
          free,
        ))
        (owned-NotIn end h.own h.kmem.mem p h.kmem.freelist d.free o d.listed) d.listed;
  pages = d.pages;
}

pub Reach-Sound : (end : ℕ) {h k : Heap} → Reach end h k → Sound end h → Sound end k
Reach-Sound end here d = d
Reach-Sound end (next r s) d = Step-Sound end s (Reach-Sound end r d)

-- What a call of `kalloc` gives to a client of a heap.
pub record Fresh (end : ℕ) (h : Heap) (r : ℕ) (t : Kmem) : Type 0 where
  pub page : Page end r
  pub unowned : h.own r ≡ false
  pub junk : (a : ℕ) → r ≤ a → a < r + page_size → t.mem a ≡ fresh_junk
  pub kept : (p a : ℕ) → h.own p ≡ true → p ≤ a → a < p + page_size → t.mem a ≡ h.kmem.mem a

apart_pages :
    (p x a : ℕ)
    → p % page_size ≡ 0
    → x % page_size ≡ 0
    → x ≢ p
    → p ≤ a
    → a < p + page_size
    → x ≤ a
    → a < x + page_size
    → ⊥
apart_pages p x a ep ex ne lo hi lo' hi' = omega arith

pub outside :
    (p x a w : ℕ) (m : ℕ → ℕ)
    → p % page_size ≡ 0
    → x % page_size ≡ 0
    → x ≢ p
    → p ≤ a
    → a < p + page_size
    → fill x w m a ≡ m a
outside p x a w m ep ex ne lo hi = elim (Bool-cases (leb x a && ltb a (x + page_size))) [
  | inl e ↦ absurd (apart_pages p x a ep ex ne lo hi (ground arith) (ground arith))
  | inr e ↦ rw e refl
]

Listed-Fresh :
    (end : ℕ) (h : Heap) (xs : List ℕ)
    → ((p : ℕ) → h.own p ≡ true → Page end p)
    → Listed end h.own h.kmem.mem h.kmem.freelist xs
    → let (r, t) = kalloc h.kmem in ((r ≡ 0) × (h.kmem.freelist ≡ 0)) ⊎ Fresh end h r t
Listed-Fresh end h [] pages l = inl (ap (λ r. r.0) (kalloc-none (h.kmem) l), l)
Listed-Fresh end h (x ∷ xs) pages l =
    let (e, pg, free, once, rest) = l in
    subst (λ r. ((r.0 ≡ 0) × (h.kmem.freelist ≡ 0)) ⊎ Fresh end h r.0 r.1)
      (sym (kalloc-some end h.own (h.kmem) x xs l))
      (inr (record {
        page = pg;
        unowned = free;
        junk = λ a lo hi. ground arith;
        kept = λ p a o lo hi.
            let ne : x ≢ p = λ q. cc (ap h.own q, free, o) in
            outside p x a fresh_junk h.kmem.mem (pages p o).1 pg.1 ne lo hi;
      }))

-- Whatever clients do with the pages that they hold, `kalloc` gives out a page that nobody holds,
-- all junk, and touches no page that is held; or it returns null, and the free list is empty.
pub kalloc-Fresh :
    (end : ℕ) {h k : Heap}
    → Reach end h k
    → Sound end h
    → let (r, t) = kalloc k.kmem in ((r ≡ 0) × (k.kmem.freelist ≡ 0)) ⊎ Fresh end k r t
kalloc-Fresh end {k = k} r d =
    let e = Reach-Sound end r d in Listed-Fresh end k e.free e.pages e.listed

-- A client can free a page that it holds: `kfree` does not panic, and puts the page at the front
-- of the free list.
pub kfree_succeeds :
    (end : ℕ) {h k : Heap}
    → Reach end h k
    → Sound end h
    → (p : ℕ) → k.own p ≡ true
    → (t : Kmem) × (kfree end p k.kmem ≡ some t) × (t.freelist ≡ p) × (t.mem p ≡ k.kmem.freelist)
kfree_succeeds end {k = k} r d p o =
    let e = Reach-Sound end r d in
    (
      freed p (k.kmem),
      kfree-Page end p (k.kmem) (e.pages p o),
      refl,
      update_self (fill p freed_junk k.kmem.mem) p k.kmem.freelist,
    )
