-- ===== src/Bcache/Lookup.antt =====
-- How `bget` ends; no two buffers are for the same block.
use mathlib.Core.Path.{subst}
use mit6s.Base.{
  ℕ, ◌+◌, ◌<◌, ◌≡◌, ◌≢◌, ◌⊎◌, inl, inr, refl, sym, ap, ◌∙◌, arith, true, false, Option, none, some,
  List, u32, update, update_self, update_ne, Option-cases, ℕ_discrete,
}
use mit6s.Bcache.{nbuf, Buf, Bcache, is_cached, is_unused, one_more_ref, recycle, bget_with, bget}
use mit6s.Bcache.Links.{reverse}
use mit6s.Bcache.Scans.{first, first-none, first-some, In-reverse, reverse-In}
use mit6s.Bcache.Order.{Order, bget-first}

-- Two buffers for the same block are for device 0, of which there is no block: so they are after
-- `binit`, for no block.
abbrev pub Unique : Bcache → Type 0
Unique s =
    (i j : ℕ)
    → i < nbuf
    → j < nbuf
    → i ≢ j
    → (s.buf i).dev ≡ (s.buf j).dev
    → (s.buf i).blockno ≡ (s.buf j).blockno
    → (s.buf i).dev ≡ 0

-- How `bget` ends: in a panic since no buffer is for the block and all are in use, with the buffer
-- for the block and one more reference to it, or with the least recently used buffer that is not
-- in use.
abbrev pub BgetEnd : ℕ → ℕ → Bcache → List ℕ → Option (ℕ × Bcache) → Type 0
BgetEnd dev blockno s xs none =
    (i : ℕ) → i < nbuf → (is_cached s dev blockno i ≡ false) × ((s.buf i).refcnt ≢ 0)
BgetEnd dev blockno s xs (some (b, t)) =
    (b < nbuf)
    × Order t xs
    × Unique t
    × ((t.buf b).dev ≡ dev)
    × ((t.buf b).blockno ≡ blockno)
    × (((is_cached s dev blockno b ≡ true) × (t ≡ one_more_ref b s))
        ⊎ (((i : ℕ) → i < nbuf → is_cached s dev blockno i ≡ false)
            × (first (is_unused s) (reverse xs) ≡ some b)
            × (t ≡ recycle b dev blockno s)))

cached_eq :
    (s : Bcache) (dev blockno b : ℕ)
    → is_cached s dev blockno b ≡ true
    → ((s.buf b).dev ≡ dev) × ((s.buf b).blockno ≡ blockno)
cached_eq s dev blockno b h = (ground arith, ground arith)

eq_cached :
    (s : Bcache) (dev blockno b : ℕ)
    → (s.buf b).dev ≡ dev
    → (s.buf b).blockno ≡ blockno
    → is_cached s dev blockno b ≡ true
eq_cached s dev blockno b e f = ground arith

-- A buffer written with the device and block that it has.
same_block :
    (buf : ℕ → Buf) (b : ℕ) (x : Buf)
    → x.dev ≡ (buf b).dev
    → x.blockno ≡ (buf b).blockno
    → (i : ℕ)
    → ((update buf b x i).dev ≡ (buf i).dev) × ((update buf b x i).blockno ≡ (buf i).blockno)
same_block buf b x e f i = elim (ℕ_discrete b i) [
  | yes q ↦
      let z : update buf b x i ≡ x = ap (update buf b x) (sym q) ∙ update_self buf b x in
      (
        ap (λ y. Buf.dev y) z ∙ e ∙ ap (λ k. (buf k).dev) q,
        ap (λ y. Buf.blockno y) z ∙ f ∙ ap (λ k. (buf k).blockno) q,
      )
  | no ne ↦ let z = update_ne buf b x i ne in (ap (λ y. Buf.dev y) z, ap (λ y. Buf.blockno y) z)
]

module _ (dev blockno : ℕ) (s : Bcache) (xs : List ℕ) (o : Order s xs) (u : Unique s)
    (nz : dev ≢ 0) where
  buf-Order : (f : ℕ → Buf) → Order (record s { buf = f }) xs
  buf-Order f = record {
    ring = record { linked = o.ring.linked; distinct = o.ring.distinct; no_head = o.ring.no_head };
    all = o.all;
    within = o.within;
    size = o.size;
  }

  cached-BgetEnd :
      (b : ℕ)
      → first (is_cached s dev blockno) xs ≡ some b
      → BgetEnd dev blockno s xs (some (b, one_more_ref b s))
  cached-BgetEnd b e =
      let (c, m) = first-some (is_cached s dev blockno) xs b e in
      let (ed, eb) = cached_eq s dev blockno b c in
      let x : Buf = record (s.buf b) { refcnt = u32 ((s.buf b).refcnt + 1) } in
      let same = same_block s.buf b x refl refl in
      (
        o.within b m,
        buf-Order (update s.buf b x),
        λ i j hi hj ne di bi.
            (same i).0
            ∙ u i j hi hj ne (sym (same i).0 ∙ di ∙ (same j).0) (sym (same i).1 ∙ bi ∙ (same j).1),
        (same b).0 ∙ ed,
        (same b).1 ∙ eb,
        inl (c, refl),
      )

  recycled-Unique :
      (b : ℕ)
      → ((i : ℕ) → i < nbuf → is_cached s dev blockno i ≡ false)
      → Unique (recycle b dev blockno s)
  recycled-Unique b nc i j hi hj ne di bi =
      let x : Buf = record (s.buf b) { dev = dev; blockno = blockno; valid = false; refcnt = 1 } in
      let other : (k : ℕ) → b ≢ k → update s.buf b x k ≡ s.buf k =
        λ k nk. update_ne s.buf b x k nk in
      let mine : (k : ℕ) → b ≡ k → update s.buf b x k ≡ x =
        λ k q. ap (update s.buf b x) (sym q) ∙ update_self s.buf b x in
      elim (ℕ_discrete b i) [
        | yes q ↦
            let nj : b ≢ j = λ r. ne (sym q ∙ r) in
            let ed =
              sym (ap (λ y. Buf.dev y) (other j nj)) ∙ sym di ∙ ap (λ y. Buf.dev y) (mine i q) in
            let eb =
              sym (ap (λ y. Buf.blockno y) (other j nj))
              ∙ sym bi
              ∙ ap (λ y. Buf.blockno y) (mine i q) in
            absurd (cc (eq_cached s dev blockno j ed eb, nc j hj))
        | no ni ↦ elim (ℕ_discrete b j) [
          | yes q ↦
              let ed =
                sym (ap (λ y. Buf.dev y) (other i ni)) ∙ di ∙ ap (λ y. Buf.dev y) (mine j q) in
              let eb =
                sym (ap (λ y. Buf.blockno y) (other i ni))
                ∙ bi
                ∙ ap (λ y. Buf.blockno y) (mine j q) in
              absurd (cc (eq_cached s dev blockno i ed eb, nc i hi))
          | no nj ↦
              ap (λ y. Buf.dev y) (other i ni)
              ∙ u i j hi hj ne
                  (sym (ap (λ y. Buf.dev y) (other i ni)) ∙ di ∙ ap (λ y. Buf.dev y) (other j nj))
                  (sym (ap (λ y. Buf.blockno y) (other i ni))
                    ∙ bi
                    ∙ ap (λ y. Buf.blockno y) (other j nj))
        ]
      ]

  recycled-BgetEnd :
      (b : ℕ)
      → first (is_cached s dev blockno) xs ≡ none
      → first (is_unused s) (reverse xs) ≡ some b
      → BgetEnd dev blockno s xs (some (b, recycle b dev blockno s))
  recycled-BgetEnd b e f =
      let nc : (i : ℕ) → i < nbuf → is_cached s dev blockno i ≡ false =
        λ i lt. first-none (is_cached s dev blockno) xs e i (o.all i lt) in
      let (c, m) = first-some (is_unused s) (reverse xs) b f in
      let x : Buf = record (s.buf b) { dev = dev; blockno = blockno; valid = false; refcnt = 1 } in
      let now = update_self s.buf b x in
      (
        o.within b (reverse-In b xs m),
        buf-Order (update s.buf b x),
        recycled-Unique b nc,
        ap (λ y. Buf.dev y) now,
        ap (λ y. Buf.blockno y) now,
        inr (nc, f, refl),
      )

  BgetEnd-bget : BgetEnd dev blockno s xs (bget dev blockno s)
  BgetEnd-bget =
      let a = first (is_cached s dev blockno) xs in
      let c = first (is_unused s) (reverse xs) in
      subst (BgetEnd dev blockno s xs) (sym (bget-first dev blockno s xs o))
        (elim (Option-cases a) [
          | inr (b, e) ↦
              subst (λ r. BgetEnd dev blockno s xs (bget_with r c dev blockno s)) (sym e)
                (cached-BgetEnd b e)
          | inl e ↦ elim (Option-cases c) [
            | inr (b, f) ↦
                subst (λ r. BgetEnd dev blockno s xs (bget_with r c dev blockno s)) (sym e)
                  (subst (λ r. BgetEnd dev blockno s xs (bget_with none r dev blockno s)) (sym f)
                    (recycled-BgetEnd b e f))
            | inl f ↦
                subst (λ r. BgetEnd dev blockno s xs (bget_with r c dev blockno s)) (sym e)
                  (subst (λ r. BgetEnd dev blockno s xs (bget_with none r dev blockno s)) (sym f)
                    (λ i lt. (
                      first-none (is_cached s dev blockno) xs e i (o.all i lt),
                      λ z.
                          let v =
                            first-none (is_unused s) (reverse xs) f i
                              (In-reverse i xs (o.all i lt)) in
                          absurd (ground arith),
                    )))
          ]
        ])

-- `bget` gives the buffer for the block if there is one, with one more reference, and otherwise the
-- least recently used buffer without references, now for that block; it panics only if there is
-- neither. It keeps the order of use, and that no two buffers are for the same block. Devices are
-- numbered from 1.
pub bget-BgetEnd :
    (dev blockno : ℕ) (s : Bcache) (xs : List ℕ)
    → Order s xs
    → Unique s
    → dev ≢ 0
    → BgetEnd dev blockno s xs (bget dev blockno s)
bget-BgetEnd dev blockno s xs o u nz = BgetEnd-bget dev blockno s xs o u nz
