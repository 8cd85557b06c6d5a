-- ===== src/Bcache/Release.antt =====
-- How `brelse` ends.
use mathlib.Core.Path.{subst}
use mit6s.Base.{
  ℕ, ◌+◌, ◌-◌, ◌^◌, ◌<◌, ◌≡◌, ◌≢◌, ◌⊎◌, inl, inr, refl, sym, ap, arith, true, false, none, some,
  ==_ne, List, [], ◌∷◌, ◌++◌, length-append, u32, update, update_self, Bool-cases, ℕ_discrete,
}
use mit6s.Bcache.{nbuf, Buf, Bcache, put_first, take_out, holdingsleep, one_ref_less, brelse}
use mit6s.Bcache.Links.{In}
use mit6s.Bcache.Moves.{move-Ring}
use mit6s.Bcache.Scans.{In-append, append-In}
use mit6s.Bcache.Order.{Order}

In-split : (b : ℕ) (xs : List ℕ) → In b xs → (ys : List ℕ) × (zs : List ℕ) × (xs ≡ ys ++ b ∷ zs)
In-split b [] m = absurd m
In-split b (x ∷ xs) (inl q) = ([], xs, ap (λ y. y ∷ xs) (sym q))
In-split b (x ∷ xs) (inr m) = let (ys, zs, e) = In-split b xs m in (x ∷ ys, zs, ap (λ l. x ∷ l) e)

moved-Order :
    (s : Bcache) (ys : List ℕ) (b : ℕ) (zs : List ℕ)
    → Order s (ys ++ b ∷ zs)
    → Order (put_first b (take_out b s)) (b ∷ ys ++ zs)
moved-Order s ys b zs o = record {
  ring = move-Ring s ys b zs (o.ring);
  all = λ i lt. elim (append-In i ys (b ∷ zs) (o.all i lt)) [
    | inl a ↦ inr (In-append i ys zs (inl a))
    | inr (inl q) ↦ inl q
    | inr (inr c) ↦ inr (In-append i ys zs (inr c))
  ];
  within = λ i m. o.within i (elim m [
    | inl q ↦ In-append i ys (b ∷ zs) (inr (inl q))
    | inr m' ↦ elim (append-In i ys zs m') [
      | inl a ↦ In-append i ys (b ∷ zs) (inl a)
      | inr c ↦ In-append i ys (b ∷ zs) (inr (inr c))
    ]
  ]);
  size = omega (arith, length-append ys (b ∷ zs), length-append ys zs, o.size);
}

-- The buffer `b` is released, and its count one less.
abbrev pub released : Buf → Buf
released x = record x { holder = none; refcnt = u32 (x.refcnt + (2 ^ 32 - 1)) }

less-Order : (s : Bcache) (b : ℕ) (xs : List ℕ) → Order s xs → Order (one_ref_less b s) xs
less-Order s b xs o = record {
  ring = record { linked = o.ring.linked; distinct = o.ring.distinct; no_head = o.ring.no_head };
  all = o.all;
  within = o.within;
  size = o.size;
}

-- `brelse` panics if the process does not hold the buffer. Otherwise it releases the buffer and
-- counts one reference less; if that was the last one, the buffer moves to the front of the list,
-- and the order of the others stays.
pub brelse-Order :
    (pid b : ℕ) (s : Bcache) (xs : List ℕ)
    → Order s xs
    → b < nbuf
    → ((holdingsleep pid b s ≡ false) × (brelse pid b s ≡ none))
      ⊎ ((t : Bcache) × (holdingsleep pid b s ≡ true)
          × (brelse pid b s ≡ some t)
          × (t.buf ≡ update s.buf b (released (s.buf b)))
          × ((((released (s.buf b)).refcnt ≢ 0) × Order t xs)
              ⊎ (((released (s.buf b)).refcnt ≡ 0)
                  × ((ys : List ℕ) × (zs : List ℕ) × (xs ≡ ys ++ b ∷ zs)
                      × Order t (b ∷ ys ++ zs)))))
unfolding brelse
brelse-Order pid b s xs o lt = elim (Bool-cases (holdingsleep pid b s)) [
  | inr h ↦ inl (h, rw (h, brelse) refl)
  | inl h ↦
      let t = one_ref_less b s in
      let now : (t.buf b).refcnt ≡ (released (s.buf b)).refcnt =
        ap (λ x. Buf.refcnt x) (update_self s.buf b (released (s.buf b))) in
      elim (ℕ_discrete ((released (s.buf b)).refcnt) 0) [
        | no ne ↦ inr (
          t,
          h,
          rw (h, now, ==_ne ((released (s.buf b)).refcnt) 0 ne, brelse) refl,
          refl,
          inl (ne, less-Order s b xs o),
        )
        | yes z ↦
            let (ys, zs, e) = In-split b xs (o.all b lt) in
            inr (
              put_first b (take_out b t),
              h,
              rw (h, now, z, brelse) refl,
              refl,
              inr (z, (ys, zs, e, moved-Order t ys b zs (subst (Order t) e (less-Order s b xs o)))),
            )
      ]
]
