-- ===== src/Bcache/Moves.antt =====
-- The assignments that take a buffer out of the list, and those that put it behind the head.
use mathlib.Core.Path.{subst}
use mit6s.Base.{ℕ, ◌≡◌, ◌≢◌, sym, ap, ◌∙◌, List, [], ◌∷◌, ◌++◌, update, update_self, update_ne}
use mit6s.Bcache.{head, Bcache, put_first, take_out}
use mit6s.Bcache.Links.{
  NotIn, Distinct, Linked, Same-update, Same-trans, Linked-Same, NotIn-split, NotIn-append,
}

module _ (n p : ℕ → ℕ) (b z : ℕ) where
  prev_among :
      (a x : ℕ) (ys zs : List ℕ) → Linked n p a (ys ++ b ∷ zs) z → x ≢ a → NotIn x ys → x ≢ p b
  prev_among a x [] zs (l, r, rest) ne far q = ne (q ∙ r)
  prev_among a x (y ∷ ys) zs (l, r, rest) ne (ny, far) q = prev_among y x ys zs rest ny far q

  next_among :
      (a x : ℕ) (ys zs : List ℕ) → Linked n p a (ys ++ b ∷ zs) z → NotIn x zs → x ≢ z → x ≢ n b
  next_among a x [] [] (l, r, (l', r')) far ne q = ne (q ∙ l')
  next_among a x [] (w ∷ ws) (l, r, (l', r', rest)) (nw, far) ne q = nw (q ∙ l')
  next_among a x (y ∷ ys) zs (l, r, rest) far ne q = next_among y x ys zs rest far ne q

  abbrev n_out : ℕ → ℕ
  n_out = update n (p b) (n b)

  abbrev p_out : ℕ → ℕ
  p_out = update p (n b) (p b)

  n_out-prev : (a : ℕ) → p b ≡ a → n_out a ≡ n b
  n_out-prev a e = ap n_out (sym e) ∙ update_self n (p b) (n b)

  p_out-next : (c : ℕ) → n b ≡ c → p_out c ≡ p b
  p_out-next c e = ap p_out (sym e) ∙ update_self p (n b) (p b)

  Linked-out :
      (a : ℕ) (ys zs : List ℕ)
      → Linked n p a (ys ++ b ∷ zs) z
      → NotIn a (ys ++ b ∷ zs)
      → Distinct (ys ++ b ∷ zs)
      → NotIn z (ys ++ b ∷ zs)
      → Linked n_out p_out a (ys ++ zs) z
  Linked-out a [] [] (l, r, (l', r')) na d nz = (n_out-prev a r ∙ l', p_out-next z l' ∙ r)
  Linked-out a [] (w ∷ ws) (l, r, (l', r', rest)) (nb, (nw, na)) (nbw, (dw, d)) (zb, (zw, nz)) = (
    n_out-prev a r ∙ l',
    p_out-next w l' ∙ r,
    Linked-Same n n_out p p_out w ws z
        (Same-update n (p b) (n b) (w ∷ ws) (subst (λ x. NotIn x (w ∷ ws)) (sym r) (nw, na)))
        (Same-update p (n b) (p b) ws (subst (λ x. NotIn x ws) (sym l') dw))
        (update_ne p (n b) (p b) z (λ q. zw (sym q ∙ l'))) rest,
  )
  Linked-out a (y ∷ ys) zs (l, r, rest) (ny, na) (dy, d) (zy, nz) =
      let (na_ys, nab, na_zs) = NotIn-split a ys b zs na in
      let (dy_ys, dyb, dy_zs) = NotIn-split y ys b zs dy in
      (
        update_ne n (p b) (n b) a (λ q. prev_among y a ys zs rest ny na_ys (sym q)) ∙ l,
        update_ne p (n b) (p b) y (λ q. next_among y y ys zs rest dy_zs (λ e. zy (sym e)) (sym q))
            ∙ r,
        Linked-out y ys zs rest dy d nz,
      )

  -- The next of `b` is not `b` itself.
  next-ne :
      (a : ℕ) (ys zs : List ℕ)
      → Linked n p a (ys ++ b ∷ zs) z
      → Distinct (ys ++ b ∷ zs)
      → NotIn z (ys ++ b ∷ zs)
      → n b ≢ b
  next-ne a [] [] (l, r, (l', r')) d (zb, nz) q = zb (sym l' ∙ q)
  next-ne a [] (w ∷ ws) (l, r, (l', r', rest)) ((bw, nb), d) nz q = bw (sym q ∙ l')
  next-ne a (y ∷ ys) zs (l, r, rest) (dy, d) (zy, nz) q = next-ne y ys zs rest d nz q

-- The list of `s` is `xs`, from the most recently used buffer on.
pub record Ring (s : Bcache) (xs : List ℕ) : Type 0 where
  pub linked : Linked s.next s.prev head xs head
  pub distinct : Distinct xs
  pub no_head : NotIn head xs

Distinct-out :
    (ys : List ℕ) (b : ℕ) (zs : List ℕ)
    → Distinct (ys ++ b ∷ zs)
    → Distinct (ys ++ zs) × NotIn b (ys ++ zs)
Distinct-out [] b zs (nb, d) = (d, nb)
Distinct-out (y ∷ ys) b zs (dy, d) =
    let (d', nb) = Distinct-out ys b zs d in
    let (a, yb, c) = NotIn-split y ys b zs dy in
    ((NotIn-append y ys zs a c, d'), (λ q. yb (sym q), nb))

pub take_out-Ring :
    (s : Bcache) (ys : List ℕ) (b : ℕ) (zs : List ℕ)
    → Ring s (ys ++ b ∷ zs)
    → Ring (take_out b s) (ys ++ zs)
take_out-Ring s ys b zs r =
    let n = s.next in
    let p = s.prev in
    let same : update p (n b) (p b) b ≡ p b =
      update_ne p (n b) (p b) b
        (next-ne n p b head head ys zs (r.linked) (r.distinct) (r.no_head)) in
    let (a, hb, c) = NotIn-split head ys b zs (r.no_head) in
    record {
      linked =
          subst (λ i. Linked (update n i (n b)) (update p (n b) (p b)) head (ys ++ zs) head)
            (sym same)
            (Linked-out n p b head head ys zs (r.linked) (r.no_head) (r.distinct) (r.no_head));
      distinct = (Distinct-out ys b zs (r.distinct)).0;
      no_head = NotIn-append head ys zs a c;
    }

-- Behind the head comes `b`, and behind it the rest.
put-Linked :
    (n p : ℕ → ℕ) (b : ℕ) (xs : List ℕ)
    → b ≢ head
    → NotIn b xs
    → NotIn head xs
    → Distinct xs
    → Linked n p head xs head
    → Linked
        (update (update n b (n head)) head b)
        (update (update p b head) (n head) b)
        head
        (b ∷ xs)
        head
put-Linked n p b [] bh nb nh d (l, r) =
    let n1 = update n b (n head) in
    let p1 = update p b head in
    (
      update_self n1 head b,
      update_ne p1 (n head) b b (λ q. bh (sym q ∙ l)) ∙ update_self p b head,
      (
        update_ne n1 head b b (λ q. bh (sym q)) ∙ update_self n b (n head) ∙ l,
        ap (update p1 (n head) b) (sym l) ∙ update_self p1 (n head) b,
      ),
    )
put-Linked n p b (x ∷ xs) bh (bx, nb) (hx, nh) (dx, d) (l, r, rest) =
    let n1 = update n b (n head) in
    let p1 = update p b head in
    let n2 = update n1 head b in
    let p2 = update p1 (n head) b in
    (
      update_self n1 head b,
      update_ne p1 (n head) b b (λ q. bx (sym q ∙ l)) ∙ update_self p b head,
      (
        update_ne n1 head b b (λ q. bh (sym q)) ∙ update_self n b (n head) ∙ l,
        ap p2 (sym l) ∙ update_self p1 (n head) b,
        Linked-Same n n2 p p2 x xs head
            (Same-trans n n1 n2 (x ∷ xs) (Same-update n b (n head) (x ∷ xs) (bx, nb))
              (Same-update n1 head b (x ∷ xs) (hx, nh)))
            (Same-trans p p1 p2 xs (Same-update p b head xs nb)
              (Same-update p1 (n head) b xs (subst (λ y. NotIn y xs) (sym l) dx)))
            (update_ne p1 (n head) b head (λ q. hx (sym q ∙ l)) ∙ update_ne p b head head bh) rest,
      ),
    )

pub put_first-Ring :
    (s : Bcache) (b : ℕ) (xs : List ℕ)
    → b ≢ head
    → NotIn b xs
    → Ring s xs
    → Ring (put_first b s) (b ∷ xs)
put_first-Ring s b xs bh nb r =
    let n = s.next in
    let p = s.prev in
    let same : update n b (n head) head ≡ n head = update_ne n b (n head) head bh in
    record {
      linked =
          subst
            (λ i.
              Linked (update (update n b (n head)) head b) (update (update p b head) i b) head
                (b ∷ xs) head)
            (sym same) (put-Linked n p b xs bh nb (r.no_head) (r.distinct) (r.linked));
      distinct = (nb, r.distinct);
      no_head = (λ q. bh (sym q), r.no_head);
    }

-- A buffer of the list is moved to its front.
pub move-Ring :
    (s : Bcache) (ys : List ℕ) (b : ℕ) (zs : List ℕ)
    → Ring s (ys ++ b ∷ zs)
    → Ring (put_first b (take_out b s)) (b ∷ ys ++ zs)
move-Ring s ys b zs r =
    put_first-Ring (take_out b s) b (ys ++ zs)
      (λ q. (NotIn-split head ys b zs (r.no_head)).1 (sym q))
      ((Distinct-out ys b zs (r.distinct)).1) (take_out-Ring s ys b zs r)
