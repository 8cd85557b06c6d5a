-- ===== src/Str/Copies.antt =====
-- `strncpy` and `safestrcpy`, from a C string to a place that does not overlap it.
use mit6s.Base.{
  ℕ, zero, suc, ◌+◌, ◌-◌, ◌≤◌, ◌<◌, ◌≡◌, ◌⊎◌, inl, ap, ◌∙◌, arith, List, [], ◌∷◌, ◌&&◌, ltb, leb,
  length, take, get_or, if◌then◌else◌, update, update_self, update_ne, ==_ne,
}
use mit6s.Str.{Memory, fill_zero, strncpy, safe_from, safestrcpy}
use mit6s.Str.Text.{IsString}

IsString-update :
    (m : Memory) (p s v : ℕ) (xs : List ℕ)
    → IsString m p xs
    → (s < p) ⊎ (p + length xs < s)
    → IsString (update m s v) p xs
IsString-update m p s v [] h far = update_ne m s v p (omega arith) ∙ h
IsString-update m p s v (x ∷ xs) (e, ne, h) far =
    (update_ne m s v p (omega arith) ∙ e, ne, IsString-update m (p + 1) s v xs h (omega arith))

fill_zero_lem :
    (n s : ℕ) (m : Memory) (a : ℕ)
    → fill_zero n s m a ≡ (if leb s a && ltb a (s + n) then 0 else m a)
unfolding fill_zero
fill_zero_lem zero s m a = ground arith
fill_zero_lem (suc n) s m a = fill_zero_lem n (s + 1) (update m s 0) a ∙ ground arith

get_or-cons :
    (x : ℕ) (xs : List ℕ) (a s : ℕ) → s < a → get_or (x ∷ xs) (a - s) 0 ≡ get_or xs (a - (s + 1)) 0
get_or-cons x xs a s h =
    let e : a - s ≡ suc (a - (s + 1)) = omega arith in ap (λ i. get_or (x ∷ xs) i 0) e

get_or-head : (x : ℕ) (xs : List ℕ) (s : ℕ) → get_or (x ∷ xs) (s - s) 0 ≡ x
get_or-head x xs s = let e : s - s ≡ 0 = omega arith in ap (λ i. get_or (x ∷ xs) i 0) e

-- The `n` bytes at `s` are those of `xs`, and then NULs.
abbrev pub padded : ℕ → ℕ → List ℕ → Memory → Memory
padded s n xs m a = if leb s a && ltb a (s + n) then get_or xs (a - s) 0 else m a

padded-cons :
    (s n x : ℕ) (xs : List ℕ) (m : Memory) (a : ℕ)
    → padded (s + 1) n xs (update m s x) a ≡ padded s (suc n) (x ∷ xs) m a
padded-cons s n x xs m a = ground (arith, get_or-cons x xs a s, get_or-head x xs s)

-- `strncpy` fills exactly the `n` bytes at `s`: with the string's first `n` bytes, without a NUL if
-- it has no room for one, and with NULs behind a shorter string.
pub strncpy-padded :
    (s t n : ℕ) (m : Memory) (xs : List ℕ)
    → IsString m t xs
    → (s + n ≤ t) ⊎ (t + length xs < s)
    → (a : ℕ) → strncpy s t n m a ≡ padded s n xs m a
unfolding strncpy
strncpy-padded s t zero m xs h far a = ground arith
strncpy-padded s t (suc n) m [] h far a =
    ground (arith, fill_zero_lem n (s + 1) (update m s (m t)) a)
strncpy-padded s t (suc n) m (x ∷ xs) (e, ne, h) far a =
    rw (e, ==_ne x 0 ne)
      (strncpy-padded (s + 1) (t + 1) n (update m s x) xs
          (IsString-update m (t + 1) s x xs h (omega arith)) (omega arith) a
        ∙ padded-cons s n x xs m a)

-- A C string in the `n + 1` bytes at `s`, and the rest of memory as in `m`.
pub record SafeCopy (s n : ℕ) (xs : List ℕ) (m r : Memory) : Type 0 where
  pub copied : IsString r s (take n xs)
  pub frame : (a : ℕ) → (a < s) ⊎ (s + n < a) → r a ≡ m a

safe_from-SafeCopy :
    (s t n : ℕ) (m : Memory) (xs : List ℕ)
    → IsString m t xs
    → (s + n < t) ⊎ (t + length xs < s)
    → SafeCopy s n xs m (safe_from s t n m)
unfolding safe_from
safe_from-SafeCopy s t zero m xs h far = record {
  copied = update_self m s 0;
  frame = λ a out. update_ne m s 0 a (omega arith);
}
safe_from-SafeCopy s t (suc n) m [] h far = rw h (record {
  copied = update_ne (update m s 0) (s + 1) 0 s (omega arith) ∙ update_self m s 0;
  frame =
      λ a out. update_ne (update m s 0) (s + 1) 0 a (omega arith) ∙ update_ne m s 0 a (omega arith);
})
safe_from-SafeCopy s t (suc n) m (x ∷ xs) (e, ne, h) far =
    let w =
      safe_from-SafeCopy (s + 1) (t + 1) n (update m s x) xs
        (IsString-update m (t + 1) s x xs h (omega arith)) (omega arith) in
    rw (e, ==_ne x 0 ne)
      (record {
        copied = (w.frame s (inl (omega arith)) ∙ update_self m s x, ne, w.copied);
        frame = λ a out. w.frame a (omega arith) ∙ update_ne m s x a (omega arith);
      })

-- `safestrcpy` into `n + 1` bytes leaves a C string there, the source's first `n` bytes or all of
-- them if there are fewer, and changes no byte outside.
safestrcpy-SafeCopy :
    (s t n : ℕ) (m : Memory) (xs : List ℕ)
    → IsString m t xs
    → (s + n < t) ⊎ (t + length xs < s)
    → SafeCopy s n xs m (safestrcpy s t (suc n) m)
unfolding safestrcpy
safestrcpy-SafeCopy s t n m xs h far = safe_from-SafeCopy s t n m xs h far
