-- ===== src/Fs/Bits.antt =====
-- The bits of a byte: setting and clearing one leaves the others.
use native.Mathlib.Nat.{pow-succ', div-div-eq-div-mul}
use mit6s.Base.{ℕ, zero, suc, ◌+◌, ◌-◌, ◌/◌, ◌%◌, ◌^◌, ◌≤◌, ◌≡◌, ◌≢◌, refl, sym, ap, ◌∙◌, arith}
use mit6s.Fs.Blocks.{bit}

bit-suc : (k w : ℕ) → bit (suc k) w ≡ bit k (w / 2)
bit-suc k w =
    ap (λ d. w / d % 2) (pow-succ' 2 k) ∙ ap (λ q. q % 2) (sym (div-div-eq-div-mul w 2 (2 ^ k)))

half_set : (k w : ℕ) → (w + 2 ^ suc k) / 2 ≡ w / 2 + 2 ^ k
half_set k w = omega (arith, pow-succ' 2 k)

half_clear : (k w : ℕ) → 2 ^ k ≤ w / 2 → (w - 2 ^ suc k) / 2 ≡ w / 2 - 2 ^ k
half_clear k w h = omega (arith, pow-succ' 2 k)

pub bit-set : (k w : ℕ) → bit k w ≡ 0 → bit k (w + 2 ^ k) ≡ 1
bit-set zero w z = omega arith
bit-set (suc k) w z =
    bit-suc k (w + 2 ^ suc k)
    ∙ ap (bit k) (half_set k w)
    ∙ bit-set k (w / 2) (sym (bit-suc k w) ∙ z)

pub bit-set_other : (j k w : ℕ) → bit k w ≡ 0 → j ≢ k → bit j (w + 2 ^ k) ≡ bit j w
bit-set_other zero zero w z ne = absurd (ne refl)
bit-set_other zero (suc k) w z ne = omega (arith, pow-succ' 2 k)
bit-set_other (suc j) zero w z ne =
    let e : (w + 2 ^ 0) / 2 ≡ w / 2 = omega arith in
    bit-suc j (w + 2 ^ 0) ∙ ap (bit j) e ∙ sym (bit-suc j w)
bit-set_other (suc j) (suc k) w z ne =
    bit-suc j (w + 2 ^ suc k)
    ∙ ap (bit j) (half_set k w)
    ∙ bit-set_other j k (w / 2) (sym (bit-suc k w) ∙ z) (λ q. ne (ap suc q))
    ∙ sym (bit-suc j w)

pub bit-le : (k w : ℕ) → bit k w ≡ 1 → 2 ^ k ≤ w
bit-le zero w h = omega arith
bit-le (suc k) w h = omega (arith, pow-succ' 2 k, bit-le k (w / 2) (sym (bit-suc k w) ∙ h))

pub bit-clear : (k w : ℕ) → bit k w ≡ 1 → bit k (w - 2 ^ k) ≡ 0
bit-clear zero w h = omega arith
bit-clear (suc k) w h =
    let h' = sym (bit-suc k w) ∙ h in
    bit-suc k (w - 2 ^ suc k)
    ∙ ap (bit k) (half_clear k w (bit-le k (w / 2) h'))
    ∙ bit-clear k (w / 2) h'

-- Clearing a bit is undone by setting it, so that the others are as with it.
pub bit-clear_other : (j k w : ℕ) → bit k w ≡ 1 → j ≢ k → bit j (w - 2 ^ k) ≡ bit j w
bit-clear_other j k w h ne =
    let e : w - 2 ^ k + 2 ^ k ≡ w = omega (arith, bit-le k w h) in
    sym (bit-set_other j k (w - 2 ^ k) (bit-clear k w h) ne) ∙ ap (bit j) e
