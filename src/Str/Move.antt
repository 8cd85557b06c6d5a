-- ===== src/Str/Move.antt =====
-- `memset` and `memmove`: the whole memory after the call.
use mit6s.Base.{
  ℕ, zero, suc, ◌+◌, ◌-◌, ◌%◌, ◌≤◌, ◌≡◌, ◌⊎◌, inl, inr, ◌∙◌, arith, ◌&&◌, ltb, leb, if◌then◌else◌,
  update, Bool-cases,
}
use mit6s.Str.{Memory, set_from, memset, move_up, move_down, memmove}

-- The memory `m` with the `n` bytes at `src` put at `dst` at once.
abbrev pub moved : ℕ → ℕ → ℕ → Memory → Memory
moved dst src n m a = if leb dst a && ltb a (dst + n) then m (src + (a - dst)) else m a

move_up-moved :
    (n d s : ℕ) (m : Memory) → (d ≤ s) ⊎ (s + n ≤ d) → (a : ℕ) → move_up n d s m a ≡ moved d s n m a
unfolding move_up
move_up-moved zero d s m h a = ground arith
move_up-moved (suc n) d s m h a =
    move_up-moved n (d + 1) (s + 1) (update m d (m s)) (omega arith) a ∙ ground arith

move_down-moved :
    (n d s : ℕ) (m : Memory) → s ≤ d → (a : ℕ) → move_down n (d + n) (s + n) m a ≡ moved d s n m a
unfolding move_down
move_down-moved zero d s m h a = ground arith
move_down-moved (suc n) d s m h a =
    let ed : d + suc n - 1 ≡ d + n = omega arith in
    let es : s + suc n - 1 ≡ s + n = omega arith in
    rw (ed, es) (move_down-moved n d s (update m (d + n) (m (s + n))) h a ∙ ground arith)

-- `memmove` puts the `n` bytes that stood at `src` at `dst` and changes nothing else, however the
-- two ranges overlap.
pub memmove_lem : (dst src n : ℕ) (m : Memory) (a : ℕ) → memmove dst src n m a ≡ moved dst src n m a
unfolding memmove
memmove_lem dst src n m a = elim (Bool-cases (ltb src dst && ltb dst (src + n))) [
  | inl e ↦ rw e (move_down-moved n dst src m (ground arith) a)
  | inr e ↦ rw e (move_up-moved n dst src m (ground arith) a)
]

set_from_lem :
    (k i dst c : ℕ) (m : Memory) (a : ℕ)
    → set_from k i dst c m a ≡ (if leb (dst + i) a && ltb a (dst + i + k) then c % 256 else m a)
unfolding set_from
set_from_lem zero i dst c m a = ground arith
set_from_lem (suc k) i dst c m a =
    set_from_lem k (i + 1) dst c (update m (dst + i) (c % 256)) a ∙ ground arith

-- `memset` makes the `n` bytes at `dst` the low byte of `c`, and changes nothing else.
pub memset_lem :
    (dst c n : ℕ) (m : Memory) (a : ℕ)
    → memset dst c n m a ≡ (if leb dst a && ltb a (dst + n) then c % 256 else m a)
unfolding memset
memset_lem dst c n m a = set_from_lem n 0 dst c m a ∙ ground arith
