-- ===== src/Pipe/Ring.antt =====
-- The representation of the pipe: what its counters and its ring mean.
use mit6s.Base.{
  ℕ, zero, suc, ◌+◌, ◌-◌, ◌%◌, ◌^◌, ◌≤◌, ◌<◌, List, [], ◌∷◌, ◌++◌, ◌≡◌, refl, ap, ap₂, arith, u32,
  length, get_or, set, length-set, get_or-set_self, get_or-set_ne,
}
use mit6s.Pipe.{Pipe, pipe_size, init_pipe, put, get, head_byte}

-- The number of bytes in the pipe: the distance of the counters in `uint`.
abbrev pub count : Pipe → ℕ
count p = u32 (p.nwrite + 2 ^ 32 - p.nread)

pub record IsValid (p : Pipe) : Type 0 where
  pub storage : length p.bytes ≡ pipe_size
  pub nread_word : p.nread < 2 ^ 32
  pub nwrite_word : p.nwrite < 2 ^ 32
  pub few : count p ≤ pipe_size

-- The `n` bytes from counter value `r` on.
abbrev pub window : List ℕ → ℕ → ℕ → List ℕ
window bytes r zero = []
window bytes r (suc n) = get_or bytes (r % pipe_size) 0 ∷ window bytes (u32 (r + 1)) n

-- The bytes in the pipe, oldest first.
abbrev pub contents : Pipe → List ℕ
contents p = window p.bytes p.nread (count p)

pub length-window : (bytes : List ℕ) (r n : ℕ) → length (window bytes r n) ≡ n
length-window bytes r zero = refl
length-window bytes r (suc n) = ap suc (length-window bytes (u32 (r + 1)) n)

-- Writing just past a window extends it by that byte.
window-set :
    (bytes : List ℕ) (x n r i : ℕ)
    → length bytes ≡ pipe_size
    → n < pipe_size
    → r < 2 ^ 32
    → i ≡ (r + n) % pipe_size
    → window (set bytes i x) r (suc n) ≡ window bytes r n ++ (x ∷ [])
window-set bytes x zero r i hs hn hr e =
    let e' : i ≡ r % pipe_size = omega arith in
    ap (λ b. b ∷ []) (rw e' (get_or-set_self bytes (r % pipe_size) x 0 (omega arith)))
window-set bytes x (suc n) r i hs hn hr e =
    ap₂ ◌∷◌ (get_or-set_ne bytes x 0 (omega arith))
      (window-set bytes x n (u32 (r + 1)) i hs (omega arith) (omega arith) (omega arith))

pub count-put :
    {p : Pipe} (ch : ℕ) → IsValid p → count p < pipe_size → count (put ch p) ≡ suc (count p)
unfolding put
count-put ch v h = omega arith

pub put-IsValid : {p : Pipe} (ch : ℕ) → IsValid p → count p < pipe_size → IsValid (put ch p)
unfolding put
put-IsValid {p} ch v h = omega (arith, length-set p.bytes (p.nwrite % pipe_size) ch)

pub contents-put :
    {p : Pipe} (ch : ℕ)
    → IsValid p
    → count p < pipe_size
    → contents (put ch p) ≡ contents p ++ (ch ∷ [])
unfolding put
contents-put {p} ch v h = rw (count-put ch v h) (
    window-set p.bytes ch (count p) p.nread (p.nwrite % pipe_size) v.storage h v.nread_word
      (omega arith))

pub get-IsValid : {p : Pipe} → IsValid p → 0 < count p → IsValid (get p)
unfolding get
get-IsValid v h = omega arith

pub count-get : {p : Pipe} → IsValid p → 0 < count p → count p ≡ suc (count (get p))
unfolding get
count-get v h = omega arith

pub contents-get :
    {p : Pipe} → IsValid p → 0 < count p → contents p ≡ head_byte p ∷ contents (get p)
unfolding get
contents-get {p} v h = ap (window p.bytes p.nread) (count-get v h)

pub init_pipe-IsValid : (junk : List ℕ) → length junk ≡ pipe_size → IsValid (init_pipe junk)
unfolding init_pipe
init_pipe-IsValid junk h = omega arith
