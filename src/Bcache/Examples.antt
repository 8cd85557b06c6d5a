-- ===== src/Bcache/Examples.antt =====
-- The cache after `binit`, with one buffer in use: tests, and the theorems at work on it.
use mit6s.Base.{
  ℕ, ◌≡◌, ◌≢◌, ◌⊎◌, ap, ◌∙◌, arith, true, false, none, some, ◌==◌, if◌then◌else◌, List, [], ◌∷◌,
  ◌++◌, update,
}
use mit6s.Bcache.{nbuf, Buf, Bcache, binit, bget, holdingsleep, brelse}
use mit6s.Bcache.Order.{Order, pushed, binit-Order, binit-buf}
use mit6s.Bcache.Release.{released, brelse-Order}
use mit6s.Bcache.Lookup.{Unique, BgetEnd, bget-BgetEnd}

-- Buffer 29 is used by process 7.
abbrev bufs : ℕ → Buf
bufs b =
    if b == 29
    then record { valid = true; dev = 0; blockno = 0; refcnt = 1; holder = some 7 }
    else record { valid = false; dev = 0; blockno = 0; refcnt = 0; holder = none }

abbrev cache : Bcache
cache = binit (record { buf = bufs; next = λ b. 0; prev = λ b. 0 })

abbrev order : List ℕ
order = pushed nbuf 0 []

cache-Order : Order cache order
cache-Order = binit-Order (record { buf = bufs; next = λ b. 0; prev = λ b. 0 })

no_device : (i : ℕ) → (bufs i).dev ≡ 0
no_device i = ground arith

cache-Unique : Unique cache
cache-Unique i j hi hj ne d b =
    ap (λ f. Buf.dev (f i)) (binit-buf (record { buf = bufs; next = λ b. 0; prev = λ b. 0 }))
    ∙ no_device i

bget-BgetEnd_example : BgetEnd 1 5 cache order (bget 1 5 cache)
bget-BgetEnd_example = bget-BgetEnd 1 5 cache order cache-Order cache-Unique (λ q. omega arith)

brelse-Order_example :
    ((holdingsleep 7 29 cache ≡ false) × (brelse 7 29 cache ≡ none))
    ⊎ ((t : Bcache) × (holdingsleep 7 29 cache ≡ true)
        × (brelse 7 29 cache ≡ some t)
        × (t.buf ≡ update cache.buf 29 (released (cache.buf 29)))
        × ((((released (cache.buf 29)).refcnt ≢ 0) × Order t order)
            ⊎ (((released (cache.buf 29)).refcnt ≡ 0)
                × ((ys : List ℕ) × (zs : List ℕ) × (order ≡ ys ++ 29 ∷ zs)
                    × Order t (29 ∷ ys ++ zs)))))
brelse-Order_example = brelse-Order 7 29 cache order cache-Order (omega arith)
