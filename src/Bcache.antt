-- ===== src/Bcache.antt =====
-- kernel/bio.c: the buffer cache and its circular, doubly linked list in order of use. A buffer is
-- named by its index in `bcache.buf`, and `bcache.head` by the index after the last one. A function
-- is the stretch under `bcache.lock`; to take the buffer's sleep lock is a step of its own, in
-- which the process may wait.
pub mod Links
pub mod Moves
pub mod Scans
pub mod Order
pub mod Release
pub mod Lookup
mod Examples
use mit6s.Base.{
  ℕ, zero, suc, ◌+◌, ◌-◌, ◌^◌, Bool, true, false, not, ◌&&◌, Option, none, some, ◌==◌,
  if◌then◌else◌, update, u32,
}

-- `NBUF`
abbrev pub nbuf : ℕ
nbuf = 30

-- `&bcache.head`
abbrev pub head : ℕ
head = nbuf

-- `struct buf`, without its data, and with the holder of its sleep lock.
pub record Buf : Type 0 where
  pub valid : Bool
  pub dev : ℕ
  pub blockno : ℕ
  pub refcnt : ℕ
  pub holder : Option ℕ

-- `bcache`: the buffers, and the links of them and of the head.
pub record Bcache : Type 0 where
  pub buf : ℕ → Buf
  pub next : ℕ → ℕ
  pub prev : ℕ → ℕ

abbrev pub set_next : ℕ → ℕ → Bcache → Bcache
set_next b x s = record s { next = update s.next b x }

abbrev pub set_prev : ℕ → ℕ → Bcache → Bcache
set_prev b x s = record s { prev = update s.prev b x }

abbrev pub set_buf : ℕ → Buf → Bcache → Bcache
set_buf b x s = record s { buf = update s.buf b x }

-- The four assignments that put `b` behind the head.
abbrev pub put_first : ℕ → Bcache → Bcache
put_first b s =
    let t = set_prev b head (set_next b (s.next head) s) in
    set_next head b (set_prev (t.next head) b t)

-- The two that take it out of the list.
abbrev pub take_out : ℕ → Bcache → Bcache
take_out b s = let t = set_prev (s.next b) (s.prev b) s in set_next (t.prev b) (t.next b) t

-- The loop of `binit` over the `n` buffers from `b` on.
unfoldable pub binit_from : ℕ → ℕ → Bcache → Bcache
binit_from zero b s = s
binit_from (suc n) b s = binit_from n (b + 1) (put_first b s)

-- `binit()`
unfoldable pub binit : Bcache → Bcache
binit s = binit_from nbuf 0 (set_next head head (set_prev head head s))

-- A loop over the list that leaves at the first buffer that passes the test.
unfoldable pub scan : ℕ → (ℕ → Bool) → (ℕ → ℕ) → ℕ → Option ℕ
scan zero test step b = none
scan (suc fuel) test step b =
    let rest = scan fuel test step (step b) in
    if b == head then none else if test b then some b else rest

abbrev pub is_cached : Bcache → ℕ → ℕ → ℕ → Bool
is_cached s dev blockno b = (s.buf b).dev == dev && (s.buf b).blockno == blockno

abbrev pub is_unused : Bcache → ℕ → Bool
is_unused s b = (s.buf b).refcnt == 0

-- `b->refcnt++`
abbrev pub one_more_ref : ℕ → Bcache → Bcache
one_more_ref b s = set_buf b (record (s.buf b) { refcnt = u32 ((s.buf b).refcnt + 1) }) s

-- The buffer `b` is taken for another block.
abbrev pub recycle : ℕ → ℕ → ℕ → Bcache → Bcache
recycle b dev blockno s =
    set_buf b (record (s.buf b) { dev = dev; blockno = blockno; valid = false; refcnt = 1 }) s

-- What `bget` does with the answers of its two loops.
abbrev pub bget_with : Option ℕ → Option ℕ → ℕ → ℕ → Bcache → Option (ℕ × Bcache)
bget_with (some b) unused dev blockno s = some (b, one_more_ref b s)
bget_with none (some b) dev blockno s = some (b, recycle b dev blockno s)
bget_with none none dev blockno s = none

-- `bget(dev, blockno)` up to `release`; none is the panic.
unfoldable pub bget : ℕ → ℕ → Bcache → Option (ℕ × Bcache)
bget dev blockno s =
    bget_with (scan (nbuf + 1) (is_cached s dev blockno) s.next (s.next head))
      (scan (nbuf + 1) (is_unused s) s.prev (s.prev head)) dev blockno s

-- `acquiresleep(&b->lock)` by the process `pid`; none while another one holds it.
unfoldable pub acquiresleep : ℕ → ℕ → Bcache → Option Bcache
acquiresleep pid b s = elim ((s.buf b).holder) [
  | none ↦ some (set_buf b (record (s.buf b) { holder = some pid }) s)
  | some _ ↦ none
]

-- `holdingsleep(&b->lock)`
abbrev pub holdingsleep : ℕ → ℕ → Bcache → Bool
holdingsleep pid b s = elim ((s.buf b).holder) [ none ↦ false | some h ↦ h == pid ]

-- `b->refcnt--`, after `releasesleep`; an `uint` wraps around.
abbrev pub one_ref_less : ℕ → Bcache → Bcache
one_ref_less b s =
    set_buf b (record (s.buf b) { holder = none; refcnt = u32 ((s.buf b).refcnt + (2 ^ 32 - 1)) }) s

-- `brelse(b)` by the process `pid`; none is the panic.
unfoldable pub brelse : ℕ → ℕ → Bcache → Option Bcache
brelse pid b s =
    let t = one_ref_less b s in
    if not (holdingsleep pid b s)
    then none
    else if (t.buf b).refcnt == 0
    then some (put_first b (take_out b t))
    else some t
