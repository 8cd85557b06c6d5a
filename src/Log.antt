-- ===== src/Log.antt =====
-- kernel/log.c: the redo log over the disk. A block is its 32-bit words, as a function of the
-- index; the buffer cache is what kernel/bio.c promises of it: a cached block has the contents
-- last put there, any other those of the disk, and reference counts are kept per block in `uint`.
-- `images` holds every state that the disk has had, latest first, so that a crash is the choice
-- of one of them.
pub mod Cache
pub mod Copy
pub mod Heads
pub mod Commit
pub mod Logged
pub mod Recover
pub mod Crash
pub mod Space
pub mod Budget
pub mod Pins
pub mod Write
mod Examples
use mit6s.Base.{
  ℕ, zero, suc, ◌+◌, ◌-◌, ◌*◌, ◌^◌, List, [], ◌∷◌, Bool, true, false, ◌||◌, Option, none, some, ltb,
  leb, ◌==◌, if◌then◌else◌, u32, update,
}

abbrev pub max_op_blocks : ℕ
max_op_blocks = 10

abbrev pub log_size : ℕ
log_size = 30

abbrev pub Block : Type 0
Block = ℕ → ℕ

abbrev pub Disk : Type 0
Disk = ℕ → Block

-- `struct logheader`
pub record Header : Type 0 where
  pub n : ℕ
  pub block : ℕ → ℕ

-- `struct log`. The device is fixed.
pub record Log : Type 0 where
  pub lock : Bool
  pub start : ℕ
  pub size : ℕ
  pub outstanding : ℕ
  pub committing : Bool
  pub lh : Header

pub record Kernel : Type 0 where
  pub disk : Disk
  pub images : List Disk
  pub cache : ℕ → Option Block
  pub refcnt : ℕ → ℕ
  pub log : Log
  pub woken : ℕ

-- The contents of block `b` for whoever reads it now.
pub view : Kernel → ℕ → Block
view s b = elim (s.cache b) [ none ↦ s.disk b | some x ↦ x ]

-- `bread(dev, b)`: the buffer is in the cache afterwards, with one more reference.
pub bread : ℕ → Kernel → Kernel
unfolding view
bread b s = record s {
  cache = update s.cache b (some (view s b));
  refcnt = update s.refcnt b (u32 (s.refcnt b + 1));
}

-- A change of a buffer's data, by the process that holds it.
pub modify : ℕ → Block → Kernel → Kernel
modify b x s = record s { cache = update s.cache b (some x) }

-- `bwrite` of the buffer of block `b`
pub bwrite : ℕ → Kernel → Kernel
unfolding view
bwrite b s = let d = update s.disk b (view s b) in record s { disk = d; images = d ∷ s.images }

pub bpin : ℕ → Kernel → Kernel
bpin b s = record s { refcnt = update s.refcnt b (u32 (s.refcnt b + 1)) }

-- `b->refcnt--` of a `uint`, in `bunpin` and in `brelse`.
pub bunpin : ℕ → Kernel → Kernel
bunpin b s = record s { refcnt = update s.refcnt b (u32 (s.refcnt b + 2 ^ 32 - 1)) }

abbrev pub brelse : ℕ → Kernel → Kernel
brelse b s = bunpin b s

-- One round of `install_trans`: `lbuf` is block `l`, `dbuf` is block `d`.
pub install_block : ℕ → ℕ → Kernel → Kernel
install_block l d s =
    let t = bread d (bread l s) in brelse d (brelse l (bunpin d (bwrite d (modify d (view t l) t))))

-- The `for` of `install_trans`, with `k` rounds left.
pub install_from : ℕ → ℕ → Kernel → Kernel
install_from zero tail s = s
install_from (suc k) tail s =
    install_from k (tail + 1) (install_block (s.log.start + tail + 1) (s.log.lh.block tail) s)

pub install_trans : Kernel → Kernel
install_trans s = install_from s.log.lh.n 0 s

-- One round of `write_log`: `to` is block `l`, `from` is block `d`.
pub log_block : ℕ → ℕ → Kernel → Kernel
log_block l d s =
    let t = bread d (bread l s) in brelse l (brelse d (bwrite l (modify l (view t d) t)))

pub write_log_from : ℕ → ℕ → Kernel → Kernel
write_log_from zero tail s = s
write_log_from (suc k) tail s =
    write_log_from k (tail + 1) (log_block (s.log.start + tail + 1) (s.log.lh.block tail) s)

pub write_log : Kernel → Kernel
write_log s = write_log_from s.log.lh.n 0 s

-- The header overlaid on a block: word 0 is `n`, word `1 + i` is `block[i]`. These are the loops
-- `lh.block[i] = from[i]` of `read_head`, and of `write_head` on the words of the block.
pub copy_words : ℕ → ℕ → (ℕ → ℕ) → (ℕ → ℕ) → ℕ → ℕ
copy_words zero i from to = to
copy_words (suc k) i from to = copy_words k (i + 1) from (update to i (from i))

pub header_of : Block → Header → Header
unfolding copy_words
header_of x old = record { n = x 0; block = copy_words (x 0) 0 (λ i. x (suc i)) old.block }

pub set_header : Header → Kernel → Kernel
set_header h s = record s { log = record (s.log) { lh = h } }

pub read_head : Kernel → Kernel
read_head s =
    let b = s.log.start in
    let t = bread b s in brelse b (set_header (header_of (view t b) (t.log.lh)) t)

-- The words of the header block after the stores of `write_head`.
pub head_words : Header → Block → Block
unfolding copy_words
head_words h old zero = h.n
head_words h old (suc i) = copy_words h.n 0 h.block (λ j. old (suc j)) i

pub write_head : Kernel → Kernel
unfolding head_words
write_head s =
    let b = s.log.start in
    let t = bread b s in brelse b (bwrite b (modify b (head_words (s.log.lh) (view t b)) t))

-- `log.lh.n = 0`
abbrev pub clear_head : Kernel → Kernel
clear_head s = set_header (record (s.log.lh) { n = 0 }) s

pub recover_from_log : Kernel → Kernel
recover_from_log s = write_head (clear_head (install_trans (read_head s)))

-- `initlog`, from the superblock's two fields; the size of the header is below BSIZE.
pub initlog : ℕ → ℕ → Kernel → Kernel
initlog logstart nlog s =
    recover_from_log
      (record s { log = record (s.log) { lock = false; start = logstart; size = nlog } })

pub commit : Kernel → Kernel
commit s =
    if ltb 0 (s.log.lh.n)
    then write_head (clear_head (install_trans (write_head (write_log s))))
    else s

abbrev pub set_lock : Bool → Kernel → Kernel
set_lock h s = record s { log = record (s.log) { lock = h } }

abbrev pub wakeup : Kernel → Kernel
wakeup s = record s { woken = s.woken + 1 }

-- `begin_op` from taking the lock to its end (true) or to a `sleep` (false), after which it runs
-- again from its test.
pub begin_op : Kernel → Bool × Kernel
begin_op s =
    let t = set_lock true s in
    if t.log.committing
    then (false, set_lock false t)
    else if ltb log_size (t.log.lh.n + (t.log.outstanding + 1) * max_op_blocks)
    then (false, set_lock false t)
    else (
      true,
      set_lock false (record t { log = record (t.log) { outstanding = t.log.outstanding + 1 } }),
    )

-- `log.outstanding -= 1`, under the lock. The callers hold an operation open, so that it is not 0.
abbrev pub leave : Kernel → Kernel
leave s = record s { log = record (s.log) { lock = true; outstanding = s.log.outstanding - 1 } }

-- `log.committing = 1`, and the release of the lock.
abbrev pub start_commit : Kernel → Kernel
start_commit s = record s { log = record (s.log) { lock = false; committing = true } }

-- The first critical section of `end_op`, with `do_commit`; none is the panic.
pub end_op_first : Kernel → Option (Bool × Kernel)
end_op_first s =
    let t = leave s in
    if t.log.committing
    then none
    else if t.log.outstanding == 0
    then some (true, start_commit t)
    else some (false, set_lock false (wakeup t))

-- The second critical section of `end_op`.
abbrev pub end_op_last : Kernel → Kernel
end_op_last s =
    set_lock false (wakeup (record s { log = record (s.log) { lock = true; committing = false } }))

pub end_op : Kernel → Option Kernel
end_op s = elim (end_op_first s) [
  | none ↦ none
  | some (do_commit, t) ↦ some (if do_commit then end_op_last (commit t) else t)
]

-- The search of `log_write` for block `b`: the first index at which it stands, or `n`.
pub find_block : ℕ → ℕ → (ℕ → ℕ) → ℕ → ℕ
find_block zero i block b = i
find_block (suc k) i block b =
    let rest = find_block k (i + 1) block b in if block i == b then i else rest

-- `log.lh.block[i] = b`, and the release of the lock.
abbrev pub record_block : ℕ → ℕ → Kernel → Kernel
record_block i b s =
    let h = s.log.lh in
    record s { log = record (s.log) { lock = false; lh = record h { block = update h.block i b } } }

-- The block is new: it is pinned, and `n` grows.
abbrev pub add_block : ℕ → ℕ → Kernel → Kernel
add_block i b s =
    let t = record_block i b s in bpin b (set_header (record (t.log.lh) { n = t.log.lh.n + 1 }) t)

-- `log_write` of the buffer of block `b`; none is one of the two panics.
pub log_write : ℕ → Kernel → Option Kernel
unfolding find_block
log_write b s =
    let h = s.log.lh in
    let i : ℕ = find_block h.n 0 h.block b in
    if leb log_size h.n || leb (s.log.size - 1) h.n
    then none
    else if ltb (s.log.outstanding) 1
    then none
    else if i == h.n
    then some (add_block i b s)
    else some (record_block i b s)
