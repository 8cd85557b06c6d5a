-- ===== src/Fs/Blocks.antt =====
-- kernel/fs.c: `bzero`, `balloc` and `bfree`, over the bitmap on the disk.
use mit6s.Base.{
  ℕ, zero, suc, ◌+◌, ◌-◌, ◌/◌, ◌%◌, ◌^◌, Bool, Option, none, some, ◌==◌, ltb, if◌then◌else◌, List,
  ◌∷◌, update,
}

-- `BSIZE`
abbrev pub bsize : ℕ
bsize = 1024

-- `BPB`
abbrev pub bpb : ℕ
bpb = 8192

-- The fields of `struct superblock` that the allocator reads.
pub record Superblock : Type 0 where
  pub size : ℕ
  pub bmapstart : ℕ

-- The bytes of each block, and the blocks given to `log_write`, latest first.
pub record Volume : Type 0 where
  pub bytes : ℕ → ℕ → ℕ
  pub logged : List ℕ

-- `BBLOCK(b, sb)`
abbrev pub bblock : ℕ → Superblock → ℕ
bblock b sb = b / bpb + sb.bmapstart

-- `data & (1 << k)` is not 0.
abbrev pub bit : ℕ → ℕ → ℕ
bit k w = w / 2 ^ k % 2

-- A byte is written into block `n`, which is then given to the log.
abbrev pub log_byte : ℕ → ℕ → ℕ → Volume → Volume
log_byte n i v s = record s {
  bytes = update s.bytes n (update (s.bytes n) i v);
  logged = n ∷ s.logged;
}

-- `bzero(dev, bno)`
abbrev pub bzero : ℕ → Volume → Volume
bzero bno s = record s {
  bytes = update s.bytes bno (λ i. if ltb i bsize then 0 else s.bytes bno i);
  logged = bno ∷ s.logged;
}

-- The test `(bp->data[bi/8] & m) == 0` for the bit of block `b + bi`.
abbrev pub is_free : Superblock → ℕ → ℕ → Volume → Bool
is_free sb b bi s = bit (bi % 8) (s.bytes (bblock b sb) (bi / 8)) == 0

-- The inner loop of `balloc`, for the `n` bits left of the block.
unfoldable pub find_bit : Superblock → ℕ → ℕ → ℕ → Volume → Option ℕ
find_bit sb zero b bi s = none
find_bit sb (suc n) b bi s =
    let rest = find_bit sb n b (bi + 1) s in
    if ltb (b + bi) sb.size then (if is_free sb b bi s then some bi else rest) else none

-- `bp->data[bi/8] |= m` for a bit that is clear, `log_write`, and `bzero`.
abbrev pub mark : Superblock → ℕ → ℕ → Volume → Volume
mark sb b bi s =
    let n = bblock b sb in
    bzero (b + bi) (log_byte n (bi / 8) (s.bytes n (bi / 8) + 2 ^ (bi % 8)) s)

-- The outer loop of `balloc`.
unfoldable pub balloc_from : ℕ → Superblock → ℕ → Volume → Option (ℕ × Volume)
balloc_from zero sb b s = none
balloc_from (suc fuel) sb b s =
    let rest = balloc_from fuel sb (b + bpb) s in
    if ltb b sb.size
    then elim (find_bit sb bpb b 0 s) [ some bi ↦ some (b + bi, mark sb b bi s) | none ↦ rest ]
    else none

-- `balloc(dev)`; none is the panic.
unfoldable pub balloc : Superblock → Volume → Option (ℕ × Volume)
balloc sb s = balloc_from (sb.size / bpb + 1) sb 0 s

-- `bfree(dev, b)`; none is the panic.
unfoldable pub bfree : Superblock → ℕ → Volume → Option Volume
bfree sb b s =
    let n = bblock b sb in
    let bi = b % bpb in
    let w = s.bytes n (bi / 8) in
    if bit (bi % 8) w == 0 then none else some (log_byte n (bi / 8) (w - 2 ^ (bi % 8)) s)
