-- ===== src/File.antt =====
-- kernel/file.c: the table of open files and its reference counts. A file is named by its index in
-- `ftable.file`. What a close does outside of the table is its result.
pub mod Count
pub mod Holders
mod Examples
use mit6s.Base.{
  ℕ, zero, suc, ◌+◌, ◌-◌, Bool, true, false, Option, none, some, ltb, ◌==◌, if◌then◌else◌, update,
}

-- `NFILE`
abbrev pub nfile : ℕ
nfile = 100

pub data FileType : Type 0 where
  fd_none fd_pipe fd_inode fd_device : FileType

-- `struct file`; the pipe and the inode are named by numbers.
pub record File : Type 0 where
  pub type : FileType
  pub ref : ℕ
  pub readable : Bool
  pub writable : Bool
  pub pipe : ℕ
  pub ip : ℕ
  pub off : ℕ
  pub major : ℕ

-- `ftable`
pub record Ftable : Type 0 where
  pub lock : Bool
  pub file : ℕ → File

abbrev pub set_file : ℕ → File → Ftable → Ftable
set_file f x s = record s { lock = false; file = update s.file f x }

-- The loop of `filealloc` from file `f` on, with `k` left.
pub alloc_from : ℕ → ℕ → Ftable → Option ℕ × Ftable
alloc_from zero f s = (none, record s { lock = false })
alloc_from (suc k) f s =
    let rest = alloc_from k (f + 1) s in
    if (s.file f).ref == 0 then (some f, set_file f (record (s.file f) { ref = 1 }) s) else rest

pub filealloc : Ftable → Option ℕ × Ftable
filealloc s = alloc_from nfile 0 s

-- `filedup(f)`; none is the panic.
pub filedup : ℕ → Ftable → Option Ftable
filedup f s =
    let x = s.file f in
    if ltb x.ref 1 then none else some (set_file f (record x { ref = x.ref + 1 }) s)

-- What `fileclose` does after the lock is released: nothing, `pipeclose(pipe, writable)`, or
-- `iput(ip)` between `begin_op` and `end_op`.
pub data Closing : Type 0 where
  nothing : Closing
  closes_pipe : ℕ → Bool → Closing
  puts_inode : ℕ → Closing

abbrev pub closing : File → Closing
closing x = elim (x.type) [
  | fd_none ↦ nothing
  | fd_pipe ↦ closes_pipe x.pipe x.writable
  | fd_inode ↦ puts_inode x.ip
  | fd_device ↦ puts_inode x.ip
]

-- `fileclose(f)`; none is the panic.
pub fileclose : ℕ → Ftable → Option (Closing × Ftable)
fileclose f s =
    let x = s.file f in
    if ltb x.ref 1
    then none
    else if ltb 0 (x.ref - 1)
    then some (nothing, set_file f (record x { ref = x.ref - 1 }) s)
    else some (closing x, set_file f (record x { ref = 0; type = fd_none }) s)
