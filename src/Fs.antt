-- ===== src/Fs.antt =====
-- kernel/fs.c: the allocator of disk blocks (`bzero`, `balloc`, `bfree`) and path names (`skipelem`,
-- `dirlookup`, `namex`). The disk is what readers see through the log: the bytes of each block.
pub mod Blocks
pub mod Names
pub mod Bits
pub mod Search
pub mod Allocate
pub mod Elements
pub mod Directories
pub mod Resolve
pub mod Walk
pub mod References
pub mod Examples
unfoldable pub use Blocks.*
unfoldable pub use Names.*
