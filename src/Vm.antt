-- ===== src/Vm.antt =====
-- kernel/vm.c: page tables, in the memory of the page allocator. A page table is named by its
-- address, an entry by the address of its word. The linker's `end`, which `kfree` tests, is an
-- argument.
pub mod Walk
pub mod Maps
pub mod Spaces
pub mod Bytes
pub mod Index
pub mod Shape
pub mod Attach
pub mod Grow
pub mod Tables
pub mod Store
pub mod MapPage
pub mod MapPages
pub mod Lookup
pub mod Unmap
pub mod Unmaps
pub mod GrowPage
pub mod GrowEnd
pub mod Growth
pub mod Alloc
mod Examples
pub mod CopyIn
pub mod CopyStr
unfoldable pub use Walk.*
unfoldable pub use Maps.*
unfoldable pub use Spaces.*
unfoldable pub use Bytes.*
