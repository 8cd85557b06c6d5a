-- ===== src/Proc.antt =====
-- kernel/proc.c: the process table and its operations. A process is named by its index in
-- `proc[NPROC]`; the table is a function of the index. What an operation does outside the table,
-- to pages, files and inodes, is recorded as the calls that it makes, latest first; what the
-- allocator and the page tables answer is an argument. Each operation is a stretch that runs
-- under the locks it takes, up to its return or to `sched`.
pub mod State
pub mod Scheduling
pub mod Creation
pub mod Ending
pub mod Slots
pub mod Files
pub mod Wake
pub mod Handover
pub mod Kill
pub mod Vacant
pub mod Alloc
pub mod Fork
pub mod Calm
pub mod Exit
pub mod Kin
pub mod Zombie
pub mod Wait
pub mod Scan
pub mod Family
pub mod Keeps
pub mod Births
pub mod Deaths
pub mod Reaps
pub mod Life
pub mod Child
pub mod Marked
mod Examples
pub use State.*
unfoldable pub use Scheduling.*
unfoldable pub use Creation.*
unfoldable pub use Ending.*
