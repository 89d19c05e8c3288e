-- ===== src/Malloc.antt =====
-- The allocator of tlpi/c7/7.2.c: a best-fit free list over sbrk. A `free_l` header is a node at its
-- address; the words `previous` and `next` of an allocated block belong to the client.
mod Defs
pub mod Chain
pub mod Alloc
pub mod BestFit
pub mod Free
pub mod FreeList
pub mod GiveBack
pub mod History
pub mod Unlink
pub mod Limits
pub mod Layout
pub mod Invariant
pub mod Main
pub mod Course
pub mod Stages
pub mod Left
pub mod OwnWrites
mod Tests
unfoldable pub use Defs.*
