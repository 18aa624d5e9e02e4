-- ===== src/Alloc.antt =====
-- The boundary-tag allocator: src/mem_block.c, src/mem_free.c, src/mem_alloc.c.
pub mod Block
pub mod FreeList
pub mod Malloc
pub mod Free
pub mod Contract
pub mod Layout
mod Tests
