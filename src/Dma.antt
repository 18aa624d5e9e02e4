-- ===== src/Dma.antt =====
-- The DMA controller: dma/ and include/dma/.
pub mod Phy
pub mod Config
pub mod Link
pub mod Interrupt
mod Tests
