-- ===== src/Console.antt =====
-- Console output: src/printf.c, which formats a text, and src/uart.c, which sends it.
pub mod Format
pub mod Uart
pub mod Send
mod Tests
