-- ===== src/Giga.antt =====
-- firmware/housepanel-giga: the secondary panel around its commands and its updates.
pub mod Memory
pub mod Socket
pub mod Display
pub mod Sketch
mod Tests
