-- ===== src/Filament.antt =====
-- The minimal display of the primary panel: firmware/giga-filament.
pub mod Font
pub mod Units
pub mod Freshness
pub mod Panel
pub mod Frame
pub mod Screen
pub mod Loop
mod Tests
