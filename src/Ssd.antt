-- ===== src/Ssd.antt =====
-- The NAND back end: ssd_config.h, ssd.h, ssd.c and channel_model.c.
pub mod Config
pub mod Params
pub mod Ppa
pub mod Channel
pub mod Buffer
pub mod Nand
mod Tests
