-- ===== src/Common.antt =====
-- harnesses/common.h: the parts that every target shares.
pub mod Repeat
pub mod Labels
pub mod Thread
pub mod Startup
pub mod Driver
pub mod Objects
pub mod Staging
pub mod Scratch
