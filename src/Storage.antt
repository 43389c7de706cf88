-- ===== src/Storage.antt =====
-- The storage engines, src/storage, and the commands applied to them, src/apply.rs.
pub mod Engine
pub mod Contents
pub mod Apply
