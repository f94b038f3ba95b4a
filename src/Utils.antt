-- ===== src/Utils.antt =====
-- utils/: helpers that the other packages share.
pub mod Base62
pub mod ParamsBytes
mod Tests
