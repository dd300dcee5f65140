-- ===== src/Mode.antt =====
-- mode.runtime.h: the older runtime.
pub mod Runtime
mod Tests
