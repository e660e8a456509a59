-- ===== src/KeyFiles.antt =====
-- client/src/common/client_common.hpp and .cpp: the keys that the client keeps in files.
pub mod Files
pub mod Actions
pub mod Erased
mod Saved
pub mod Kept
mod Tests
