-- ===== src/Services.antt =====
-- shared/common/ble_services.hpp: what the client and the access token agree on.
mod Versions
mod Identifiers
mod Headers
pub mod Laws
mod Tests
unfoldable pub use Versions.*
unfoldable pub use Identifiers.*
pub use Headers.*
