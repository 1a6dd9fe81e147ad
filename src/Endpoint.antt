-- ===== src/Endpoint.antt =====
-- src/endpoint.rs: proxy endpoints, the entries that hold them, and the hosts of request URLs.
mod Base
pub mod Parse
unfoldable pub use Base.*
unfoldable pub use Parse.*
