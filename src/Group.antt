-- ===== src/Group.antt =====
-- Commutative groups and their powers, with the laws that the protocols' equations rest on.
mod Defs
mod Powers
mod Products
pub use Defs.*
unfoldable pub use Powers.*
unfoldable pub use Products.*
