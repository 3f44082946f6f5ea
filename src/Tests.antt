-- ===== src/Tests.antt =====
-- Concrete objects and runs.
pub mod Fixtures
pub mod Routing
pub mod Configuration
pub mod Reconciling
pub mod Resources
pub mod Objects
pub mod Guarding
pub mod Running
pub mod Storing
pub mod Shelves
pub mod Stock
pub mod Serving
pub mod Programs
