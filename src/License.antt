-- ===== src/License.antt =====
-- internal/license: the licence file, the state of the server's licence, and the grace for creating
-- users over its limit.
pub mod File
pub mod Status
pub mod Manager
