-- ===== src/Trash.antt =====
-- The trash: services/trashService.js over repositories/trashRepository.js.
pub mod Names
pub mod Item
pub mod Repository
pub mod Deletion
pub mod Remote
pub mod Claims
pub mod Drive
pub mod Files
mod Tests
mod FileTests
