-- ===== src/GroupKeys.antt =====
-- src/services/groupKeySharing.js: the wraps that carry a file key to the devices of a group.
pub mod Names
pub mod Wrap
pub mod Binding
pub mod Sharing
pub mod Validate
pub mod Tests
