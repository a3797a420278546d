-- ===== src/Tests.antt =====
-- The theorems at concrete inputs: a VFM with its bridge, a host that logs in, the frames between them.
pub mod Data
pub mod Table
pub mod Queue
pub mod Management
pub mod Activation
pub mod Additions
pub mod Selection
pub mod Connections
pub mod Infiniband
pub mod Starting
pub mod Messages
pub mod Frames
pub mod Logins
pub mod Addresses
