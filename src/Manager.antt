-- ===== src/Manager.antt =====
-- server/resourcemanager.{h,cc}: admission control and registration over the resource graph.
pub mod Construct
pub mod Gateway
pub mod Match
pub mod Probe
pub mod Provision
pub mod Register
pub mod Streams
pub mod Tests
