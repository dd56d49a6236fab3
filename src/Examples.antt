-- ===== src/Examples.antt =====
-- Concrete inputs of the components.
pub mod Buffers
pub mod Policies
pub mod Wire
pub mod Sending
pub mod Connections
pub mod Options
pub mod Frames
pub mod Nodes
pub mod Threads
pub mod Loopbacks
pub mod Cameras
