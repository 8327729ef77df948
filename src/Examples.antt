-- ===== src/Examples.antt =====
-- Tests: the theorems applied to small inputs of the program.
pub mod Requests
pub mod Streams
pub mod Replies
pub mod Runs
pub mod Scenes
pub mod Publishing
pub mod Overlap
pub mod Rectangles
pub mod Frames
pub mod Monitoring
pub mod Sessions
pub mod Statistics
