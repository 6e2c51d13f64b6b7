-- ===== src/Tests.antt =====
-- Concrete states, and the theorems at them.
mod Fixtures
mod Rings
mod Devices
mod Polls
mod Prompts
mod Requests
pub mod Blocks
pub mod Tables
pub mod Streams
mod Fetches
mod Loads
pub mod Kernels
mod Hits
mod Starts
mod Traces
