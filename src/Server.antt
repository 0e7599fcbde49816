-- ===== src/Server.antt =====
-- The server of ebot.c: its types and those of ebot.h, with the reactors. The parts that make,
-- start and stop it and the callbacks of its events are the modules below.
pub mod Types
pub mod Pack
pub mod Client
pub mod Hangup
pub mod Joining
pub mod Visit
pub mod Clients
pub mod Leaving
pub mod Arriving
pub mod Life
pub mod Threads
pub mod Spread
pub mod Reach
pub mod Reactors
pub mod Accept
pub mod Factory
pub mod Setup
pub mod Run
pub mod Handover
pub mod Path
pub mod Closed
pub mod Stale
pub mod React
pub mod Manned
pub mod Between
pub mod Reading
pub mod Middle
pub mod Passing
pub mod Stepping
pub mod Reported
pub mod Round
pub mod Count
pub mod Ready
pub mod New
pub mod Starting
pub mod Ending
pub mod Instances
pub mod Stock
pub mod Scenes
mod Tests
mod Trials
