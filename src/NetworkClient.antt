-- ===== src/NetworkClient.antt =====
-- clients/network.py: the client of the UniFi Network API.
pub mod Monad
pub mod Answers
pub mod Site
pub mod Devices
pub mod Clients
pub mod Configuration
pub mod Merge
pub mod Merged
pub mod Ports
pub mod Guard
pub mod Changes
pub mod Trace
pub mod Single
pub mod Modes
pub mod Lookup
mod Examples
