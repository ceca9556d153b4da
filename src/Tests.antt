-- ===== src/Tests.antt =====
-- Concrete instances, and the theorems of the other modules at concrete inputs.
pub mod BigEndian
pub mod Samples
pub mod Streams
pub mod Relays
pub mod Payments
pub mod Sends
pub mod Codecs
pub mod Process
pub mod Execute
pub mod Progress
pub mod Shutdown
pub mod Units
pub mod Oracles
pub mod Settings
pub mod Relayed
pub mod Restart
