-- ===== src/Relay.antt =====
-- The three relays of the bridge: bridge/src/bridge/{deposit_relay, withdraw_confirm, withdraw_relay}.rs.
pub mod Shared
pub mod Fees
pub mod Deposit
pub mod Confirm
pub mod Withdraw
pub mod Restart
pub mod Merged
pub mod Sent
pub mod Rounds
pub mod Between
