-- ===== src/Faucet.antt =====
-- The faucet: its claims and budgets, the service that sends the tokens, and the throttle of
-- requests by address.
pub mod Counter
pub mod Claims
pub mod Service
pub mod Throttle
