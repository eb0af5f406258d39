-- ===== src/Bot.antt =====
-- backend/src/bot/index.ts, `DexOrderBot`: what the bot keeps between its ticks.
pub mod Checkpoints
pub mod Forks
pub mod Session
pub mod Node
pub mod Reconcile
pub mod Trade
pub mod Flight
pub mod Scan
pub mod Tick
