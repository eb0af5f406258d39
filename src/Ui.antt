-- ===== src/Ui.antt =====
-- The logic of the web client: ui/src/utils/orders.js, ui/src/services/ckb/dex.js, and the
-- stores ui/src/services/closedOrders.js and ui/src/services/pendingOrders.js.
pub mod Dex
pub mod Stores
pub mod Closed
pub mod Drafts
pub mod Rounding
