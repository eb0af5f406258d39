-- ===== src/Market.antt =====
-- backend/src/routes/market.ts and backend/src/utils/pagination.ts: the read-only listings, which
-- page by cursors.
pub mod Texts
pub mod Keyset
pub mod Listings
pub mod Orders
pub mod Walks
