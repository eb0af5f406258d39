-- ===== src/Tests.antt =====
-- Runs of the theorems at concrete inputs.
mod Data
mod Books
mod Limits
mod Matches
mod Services
mod Chain
mod Ingest
mod Claims
mod Bots
mod Pages
mod Sockets
mod Clients
