-- ===== src/Dashboard.antt =====
-- app/domain/dashboard.py: the sums, counts and latest points that the dashboard shows.
pub mod Tally
pub mod Sales
pub mod Demand
pub mod Routes
pub mod Snapshot
pub mod Sums
pub mod Latest
pub mod Rows
pub mod Counts
pub mod Share
