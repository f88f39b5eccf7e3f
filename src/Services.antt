-- ===== src/Services.antt =====
-- app/domain/services.py, one child for each group of functions.
pub mod Idempotency
pub mod Journal
pub mod Qr
pub mod Events
pub mod Transition
pub mod Quantities
pub mod Inventory
pub mod Receipt
pub mod StoreReports
pub mod Telemetry
pub mod FieldReports
