-- ===== src/Algorithms.antt =====
-- app/domain/algorithms.py: the planning algorithms, over exact numbers.
pub mod Rules
pub mod Carpool
pub mod Warehouse
