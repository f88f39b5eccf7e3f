-- ===== src/Worker.antt =====
-- app/worker.py: the consumer of the outbox. Children: what each topic does, and the loop.
pub mod Tasks
pub mod Cancel
pub mod Process
