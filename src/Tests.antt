-- ===== src/Tests.antt =====
-- Examples: the theorems at concrete states, where their conditions hold.
mod Data
mod Transition
mod Limiter
mod Outbox
mod Plans
mod Planning
mod Dashboard
mod Lists
mod Streams
mod Tokens
mod Previews
mod Services
mod Receipt
