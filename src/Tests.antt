-- ===== src/Tests.antt =====
-- Concrete inputs: runs of the definitions, and the theorems at inputs that meet their hypotheses.
mod Data
mod Outbox
mod Sending
mod Requests
mod Migrations
mod Daemon
mod Files
mod Statistics
mod Service
mod Codec
mod Wire
