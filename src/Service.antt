-- ===== src/Service.antt =====
-- internal/service: the send service that the handlers call, and the backoff of the worker.
pub mod Backoff
pub mod Slack
pub mod Payload
pub mod Filename
pub mod Enqueue
