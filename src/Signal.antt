-- ===== src/Signal.antt =====
-- internal/signal: the client of the signal-cli daemon.
pub mod Params
pub mod Tcp
pub mod Http
