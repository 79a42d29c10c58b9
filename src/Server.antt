-- ===== src/Server.antt =====
-- The parts of the service that internal/server and cmd/go-signalium put together: one request on its way
-- through them, and the goroutines that fx starts and stops.
pub mod Settled
pub mod Delivery
pub mod Lifecycle
