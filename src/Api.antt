-- ===== src/Api.antt =====
-- internal/generated/signalium/api: the server's and the client's side of the HTTP interface, as Conjure
-- generates them from conjure/go-signalium-api.conjure.yml, and the errors of the wire.
pub mod Status
pub mod Query
pub mod Answers
pub mod Calls
pub mod Errors
