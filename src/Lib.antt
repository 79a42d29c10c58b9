-- ===== src/Lib.antt =====
-- Verification of go-signalium: the service that takes Signal messages over HTTP, keeps them in
-- an outbox table of Postgres, and sends them through the signal-cli daemon.
--
-- How the parts interact. POST /api/v1/signal-messages goes through the multipart handler to
-- the send service, which validates the request, uploads the attachments to the object store
-- and inserts a PENDING row. Workers claim due rows under a lease, download the attachments,
-- build a JSON-RPC request, hand it to the daemon, and mark the row SENT or FAILED. A reaper
-- takes overdue rows to TIMED_OUT. Operators list, update and resend rows. A listener stores
-- the events that the daemon reports.
--
-- - Base: texts as bytes (Text), lists and Boolean tests over the native numbers, signed
--   integers with the wrap of int32 and int64 (Base.Int), and decimal printing and parsing
--   (Base.Decimal: strconv.FormatInt and ParseInt).
-- - Domain: internal/domain, the message, its statuses and the error values; Domain.StatusText:
--   the text of a status in SQL (Scan, Value); Domain.Column: the column of the attachments.
-- - Repo: internal/repo/queries and internal/repo/sqlc with migrations/, each statement over
--   the table of rows as one function of the table and of now(); Repo.Insert has the Insert
--   query and the constraints, Repo.Listing the List and Count queries, Repo.Stats the
--   statistics, Repo.Messages the wrapper internal/repo/messages.go. Repo.Run: histories of
--   statements by any number of clients: the lease, what a lease that runs out leaves, the rows
--   that are not claimed again, and the state machine.
-- - Storage: internal/storage/object_store.go, Put and Remove over a set of objects;
--   Storage.Download has DownloadAll, its clean-up and CleanupLocal over the files below the
--   temporary directory, Storage.Bucket the start.
-- - Service: internal/service. Service.Enqueue is send_message.go, Service.Filename its
--   sanitizeFilename, Service.Backoff backoff.go, Service.Slack and Service.Payload slack.go.
-- - Signal: internal/signal. Signal.Params is message_builder.go; Signal.Http http_client.go;
--   Signal.Tcp the shared state of tcp_client.go with one function for each critical section,
--   Signal.Tcp.System the goroutines as a step relation, Signal.Tcp.Says what a response says
--   and Signal.Tcp.Calls the abstract life of a call, and Worker.Delivery the dispatch of a
--   worker over a run of the client; Signal.Tcp.Winding and Signal.Tcp.Shutdown are its end;
--   Signal.Tcp.Wire is the stream of frames and the waits of the dial loop.
-- - Worker: internal/worker/worker.go, a tick, its dispatch and the drain loop over the table,
--   the counters, the Slack posts, the frames that the daemon accepted and the local files;
--   Worker.Pace is the jitter and the number of goroutines, Worker.Reaper is timeout_reaper.go
--   and Worker.Sweeper cleanup.go.
-- - Handler: internal/handler, the operational endpoints; Handler.Statistics is
--   GetSignalMessagesStats, Handler.Proxy ListGroups (Handler.Proxy.Groups: its answers),
--   Handler.Multipart multipart.go.
-- - Inbound: internal/service/inbound_listener.go with internal/repo/inbound.go.
-- - Migrate: internal/db/migrate.go over the sorted files; Migrate.Sums is readAtlasSum.
-- - Settings: internal/db/config.go.
-- - Server: one request on its way through the parts that internal/server and cmd/go-signalium
--   put together (Server.Delivery), by the tick of one worker with nothing in between.
--   Server.Lifecycle is the start and stop of the goroutines of internal/worker and
--   internal/service/inbound_listener.go.
-- - Api: internal/generated/signalium/api with internal/generated/internal/conjureerrors.
--   Api.Status is enums.conjure.go, Api.Query and Api.Calls are the arguments of
--   servers.conjure.go and services.conjure.go, Api.Answers their answers, and Api.Errors
--   errors.conjure.go with its registry.
-- - Tests: runs of the definitions at concrete inputs, and the theorems below at inputs that
--   meet their hypotheses.
--
-- State and steps. Every function that changes state takes the state and returns the new one. A
-- round trip to Postgres or to the object store carries a Link: it works, it fails before its
-- statement ran, or it fails after the statement committed. What else the outside answers (the
-- daemon's reply, what fetching an object comes to, the clock, random draws, which rows other
-- transactions lock) is a field of an environment. Several workers are a history of statements
-- in any order, since each statement is atomic; a tick or a dispatch as a function is that of
-- one worker, with no statement of another between its own. The goroutines of the TCP client
-- interleave at its critical sections, where a send into a full channel and a second close of a
-- channel have no result.
--
-- Identifiers are numbers, a UUID by its 128 bits. Times count from Go's zero time, in
-- microseconds in the table and in nanoseconds in the worker and the send service. A status
-- column that holds none of the six values is the constructor unknown. The attempts of a row do
-- not overflow, as those of the INT column would.
--
-- Fuel: only the drain loop of a worker takes fuel, and more ticks than rows are ready is
-- enough for it. Every other function is structural.
--
-- Parameters stand for what is not in the repository: float64 arithmetic with the one law that
-- the truncation of a number not above n is at most n, ILIKE, the JSON decoders and encoders,
-- the running sha256 of the migrations, the text of a calendar day, the decoders of the
-- daemon's frames and bodies, strings.ToUpper of a text that is not ASCII, the texts of dates
-- and UUIDs, the URLs and the router, and what the outside answers. ORDER BY next_attempt_at
-- LIMIT 1 takes the first of equal rows.
--
-- A goroutine of the background work is spawned, in its body, in its select or at its end; a
-- select with several cases ready takes any, so a timer may win over the cancellation. The call
-- of Start, which fx makes once, and those of Stop are steps of the same relation.
--
-- Not modelled: the YAML configuration, logging, the stack traces, formats and YAML methods of
-- the generated code, the wiring of fx and witchcraft, and the fake daemon of the tests.

pub mod Api
pub mod Base
pub mod Domain
pub mod Handler
pub mod Inbound
pub mod Migrate
pub mod Repo
pub mod Server
pub mod Service
pub mod Settings
pub mod Signal
pub mod Storage
pub mod Worker
mod Tests
