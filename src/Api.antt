-- ===== src/Api.antt =====
-- internal/api/server.go: the HTTP API. A handler takes the principal that the middleware has put in the
-- request's context, what the request holds, and the database, and gives the response with the database
-- that it leaves, which is the one it was given if the response is a failure.
pub mod Response
pub mod Access
pub mod Workflows
pub mod Runs
pub mod Keys
pub mod Tasks
pub mod Schedules
pub mod Artifacts
pub mod Routes
pub mod Guards
pub mod Invalid
pub mod Examples
