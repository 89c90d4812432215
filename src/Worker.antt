-- ===== src/Worker.antt =====
-- The Go worker: the client of sdk/go/client.go and the program cmd/worker-go/main.go.
pub mod Calls
pub mod Client
pub mod Execute
pub mod Consume
pub mod Rules
pub mod Phases
pub mod Beside
pub mod Protocol
pub mod Served
pub mod Foreign
pub mod Examples
