-- ===== src/Web.antt =====
-- The web console's server, internal/web/server.go: its listener, the requests that read and change
-- the other components, and the protection of all but a few of them.
pub mod Listener
pub mod Shown
pub mod State
mod Import
mod Settings
pub mod Applying
mod Setup
mod RuleRequests
mod Handlers
pub mod Routes
pub mod Events
pub mod Streaming
pub mod Localize
pub mod Localized
pub mod Moving
pub mod Invariant
pub mod Importing
pub mod Imports
pub mod Restoring
pub mod Settling
pub mod Editing
pub mod Serving
pub mod Watching
pub mod Guarding
pub mod Sealed
pub mod Samples
mod Tests
