-- ===== src/Examples.antt =====
-- The theorems at concrete inputs.
mod Sessions
mod Commands
mod Rooms
mod Scanner
mod Processes
mod Clients
mod Wire
mod Strings
mod Suite
mod Builds
mod Connections
mod Players
mod Owners
mod Flows
mod Refresh
mod Calls
