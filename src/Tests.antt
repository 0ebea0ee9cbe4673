-- ===== src/Tests.antt =====
-- The theorems at concrete inputs, and runs of the code.
mod Calls
mod Monitors
mod Streams
mod Sessions
mod Replies
mod Previews
mod Leases
mod Setups
mod Clients
mod Reads
