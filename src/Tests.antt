-- ===== src/Tests.antt =====
-- Runs of the modelled code at concrete inputs.
mod Buffers
mod Threads
mod Workers
mod Unread
mod Objects
mod Connectors
mod Lifetimes
mod Dates
mod Channels
mod Logs
mod Files
mod Zones
mod Systems
mod Connections
mod Locks
mod Messages
