-- ===== src/Tests.antt =====
-- The theorems at concrete inputs, and runs of the definitions.
mod Data
mod Objects
mod Documents
mod Network
mod Events
mod Client
mod Toggle
mod Symbols
mod Calls
mod Files
mod ServiceCalls
mod Services
mod Reading
mod Threads
