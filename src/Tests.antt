-- ===== src/Tests.antt =====
-- Runs of the model on small inputs, and the theorems at inputs that meet their hypotheses.
mod Acceptors
mod Addresses
mod Buffers
mod Connections
mod FileServers
mod LogCalls
mod LogFiles
mod LogLines
mod Logging
mod Loops
mod Pools
mod Pollers
mod Requests
mod Responses
mod Servers
mod Starters
mod Timers
