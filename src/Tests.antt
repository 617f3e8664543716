-- ===== src/Tests.antt =====
-- Runs of the model at concrete inputs, and the theorems at inputs that meet their hypotheses.
mod Wire
mod Commands
mod Values
mod Orders
mod Symbols
mod Notifications
mod Clients
mod Tables
mod Connections
mod Structs
mod Flat
