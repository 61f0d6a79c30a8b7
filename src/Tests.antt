-- ===== src/Tests.antt =====
-- The theorems at concrete inputs, and runs of the definitions.
mod Merge
mod Publish
mod Devices
mod Ras
mod Lspci
mod Server
mod Delivery
mod Main
mod Startup
mod Client
