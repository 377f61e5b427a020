-- ===== src/Tests.antt =====
-- Runs of the definitions at concrete inputs, and the theorems applied to them.
mod Messages
mod Window
mod Arrivals
mod Clients
mod Routes
mod Serving
mod Upstream
mod Duplicates
mod Configs
mod Writes
mod Sessions
mod Transport
mod Startups
mod Retries
mod Watches
mod Failures
mod Closings
