-- ===== src/Tests.antt =====
-- Runs of the theorems at concrete inputs.
mod Agent
mod Targets
mod Apply
mod Manager
mod Main
mod Connection
mod Package
mod Samples
mod Api
mod Progress
mod Plugins
mod Listing
