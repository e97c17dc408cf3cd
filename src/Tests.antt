-- ===== src/Tests.antt =====
-- Runs of the development on concrete inputs, one module for each part of the program.
mod Maps
mod Registries
mod Apis
mod Pools
mod Brokers
mod Managers
mod Deliveries
mod Goroutines
mod Storages
mod Starts
mod Logs
mod Services
mod Races
