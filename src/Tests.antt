-- ===== src/Tests.antt =====
-- Runs of the models at concrete inputs.
mod Order
mod Setting
mod Shm
mod Typed
mod Outcomes
mod Dict
mod Peers
mod Hustdb
mod Writes
mod Fetch
mod Params
mod SetTable
mod Binlog
mod Cache
