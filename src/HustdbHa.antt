-- ===== src/HustdbHa.antt =====
-- The table of samples/hustdbha/nginx/src/addon: which peers hold which range of hashes.
pub mod Table
pub mod Check
pub mod Build
pub mod Shares
pub mod Cells
pub mod Correct
pub mod Numbers
pub mod Writes
pub mod Fits
pub mod Overrun
pub mod Write
pub mod Outcome
pub mod Masters
pub mod Answers
pub mod Promises
pub mod Read
pub mod Files
pub mod Setter
pub mod Overwrite
pub mod Identifiers
pub mod Tidy
pub mod OneTime
pub mod Interleaved
pub mod Backends
pub mod Loaded
pub mod Hosts
pub mod Conf
pub mod Reconfigured
pub mod SetTable
pub mod Deployed
pub mod Head
pub mod Record
pub mod Replay
pub mod WriteCache
pub mod Cached
