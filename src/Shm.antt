-- ===== src/Shm.antt =====
-- The shared-memory dictionary, lib_hustngx/nginx/src/core/ngx_shm_dict*.c: a search tree and a
-- queue over the same nodes, with times of expiry and eviction of the oldest node.
pub mod Node
pub mod Order
pub mod Search
pub mod Zone
pub mod Times
pub mod Valid
pub mod Start
pub mod Expire
pub mod Writer
pub mod Block
pub mod Effect
pub mod Insert
pub mod SetImpl
pub mod Safe
pub mod Reader
pub mod Read
pub mod Store
pub mod RoundTrip
pub mod Swept
pub mod Outcomes
pub mod Traverse
pub mod Keys
pub mod Flush
pub mod Backwards
pub mod Expired
pub mod Typed
pub mod Numbers
pub mod Counters
