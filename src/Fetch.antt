-- ===== src/Fetch.antt =====
-- The connection caches of lib_hustngx/nginx/src/http/modules/ngx_http_fetch_cache.c.
pub mod Cache
pub mod Apart
pub mod Conserved
pub mod Start
