-- ===== src/Shm/Times.antt =====
-- The times of expiry in ngx_shm_dict_writer.c and ngx_shm_dict_utils.c.
use hustngx.Prelude.{ℕ, ◌+◌, ◌*◌, ◌^◌, ◌≡◌, ◌<◌, arith, ltb}
use hustngx.Shm.Node.{Time, to_ms, expires_at, ms_left, ms_positive, ms_negative, word32}
use hustngx.Shm.Zone.{is_kept, is_stale}

-- A positive lifetime below 2^32 milliseconds, with clocks below 2^63, ends at the time of the
-- write plus the lifetime: the expiry keeps the node exactly before that instant, and the lookup
-- takes it for stale exactly after it.
pub expires_at-exact :
    (t t' : Time) (exptime : ℕ)
    → 0 < exptime
    → exptime * 1000 < word32
    → to_ms t + exptime * 1000 < 2 ^ 63
    → to_ms t' < 2 ^ 63
    → (is_kept 1 (expires_at t exptime) (to_ms t') ≡ ltb (to_ms t') (to_ms t + exptime * 1000))
      × (is_stale (expires_at t exptime) (to_ms t') ≡ ltb (to_ms t + exptime * 1000) (to_ms t'))
unfolding expires_at is_kept is_stale ms_left ms_positive ms_negative
expires_at-exact t t' exptime p fits u w = (ground arith, ground arith)

-- A positive lifetime, however long, ends less than 2^32 milliseconds after the write, about 49
-- days.
pub expires_at_le :
    (t : Time) (exptime : ℕ)
    → 0 < exptime
    → to_ms t < 2 ^ 63
    → expires_at t exptime < to_ms t + word32
unfolding expires_at
expires_at_le t exptime p u = ground arith
