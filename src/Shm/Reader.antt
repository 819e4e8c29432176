-- ===== src/Shm/Reader.antt =====
-- ngx_shm_dict_reader.c.
use hustngx.Prelude.{ℕ, ◌/◌, ◌%◌, ◌||◌, Option, none, some, ltb, ◌==◌, if◌then◌else◌, length, take}
use hustngx.Nginx.{Nginx, Bytes}
use hustngx.Shm.Node.{Node, Zone, Time, word32, to_ms, ms_left, shm_crc32}
use hustngx.Shm.Zone.{Lookup, found, stale, declined, lock, unlock, expire, lookup}

-- What `ngx_shm_dict_get` stores through its pointers: `data` points into the node at `at`, to `bytes`.
pub record Got : Type 0 where
  pub at : ℕ
  pub bytes : Bytes
  pub value_type : ℕ
  pub user_flags : ℕ
  pub exptime : ℕ

-- The seconds that are left, as a 32-bit number.
unfoldable pub seconds_left : Time → ℕ → ℕ
seconds_left t expires = if expires == 0 then 0 else (ms_left expires (to_ms t) / 1000) % word32

unfoldable pub got_node : Time → ℕ → Node → Got
got_node t a n = record {
  at = a;
  bytes = take n.value_len n.value;
  value_type = n.value_type;
  user_flags = n.user_flags;
  exptime = seconds_left t n.expires;
}

module _ {Queue Slab : Type 0} (ngx : Nginx Queue Slab) where
  unfoldable pub answer : Time → Lookup → Zone Queue Slab → Option Got × Zone Queue Slab
  answer t (found a) z = (some (got_node t a (z.heap a)), unlock ngx z)
  answer t (stale a) z = (none, unlock ngx z)
  answer t declined z = (none, unlock ngx z)

  -- `ngx_shm_dict_get`; `none` is NGX_ERROR.
  unfoldable pub get : Time → Bytes → Zone Queue Slab → Option Got × Zone Queue Slab
  get t key z =
      if length key == 0 || ltb 65535 (length key)
      then (none, z)
      else let (_, z') = expire ngx t 1 (lock ngx z) in
        let (rc, z'') = lookup ngx t (shm_crc32 ngx key) key z' in answer t rc z''

  -- `ngx_shm_dict_get_base`: a value of the expected type, read by the callback.
  unfoldable pub get_base {ℓ} :
      {A : Type ℓ}
      → Time
      → Bytes
      → ℕ
      → (Bytes → Option A)
      → Zone Queue Slab
      → Option A × Zone Queue Slab
  get_base t key expect_vt read z =
      let (got, z') = get t key z in
      (
        elim got [
          | none ↦ none
          | some g ↦ if g.value_type == expect_vt then read g.bytes else none
        ],
        z',
      )
