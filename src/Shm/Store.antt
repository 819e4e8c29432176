-- ===== src/Shm/Store.antt =====
-- The writers' entry points: the last functions of ngx_shm_dict_writer.c, and
-- `ngx_shm_dict_delete` of ngx_shm_dict.c. The outer `none` of a value is a null `ngx_str_t *`, the
-- inner one a null `data`; zone and key are never null here.
use hustngx.Prelude.{ℕ, ◌+◌, Option, none, some}
use hustngx.Nginx.{Nginx, Bytes}
use hustngx.Shm.Node.{Zone, Time}
use hustngx.Shm.Writer.{
  error, Outcome, set_impl, shm_add, shm_replace, shm_safe_store, shm_delete, shm_dict_null,
}

module _ {Queue Slab : Type 0} (ngx : Nginx Queue Slab) where
  -- The null check that the five writers share, and their call with their flags.
  unfoldable pub store :
      ℕ → Time → Bytes → Option (Option Bytes) → ℕ → ℕ → ℕ → Zone Queue Slab → Outcome ngx
  store flags t key none value_type exptime user_flags z = (error, z)
  store flags t key (some value) value_type exptime user_flags z =
      set_impl ngx
        (record {
          time = t;
          key = key;
          value = value;
          value_type = value_type;
          exptime = exptime;
          user_flags = user_flags;
          flags = flags;
        })
        z

  abbrev pub Writer : Type 0
  Writer = Time → Bytes → Option (Option Bytes) → ℕ → ℕ → ℕ → Zone Queue Slab → Outcome ngx

  unfoldable pub add : Writer
  add = store shm_add

  unfoldable pub safe_add : Writer
  safe_add = store (shm_add + shm_safe_store)

  unfoldable pub replace : Writer
  replace = store shm_replace

  unfoldable pub set : Writer
  set = store 0

  unfoldable pub safe_set : Writer
  safe_set = store shm_safe_store

  unfoldable pub delete : Time → Bytes → Zone Queue Slab → Outcome ngx
  delete t key z =
      set_impl ngx
        (record {
          time = t;
          key = key;
          value = none;
          value_type = shm_dict_null;
          exptime = 0;
          user_flags = 0;
          flags = shm_delete;
        })
        z
