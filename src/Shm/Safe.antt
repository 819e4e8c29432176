-- ===== src/Shm/Safe.antt =====
-- What a write leaves alone: the labels of `ngx_shm_dict_set_impl` (ngx_shm_dict_writer.c) with the
-- flag NGX_SHM_DICT_SAFE_STORE, which `ngx_shm_dict_safe_add` and `ngx_shm_dict_safe_set` pass.
use hustngx.Prelude.{ℕ, ◌≡◌, ◌≢◌}
use hustngx.Nginx.{Nginx}
use hustngx.Shm.Node.{Node, Zone}
use hustngx.Shm.Valid.{Holds}
use hustngx.Shm.Writer.{Request, Outcome}

module _ {Queue Slab : Type 0} (ngx : Nginx Queue Slab) where
  -- A node of another key is as before.
  Spares : Request → Zone Queue Slab → Outcome ngx → Type 0
  Spares rq z r =
      (b : ℕ) → Holds ngx z b → (z.heap b).key ≢ rq.key → Holds ngx r.1 b × (r.1.heap b ≡ z.heap b)
