-- ===== src/Shm/Start.antt =====
-- `ngx_shm_dict_init_zone` of ngx_shm_dict_utils.c.
use hustngx.Prelude.{
  ℕ, ◌≡◌, Bool, false, none, some, some-injective, [], subst, Option-cases, mem, ap, inl, inr,
}
use hustngx.Nginx.{Nginx, Tree}
use hustngx.Shm.Node.{Node, Zone}
use hustngx.Shm.Zone.{init_zone}
use hustngx.Shm.Valid.{IsValid}

module _ {Queue Slab : Type 0} (ngx : Nginx Queue Slab) where
  abbrev IsNew : Zone Queue Slab → Type 0
  IsNew z = IsValid ngx z × (ngx.items z.queue ≡ [])

  start-IsNew :
      (memory : ℕ → Node) (pool : Slab) (locked : Bool)
      → IsNew (record {
        tree = Tree.sentinel;
        queue = ngx.queue_init;
        heap = memory;
        slab = pool;
        locked = locked;
        overrun = false;
      })
  start-IsNew memory pool locked = (
    record {
      sorted = tt;
      distinct = rw ngx.items-queue_init tt;
      same = λ a. ap (mem a) ngx.items-queue_init;
      live = λ a h. absurd (cc (h, ap (mem a) ngx.items-queue_init));
      hashed = λ a h. absurd (cc (h, ap (mem a) ngx.items-queue_init));
    },
    ngx.items-queue_init,
  )

  -- A zone that is set up for the first time is valid and holds nothing.
  pub init_zone-IsValid :
      (memory : ℕ → Node) (pool : Slab) (sh_size log_size : ℕ) (locked : Bool) (z : Zone Queue Slab)
      → init_zone ngx none none memory pool sh_size log_size locked ≡ some z
      → IsValid ngx z × (ngx.items z.queue ≡ [])
  unfolding init_zone
  init_zone-IsValid memory pool sh_size log_size locked z e =
      elim (Option-cases (ngx.slab_alloc pool sh_size)) [
        | inl f ↦ absurd (cc (rw (init_zone, f) at e))
        | inr ((sh, pool'), f) ↦ elim (Option-cases (ngx.slab_alloc pool' log_size)) [
          | inl g ↦ absurd (cc (rw (init_zone, f, g) at e))
          | inr ((log_ctx, pool''), g) ↦
              subst IsNew (some-injective _ _ (rw (init_zone, f, g) at e))
                (start-IsNew memory pool'' locked)
        ]
      ]
