-- ===== src/Shm/Zone.antt =====
-- ngx_shm_dict_utils.c: the zone's life, the expiry loop and the lookup. Each function takes the
-- time that `ngx_timeofday` returns: nginx updates it between events only, so one call sees one time.
use hustngx.Prelude.{
  ℕ, zero, suc, ◌+◌, ◌-◌, Bool, true, false, not, ◌&&◌, ◌||◌, Option, none, some, ◌==◌,
  if◌then◌else◌, get_last?,
}
use hustngx.Nginx.{Nginx, Tree, Bytes}
use hustngx.Shm.Node.{Node, Zone, Time, to_ms, ms_left, ms_positive, ms_negative, search_tree}

-- What `ngx_shm_dict_lookup` returns, with the node that it stores in `*sdp`: NGX_OK, NGX_DONE for
-- a node that has expired, NGX_DECLINED.
pub data Lookup : Type 0 where
  found : ℕ → Lookup
  stale : ℕ → Lookup
  declined : Lookup

-- A write of one node through its pointer.
unfoldable pub update : (ℕ → Node) → ℕ → Node → ℕ → Node
update heap a n b = if b == a then n else heap b

-- The early returns of the loop: a node that is not forced out and has not expired.
unfoldable pub is_kept : ℕ → ℕ → ℕ → Bool
is_kept n expires now = not (n == 0) && (expires == 0 || ms_positive (ms_left expires now))

-- `ms < 0` of the lookup.
unfoldable pub is_stale : ℕ → ℕ → Bool
is_stale expires now = not (expires == 0) && ms_negative (ms_left expires now)

module _ {Queue Slab : Type 0} (ngx : Nginx Queue Slab) where
  abbrev pub lock : Zone Queue Slab → Zone Queue Slab
  lock z = record z { locked = true }

  abbrev pub unlock : Zone Queue Slab → Zone Queue Slab
  unlock z = record z { locked = false }

  abbrev pub write : Zone Queue Slab → ℕ → Node → Zone Queue Slab
  write z a n = record z { heap = update z.heap a n }

  -- `ngx_shm_dict_init_zone`: the zone of the old cycle, that of an existing segment, or a new one.
  -- The sizes are those of the header and of the text that the pool logs with, and `locked` is the
  -- state of the mutex of the pool, which nginx has created.
  unfoldable pub init_zone :
      Option (Zone Queue Slab)
      → Option (Zone Queue Slab)
      → (ℕ → Node)
      → Slab
      → ℕ
      → ℕ
      → Bool
      → Option (Zone Queue Slab)
  init_zone (some octx) exists memory pool sh_size log_size locked = some octx
  init_zone none (some z) memory pool sh_size log_size locked = some z
  init_zone none none memory pool sh_size log_size locked = elim (ngx.slab_alloc pool sh_size) [
    | none ↦ none
    | some (sh, pool') ↦ elim (ngx.slab_alloc pool' log_size) [
      | none ↦ none
      | some (log_ctx, pool'') ↦ some (record {
        tree = Tree.sentinel;
        queue = ngx.queue_init;
        heap = memory;
        slab = pool'';
        locked = locked;
        overrun = false;
      })
    ]
  ]

  -- A node is moved to the head of the queue.
  unfoldable pub touch : Zone Queue Slab → ℕ → Zone Queue Slab
  touch z a = record z { queue = ngx.insert_head (ngx.remove z.queue a) a }

  -- A node is taken out of the queue and the tree, and its block is freed.
  unfoldable pub drop_node : Zone Queue Slab → ℕ → Zone Queue Slab
  drop_node z a = record z {
    queue = ngx.remove z.queue a;
    tree = ngx.rbtree_delete z.tree a;
    slab = ngx.slab_free z.slab a;
  }

  -- `while (n < 3)`, over the rounds that are left.
  unfoldable pub expire_loop : ℕ → ℕ → ℕ → Zone Queue Slab → ℕ → ℕ × Zone Queue Slab
  expire_loop zero now n z freed = (freed, z)
  expire_loop (suc rounds) now n z freed = elim (get_last? (ngx.items z.queue)) [
    | none ↦ (freed, z)
    | some a ↦ elim (is_kept n (z.heap a).expires now) [
      | true ↦ (freed, z)
      | false ↦ expire_loop rounds now (n + 1) (drop_node z a) (freed + 1)
    ]
  ]

  -- `ngx_shm_dict_expire`: the number of nodes that were freed, and the zone.
  unfoldable pub expire : Time → ℕ → Zone Queue Slab → ℕ × Zone Queue Slab
  expire t n z = expire_loop (3 - n) (to_ms t) n z 0

  -- `ngx_shm_dict_lookup`: a node that is found is moved to the head, also if it has expired.
  unfoldable pub lookup : Time → ℕ → Bytes → Zone Queue Slab → Lookup × Zone Queue Slab
  lookup t hash key z = elim (search_tree ngx z.heap hash key z.tree) [
    | none ↦ (declined, z)
    | some a ↦ (if is_stale (z.heap a).expires (to_ms t) then stale a else found a, touch z a)
  ]
