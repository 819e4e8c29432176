-- ===== src/HustdbHa/Identifiers.antt =====
-- The identifiers of hustdb_ha_set_table_handler.c: whoever wants to set the table asks for one, and
-- gets it encrypted; a request that brings it uses it up. They are kept in shared memory, in a queue
-- of those in use and a queue of free ones, and the table has a lock there.
use hustngx.Prelude.{
  ℕ, zero, suc, ◌+◌, ◌%◌, ◌^◌, ◌≡◌, Bool, true, false, ◌&&◌, Option, none, some, [], ◌∷◌, ltb, ◌==◌,
  if◌then◌else◌, mem,
}
use hustngx.Nginx.{Nginx, Bytes}
use hustngx.CDict.Table.{same}
use hustngx.Fetch.Cache.{match_item}

-- `set_table_identifier_t`, without its queue.
pub record Identifier : Type 0 where
  pub exptime : ℕ
  pub id : Bytes

-- `hustdb_ha_shctx_t`, with the memory behind the addresses of identifiers.
pub record Shctx (Queue : Type 0) : Type 0 where
  pub cache_identifier : Queue
  pub free_identifier : Queue
  pub table_locked : Bool
  pub item : ℕ → Identifier

-- How a request for an identifier is answered.
pub data Reply : Type 0 where
  conflict : Reply
  not_found : Reply
  not_allowed : Reply
  ok : Bytes → Reply

-- `sizeof(set_table_identifier_t)` with pointers of 64 bits.
abbrev pub identifier_size : ℕ
identifier_size = 48

abbrev pub at_item : {A : Type 0} → ℕ → A → (ℕ → A) → ℕ → A
at_item x v items y = if y == x then v else items y

unfoldable pub is_expired : ℕ → Identifier → Bool
is_expired now i = ltb i.exptime now && ltb 0 i.exptime

module _ {Queue Slab : Type 0} (ngx : Nginx Queue Slab) where
  -- The loop of `__init_identifier_cache` over `n` items.
  unfoldable pub init_items :
      ℕ → Slab → Queue → (ℕ → Identifier) → Option (Queue × (ℕ → Identifier) × Slab)
  init_items zero slab free item = some (free, item, slab)
  init_items (suc n) slab free item = elim (ngx.slab_alloc slab identifier_size) [
    | none ↦ none
    | some (x, slab') ↦
        init_items n slab' (ngx.insert_head free x)
          (at_item x (record { exptime = 0; id = [] }) item)
  ]

  -- `hustdb_ha_init_identifier_cache`, in shared memory whose table is not locked.
  unfoldable pub init_identifier_cache : ℕ → Slab → (ℕ → Identifier) → Option (Shctx Queue × Slab)
  init_identifier_cache cache_size slab item =
      elim (init_items cache_size slab ngx.queue_init item) [
        | none ↦ none
        | some (free, item', slab') ↦ some (
          record {
            cache_identifier = ngx.queue_init;
            free_identifier = free;
            table_locked = false;
            item = item';
          },
          slab',
        )
      ]

  -- `__alloc_identifier` from the free ones, for the item `x` at their head.
  unfoldable pub alloc_identifier : ℕ → Shctx Queue → Shctx Queue
  alloc_identifier x sh = record sh {
    cache_identifier = ngx.insert_head sh.cache_identifier x;
    free_identifier = ngx.remove sh.free_identifier x;
  }

  -- `__free_identifier`: the item is taken out of the queue that it is in.
  unfoldable pub free_identifier : ℕ → Shctx Queue → Shctx Queue
  free_identifier x sh =
      if mem x (ngx.items sh.cache_identifier)
      then record sh {
        cache_identifier = ngx.remove sh.cache_identifier x;
        free_identifier = ngx.insert_head sh.free_identifier x;
      }
      else record sh { free_identifier = ngx.insert_head (ngx.remove sh.free_identifier x) x }

  -- The expiry of an item is taken away, and the item is freed.
  unfoldable pub release : ℕ → Shctx Queue → Shctx Queue
  release x sh =
      free_identifier x
        (record sh { item = at_item x (record (sh.item x) { exptime = 0 }) sh.item })

  -- `__match_id` on the identifiers in use.
  unfoldable pub match_id : Bytes → Shctx Queue → Option ℕ
  match_id id sh = match_item (λ x. same id (sh.item x).id) (ngx.items sh.cache_identifier)

  -- `__refresh_expired`
  unfoldable pub refresh_expired : ℕ → Shctx Queue → Shctx Queue
  refresh_expired now sh =
      elim (match_item (λ x. is_expired now (sh.item x)) (ngx.items sh.cache_identifier)) [
        | none ↦ sh
        | some x ↦ release x sh
      ]

  -- `__generate_identifier` behind the refresh, with the result of `hustdb_ha_rsa_encrypt`.
  unfoldable pub new_identifier : ℕ → Bytes → Option Bytes → Shctx Queue → Reply × Shctx Queue
  new_identifier exptime id cipher sh = elim (match_id id sh) [
    | some x ↦ (conflict, sh)
    | none ↦ elim (ngx.items sh.free_identifier) [
      | [] ↦ (not_found, sh)
      | x ∷ rest ↦ elim cipher [
        | none ↦ (not_allowed, free_identifier x (alloc_identifier x sh))
        | some text ↦ (
          ok text,
          record (alloc_identifier x sh) {
            item = at_item x (record { exptime = exptime; id = id }) sh.item;
          },
        )
      ]
    ]
  ]

  -- `__generate_identifier`; times are of 64 bits.
  unfoldable pub generate_identifier :
      ℕ → ℕ → Bytes → Option Bytes → Shctx Queue → Reply × Shctx Queue
  generate_identifier now identifier_timeout id cipher sh =
      new_identifier ((now + identifier_timeout) % 2 ^ 64) id cipher (refresh_expired now sh)

-- `hustdb_ha_lock_table`
unfoldable pub lock_table : {Queue : Type 0} → Shctx Queue → Bool × Shctx Queue
lock_table sh = if sh.table_locked then (false, sh) else (true, record sh { table_locked = true })

-- `hustdb_ha_unlock_table`
unfoldable pub unlock_table : {Queue : Type 0} → Shctx Queue → Shctx Queue
unlock_table sh = record sh { table_locked = false }

-- How far a request with an identifier has come in `__post_body_cb`.
pub data Phase : Type 0 where
  asking : Phase
  refused : Phase
  found : ℕ → Phase
  passed : Phase

-- Two requests with identifiers, in worker processes that share the memory.
pub record World (Queue : Type 0) : Type 0 where
  pub sh : Shctx Queue
  pub first : Phase
  pub second : Phase

-- The memory, and two requests that have just come.
abbrev pub arrival : {Queue : Type 0} → Shctx Queue → World Queue
arrival sh = record { sh = sh; first = asking; second = asking }

module _ {Queue Slab : Type 0} (ngx : Nginx Queue Slab) where
  -- `__post_body_cb` while it holds the mutex for the first time.
  unfoldable pub look : Bytes → Shctx Queue → Phase
  look id sh = elim (match_id ngx id sh) [ none ↦ refused | some x ↦ found x ]

  -- What happens under the mutex: the two halves of `__post_body_cb` of either request, and the
  -- answer to a request for an identifier.
  pub data Step : World Queue → World Queue → Type 0 where
    first_looks :
        {w w' : World Queue} (id : Bytes)
        → w.first ≡ asking
        → w' ≡ record w { first = look id w.sh }
        → Step w w'
    second_looks :
        {w w' : World Queue} (id : Bytes)
        → w.second ≡ asking
        → w' ≡ record w { second = look id w.sh }
        → Step w w'
    first_takes :
        {w w' : World Queue} (x : ℕ)
        → w.first ≡ found x
        → w' ≡ record w { sh = release ngx x w.sh; first = passed }
        → Step w w'
    second_takes :
        {w w' : World Queue} (x : ℕ)
        → w.second ≡ found x
        → w' ≡ record w { sh = release ngx x w.sh; second = passed }
        → Step w w'
    generates :
        {w w' : World Queue} (now identifier_timeout : ℕ) (id : Bytes) (cipher : Option Bytes)
        → w' ≡ record w { sh = (generate_identifier ngx now identifier_timeout id cipher w.sh).1 }
        → Step w w'

  pub data Reach (w : World Queue) : World Queue → Type 0 where
    here : Reach w w
    next : {u v : World Queue} → Reach w u → Step u v → Reach w v
