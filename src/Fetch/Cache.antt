-- ===== src/Fetch/Cache.antt =====
-- ngx_http_fetch_cache.c: two caches of items, each with a queue of the items in use and a queue of
-- the free ones. An item is a number, its place in the array.
use hustngx.Prelude.{
  ℕ, zero, suc, ◌+◌, Bool, true, false, Option, none, some, List, [], ◌∷◌, ◌++◌, ◌==◌,
  if◌then◌else◌, get_last?, mem, Ordering,
}
use hustngx.Nginx.{Nginx, Bytes}

pub record Queues (Queue : Type 0) : Type 0 where
  pub cache : Queue
  pub free : Queue

-- `ngx_http_fetch_keepalive_cache_t`, without its queue.
pub record KeepaliveItem (C : Type 0) : Type 0 where
  pub connection : Option C
  pub sockaddr : Bytes

-- `ngx_http_fetch_conn_cache_t`: its pools, where they are there.
pub record ConnItem (L : Type 0) : Type 0 where
  pub conn_pool : Option L
  pub request_pool : Option L

-- The first item of a queue that a test accepts.
unfoldable pub match_item : (ℕ → Bool) → List ℕ → Option ℕ
match_item test [] = none
match_item test (x ∷ rest) = if test x then some x else match_item test rest

abbrev pub is_eq : Ordering → Bool
is_eq Ordering.lt = false
is_eq Ordering.eq = true
is_eq Ordering.gt = false

module _ {Queue Slab : Type 0} (ngx : Nginx Queue Slab) where
  -- The loop of the two functions that set a cache up, over `n` items from `i` on.
  unfoldable pub insert_items : ℕ → ℕ → Queue → Queue
  insert_items zero i free = free
  insert_items (suc n) i free = insert_items n (i + 1) (ngx.insert_head free i)

  -- `ngx_http_fetch_upstream_cache_init`, `ngx_http_fetch_conn_cache_init`; the first argument says
  -- whether the pool has room.
  unfoldable pub cache_init : Bool → ℕ → Option (Queues Queue)
  cache_init false cache_size = none
  cache_init true cache_size =
      some (record { cache = ngx.queue_init; free = insert_items cache_size 0 ngx.queue_init })

  -- `__match_connection`: the connection is that of the item `conn`.
  unfoldable pub match_connection : Queue → ℕ → Option ℕ
  match_connection cache conn = match_item (λ x. x == conn) (ngx.items cache)

  unfoldable pub give_back : ℕ → Queues Queue → Queues Queue
  give_back x q = record { cache = ngx.remove q.cache x; free = ngx.insert_head q.free x }

  -- `ngx_http_fetch_reuse_connection`; `none` is NGX_ERROR.
  unfoldable pub reuse_connection : ℕ → Queues Queue → Option (Queues Queue)
  reuse_connection conn q = elim (match_connection q.cache conn) [
    | none ↦ none
    | some x ↦ some (give_back x q)
  ]

  -- The first free item goes to the front of the items in use.
  unfoldable pub take_free : ℕ → Queues Queue → Queues Queue
  take_free x q = record { cache = ngx.insert_head q.cache x; free = ngx.remove q.free x }

  -- `ngx_http_get_free_connection`
  unfoldable pub get_free_connection : Queues Queue → Option (ℕ × Queues Queue)
  get_free_connection q = elim (ngx.items q.free) [ [] ↦ none | x ∷ rest ↦ some (x, take_free x q) ]

  -- `ngx_http_fetch_upstream_reuse_cache`: the node is taken out of the queue that it is in.
  unfoldable pub upstream_reuse_cache : ℕ → Queues Queue → Queues Queue
  upstream_reuse_cache x q =
      if mem x (ngx.items q.cache)
      then give_back x q
      else record q { free = ngx.insert_head (ngx.remove q.free x) x }

  module _ {C : Type 0} (items : ℕ → KeepaliveItem C) where
    -- `ngx_http_fetch_upstream_reuse_connection`
    unfoldable pub upstream_reuse_connection : Bytes → Queues Queue → Option C × Queues Queue
    upstream_reuse_connection sockaddr q =
        elim (match_item (λ x. is_eq (ngx.memn2cmp (items x).sockaddr sockaddr))
          (ngx.items q.cache)) [ none ↦ (none, q) | some x ↦ ((items x).connection, give_back x q) ]

    -- `ngx_http_fetch_upstream_get_free_connection`: the item, and the connection that is closed for
    -- it. With two empty queues the code takes the end of the queue for an item; that is `none` here.
    unfoldable pub upstream_get_free_connection :
        Queues Queue → Option (ℕ × Option C × Queues Queue)
    upstream_get_free_connection q = elim (ngx.items q.free) [
      | x ∷ rest ↦ some (x, none, take_free x q)
      | [] ↦ elim (get_last? (ngx.items q.cache)) [
        | none ↦ none
        | some x ↦
            some (
              x,
              (items x).connection,
              record q { cache = ngx.insert_head (ngx.remove q.cache x) x },
            )
      ]
    ]

  -- `ngx_http_fetch_adjust_connection`
  unfoldable pub adjust_connection :
      {L : Type 0} → ℕ → Queues Queue → (ℕ → ConnItem L) → Option (ℕ → ConnItem L)
  adjust_connection conn q items = elim (match_connection q.cache conn) [
    | none ↦ none
    | some x ↦
        some (λ y. if y == x then record { conn_pool = none; request_pool = none } else items y)
  ]

module _ {L : Type 0} where
  -- `__destory_pool`: the pools that are destroyed, and the item without them.
  unfoldable pub destory_pool : ConnItem L → List L × ConnItem L
  destory_pool item =
      let cleared : ConnItem L = record { conn_pool = none; request_pool = none } in
      elim item.request_pool [
        | none ↦ elim item.conn_pool [ none ↦ ([], cleared) | some c ↦ (c ∷ [], cleared) ]
        | some r ↦ elim item.conn_pool [ none ↦ (r ∷ [], cleared) | some c ↦ (r ∷ c ∷ [], cleared) ]
      ]

  -- `ngx_http_fetch_create_pool`, with the results of the two calls of `ngx_create_pool`: whether
  -- it succeeds, the pools that are destroyed, and the item.
  unfoldable pub create_pool : Option L → Option L → ConnItem L → Bool × List L × ConnItem L
  create_pool request conn item =
      let (old, cleared) = destory_pool item in
      elim request [
        | none ↦ (false, old, cleared)
        | some r ↦ elim conn [
          | none ↦ (false, old ++ r ∷ [], cleared)
          | some c ↦ (true, old, record { conn_pool = some c; request_pool = some r })
        ]
      ]
