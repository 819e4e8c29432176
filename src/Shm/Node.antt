-- ===== src/Shm/Node.antt =====
-- ngx_shm_dict_utils.h, ngx_shm_dict_utils.c and ngx_shm_dict_writer.h: the node, the zone, the
-- keys' order, and the arithmetic on times.
use hustngx.Prelude.{
  ℕ, ◌+◌, ◌-◌, ◌*◌, ◌%◌, ◌^◌, Bool, not, ◌&&◌, [], ◌∷◌, Ordering, Option, none, some, ltb,
  if◌then◌else◌,
}
use hustngx.Nginx.{Nginx, Tree, Bytes}

-- `ngx_shm_dict_node_t` with the hash in the tree's header; `value` is the memory behind the key.
pub record Node : Type 0 where
  pub hash : ℕ
  pub key : Bytes
  pub expires : ℕ
  pub value_len : ℕ
  pub user_flags : ℕ
  pub value_type : ℕ
  pub value : Bytes

-- `ngx_shm_dict_ctx_t`: the tree and the queue of addresses, the memory that these point to, the
-- zone's allocator, and whether its mutex is held.
pub record Zone (Queue Slab : Type 0) : Type 0 where
  pub tree : Tree
  pub queue : Queue
  pub heap : ℕ → Node
  pub slab : Slab
  pub locked : Bool
  pub overrun : Bool

-- The cached clock of `ngx_timeofday`.
pub record Time : Type 0 where
  pub sec : ℕ
  pub msec : ℕ

abbrev pub word64 : ℕ
word64 = 2 ^ 64

abbrev pub word32 : ℕ
word32 = 2 ^ 32

-- `(uint64_t) tp->sec * 1000 + tp->msec`
unfoldable pub to_ms : Time → ℕ
to_ms t = (t.sec * 1000 + t.msec) % word64

-- `sd->expires`: `exptime * 1000` is computed in 32 bits, the sum in 64.
unfoldable pub expires_at : Time → ℕ → ℕ
unfolding to_ms
expires_at t exptime = if ltb 0 exptime then (to_ms t + (exptime * 1000) % word32) % word64 else 0

-- `int64_t ms = sd->expires - now`, and its sign.
unfoldable pub ms_left : ℕ → ℕ → ℕ
ms_left expires now = (expires + word64 - now) % word64

unfoldable pub ms_positive : ℕ → Bool
ms_positive ms = ltb 0 ms && ltb ms (2 ^ 63)

unfoldable pub ms_negative : ℕ → Bool
ms_negative ms = not (ltb ms (2 ^ 63))

module _ {Queue Slab : Type 0} (ngx : Nginx Queue Slab) where
  -- A key of eight bytes is its own hash: the first four bytes, as a little-endian word.
  unfoldable pub shm_crc32 : Bytes → ℕ
  shm_crc32 (a ∷ b ∷ c ∷ d ∷ e ∷ f ∷ g ∷ h ∷ []) = a + 256 * (b + 256 * (c + 256 * d))
  shm_crc32 p = ngx.crc32_short p

  -- The comparison of a hash and a key with a node's, in the order of the code's tests.
  unfoldable pub key_order : ℕ → Bytes → ℕ → Bytes → Ordering
  key_order hash key hash' key' =
      if ltb hash hash'
      then Ordering.lt
      else if ltb hash' hash
      then Ordering.gt
      else ngx.memn2cmp key key'

  unfoldable pub node_order : Node → Node → Ordering
  unfolding key_order
  node_order n m = key_order n.hash n.key m.hash m.key

  -- `ngx_shm_dict_rbtree_insert_value`: the walk down from the root to a free place.
  unfoldable pub insert_value : (ℕ → Node) → Tree → ℕ → Tree
  insert_value heap Tree.sentinel a = Tree.branch Tree.sentinel a Tree.sentinel
  insert_value heap (Tree.branch l b r) a = elim (node_order (heap a) (heap b)) [
    | Ordering.lt ↦ Tree.branch (insert_value heap l a) b r
    | Ordering.eq ↦ Tree.branch l b (insert_value heap r a)
    | Ordering.gt ↦ Tree.branch l b (insert_value heap r a)
  ]

  -- The loop of `ngx_shm_dict_lookup`: the address of the node with this hash and key.
  unfoldable pub search_tree : (ℕ → Node) → ℕ → Bytes → Tree → Option ℕ
  search_tree heap hash key Tree.sentinel = none
  search_tree heap hash key (Tree.branch l a r) =
      elim (key_order hash key (heap a).hash (heap a).key) [
        | Ordering.lt ↦ search_tree heap hash key l
        | Ordering.eq ↦ some a
        | Ordering.gt ↦ search_tree heap hash key r
      ]
