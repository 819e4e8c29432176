-- ===== src/Shm/Writer.antt =====
-- ngx_shm_dict_writer.c and ngx_shm_dict_writer.h. The labels of `ngx_shm_dict_set_impl` are
-- functions here, and a `goto` is a call.
use hustngx.Prelude.{
  ℕ, zero, suc, ◌+◌, ◌-◌, ◌%◌, ◌^◌, Bool, true, false, not, ◌||◌, Option, none, some, ltb, ◌==◌,
  if◌then◌else◌, length, bit_and,
}
use hustngx.Nginx.{Nginx, Bytes}
use hustngx.Shm.Node.{Node, Zone, Time, word32, expires_at, shm_crc32, insert_value}
use hustngx.Shm.Zone.{
  Lookup, found, stale, declined, lock, unlock, write, touch, drop_node, expire, lookup,
}

pub data Status : Type 0 where
  ok : Status
  error : Status

abbrev pub shm_add : ℕ
shm_add = 1

abbrev pub shm_replace : ℕ
shm_replace = 2

abbrev pub shm_safe_store : ℕ
shm_safe_store = 4

abbrev pub shm_delete : ℕ
shm_delete = 8

abbrev pub shm_dict_null : ℕ
shm_dict_null = 0

-- `flags & flag`
abbrev pub has : ℕ → ℕ → Bool
has flags flag = not (bit_and flags flag == 0)

-- The arguments of `ngx_shm_dict_set_impl`. `none` stands for a null `value` and for a string whose
-- `data` is null: only `ngx_shm_dict_delete` passes the first, and it never reaches `replace`.
pub record Request : Type 0 where
  pub time : Time
  pub key : Bytes
  pub value : Option Bytes
  pub value_type : ℕ
  pub exptime : ℕ
  pub user_flags : ℕ
  pub flags : ℕ

-- An `int` that is passed on as a `size_t`.
unfoldable pub int_to_size : ℕ → ℕ
int_to_size n = let m = n % word32 in if ltb m (2 ^ 31) then m else m + (2 ^ 64 - 2 ^ 32)

-- The fields that the code writes into a node, in a node that has a hash.
unfoldable pub filled : Request → Bytes → ℕ → Node
filled rq v hash = record {
  hash = hash;
  key = rq.key;
  expires = expires_at rq.time rq.exptime;
  value_len = length v % word32;
  user_flags = rq.user_flags;
  value_type = rq.value_type;
  value = v;
}

-- `offsetof(ngx_shm_dict_node_t, data)`, of a structure that is packed by four.
abbrev pub data_offset : ℕ
data_offset = 37

module _ {Queue Slab : Type 0} (ngx : Nginx Queue Slab) where
  abbrev pub Outcome : Type 0
  Outcome = Status × Zone Queue Slab

  -- What a node takes up with its key and its value.
  abbrev pub node_bytes : Request → Bytes → ℕ
  node_bytes rq v = ngx.color_offset + data_offset + length rq.key + length v

  -- `n`, an `int`.
  unfoldable pub node_size : Request → Bytes → ℕ
  node_size rq v = int_to_size (node_bytes rq v)

  -- `allocated:`, with a block of `size` bytes at `a`. Key and value are copied whatever the size is:
  -- a copy that leaves the block is noted in the zone, and the zone then says no more about memory.
  unfoldable pub allocated : Request → Bytes → ℕ → ℕ → Zone Queue Slab → Outcome
  allocated rq v size a z =
      let z' = write ngx z a (filled rq v (shm_crc32 ngx rq.key)) in
      (
        ok,
        unlock ngx (record z' {
          tree = ngx.rbtree_insert (insert_value ngx z'.heap) z.tree a;
          queue = ngx.insert_head z.queue a;
          overrun = z.overrun || ltb size (node_bytes rq v);
        }),
      )

  -- `for (i = 0; i < 30; i++)`, over the rounds that are left.
  unfoldable pub evict : ℕ → Request → Bytes → Zone Queue Slab → Outcome
  evict zero rq v z = (error, unlock ngx z)
  evict (suc rounds) rq v z =
      let (freed, z') = expire ngx rq.time 0 z in
      elim (freed == 0) [
        | true ↦ (error, unlock ngx z')
        | false ↦ elim (ngx.slab_alloc z'.slab (node_size rq v)) [
          | none ↦ evict rounds rq v z'
          | some (a, slab) ↦ allocated rq v (node_size rq v) a (record z' { slab = slab })
        ]
      ]

  -- `insert:`
  unfoldable pub insert : Request → Zone Queue Slab → Outcome
  insert rq z = elim rq.value [
    | none ↦ (error, unlock ngx z)
    | some v ↦ elim (ngx.slab_alloc z.slab (node_size rq v)) [
      | none ↦ if has rq.flags shm_safe_store then (error, unlock ngx z) else evict 30 rq v z
      | some (a, slab) ↦ allocated rq v (node_size rq v) a (record z { slab = slab })
    ]
  ]

  -- `remove:`
  unfoldable pub remove_old : Request → ℕ → Zone Queue Slab → Outcome
  remove_old rq a z =
      let z' = drop_node ngx z a in
      if rq.value_type == shm_dict_null then (ok, unlock ngx z') else insert rq z'

  -- `replace:`
  unfoldable pub replace : Request → ℕ → Zone Queue Slab → Outcome
  replace rq a z = elim rq.value [
    | none ↦ remove_old rq a z
    | some v ↦
        if length v == (z.heap a).value_len
        then (ok, unlock ngx (write ngx (touch ngx z a) a (filled rq v (z.heap a).hash)))
        else remove_old rq a z
  ]

  -- What follows the lookup, by the flags and by what was found.
  unfoldable pub set_locked : Request → Lookup → Zone Queue Slab → Outcome
  set_locked rq (found a) z =
      if has rq.flags shm_replace
      then replace rq a z
      else if has rq.flags shm_add
      then (error, unlock ngx z)
      else if rq.value_type == shm_dict_null
      then remove_old rq a z
      else replace rq a z
  set_locked rq (stale a) z =
      if has rq.flags shm_delete || has rq.flags shm_replace
      then (error, unlock ngx z)
      else if has rq.flags shm_add
      then replace rq a z
      else if rq.value_type == shm_dict_null
      then remove_old rq a z
      else replace rq a z
  set_locked rq declined z =
      if has rq.flags shm_delete || has rq.flags shm_replace
      then (error, unlock ngx z)
      else insert rq z

  unfoldable pub set_impl : Request → Zone Queue Slab → Outcome
  set_impl rq z =
      if length rq.key == 0 || ltb 65535 (length rq.key)
      then (error, z)
      else let (_, z') = expire ngx rq.time 1 (lock ngx z) in
        let (rc, z'') = lookup ngx rq.time (shm_crc32 ngx rq.key) rq.key z' in set_locked rq rc z''
