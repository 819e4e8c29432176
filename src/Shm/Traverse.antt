-- ===== src/Shm/Traverse.antt =====
-- ngx_shm_dict.c: the traversal, the keys and the two flushes.
use hustngx.Prelude.{
  ℕ, ◌+◌, Bool, true, false, not, ◌&&◌, ◌||◌, Option, none, some, List, [], ◌∷◌, ◌++◌, ltb, leb,
  ◌==◌, if◌then◌else◌, length,
}
use mathlib.Core.List.{reverse}
use hustngx.Nginx.{Nginx, Bytes}
use hustngx.Shm.Node.{Node, Zone, Time, to_ms}
use hustngx.Shm.Zone.{update, lock, unlock, drop_node, expire}
use hustngx.Shm.Writer.{Status, ok, error}

-- `ngx_shm_dict_tarverse_cb`: a callback on a node and its own data.
abbrev pub Callback : Type 0 → Type 0
Callback D = Node → D → Status × D

-- The loop of `ngx_shm_dict_traverse`, which ends at the first error of the callback.
unfoldable pub traverse_nodes : {D : Type 0} → (ℕ → Node) → Callback D → List ℕ → D → Status × D
traverse_nodes heap cb [] d = (ok, d)
traverse_nodes heap cb (a ∷ rest) d =
    let (rc, d') = cb (heap a) d in
    elim rc [ ok ↦ traverse_nodes heap cb rest d' | error ↦ (error, d') ]

-- The test of `__on_get_total_keys` and `__on_get_keys`.
unfoldable pub is_listed : Bool → ℕ → Node → Bool
is_listed include_expires now n = include_expires || (n.expires == 0 || ltb now n.expires)

unfoldable pub on_get_total_keys : Bool → ℕ → Callback ℕ
on_get_total_keys include_expires now n total =
    if is_listed include_expires now n then (ok, total + 1) else (ok, total)

-- `ngx_shm_dict_copy_str` into a pool that may fail to allocate.
unfoldable pub copy_str : (ℕ → Bool) → Bytes → Option Bytes
copy_str palloc [] = none
copy_str palloc (c ∷ src) = if palloc (length src + 2) then some (c ∷ src) else none

-- A key whose copy fails leaves its entry as it was allocated, here `none`; the size counts it.
unfoldable pub on_get_keys : (ℕ → Bool) → Bool → ℕ → Callback (List (Option Bytes))
on_get_keys palloc include_expires now n keys =
    if is_listed include_expires now n then (ok, keys ++ copy_str palloc n.key ∷ []) else (ok, keys)

-- The loop of `ngx_shm_dict_flush_all`.
unfoldable pub age_nodes : List ℕ → (ℕ → Node) → ℕ → Node
age_nodes [] heap = heap
age_nodes (a ∷ rest) heap = age_nodes rest (update heap a (record (heap a) { expires = 1 }))

-- `sd->expires != 0 && sd->expires <= now`
unfoldable pub has_expired : ℕ → ℕ → Bool
has_expired expires now = not (expires == 0) && leb expires now

module _ {Queue Slab : Type 0} (ngx : Nginx Queue Slab) where
  unfoldable pub traverse :
      {D : Type 0} → Callback D → D → Zone Queue Slab → Status × D × Zone Queue Slab
  traverse cb d z =
      let z' = lock ngx z in
      let (rc, d') = traverse_nodes z'.heap cb (ngx.items z'.queue) d in (rc, d', unlock ngx z')

  unfoldable pub get_total_keys : Time → Bool → Zone Queue Slab → Status × ℕ × Zone Queue Slab
  get_total_keys t include_expires z = traverse (on_get_total_keys include_expires (to_ms t)) 0 z

  -- The second traversal, into an array for the keys that a first one has counted; its pointer is
  -- not checked, and a pool that cannot give it is left out here. The mutex is free between the two,
  -- when other processes do `between` to the zone. The third result says whether the second
  -- traversal has written behind the array.
  unfoldable pub copy_keys :
      (ℕ → Bool)
      → Time
      → Bool
      → (Zone Queue Slab → Zone Queue Slab)
      → Status × ℕ × Zone Queue Slab
      → Status × List (Option Bytes) × Bool × Zone Queue Slab
  copy_keys palloc t include_expires between (error, total, z) = (error, [], false, z)
  copy_keys palloc t include_expires between (ok, total, z) =
      let (rc, keys, z') = traverse (on_get_keys palloc include_expires (to_ms t)) [] (between z) in
      (rc, keys, ltb total (length keys), z')

  unfoldable pub get_keys :
      (ℕ → Bool)
      → Time
      → Bool
      → (Zone Queue Slab → Zone Queue Slab)
      → Zone Queue Slab
      → Status × List (Option Bytes) × Bool × Zone Queue Slab
  get_keys palloc t include_expires between z =
      copy_keys palloc t include_expires between (get_total_keys t include_expires z)

  unfoldable pub flush_all : Time → Zone Queue Slab → Zone Queue Slab
  flush_all t z =
      let z' = lock ngx z in
      let aged = record z' { heap = age_nodes (ngx.items z'.queue) z'.heap } in
      let (freed, z'') = expire ngx t 0 aged in unlock ngx z''

  -- The loop of `ngx_shm_dict_flush_expired`, from the last node to the first; `attempts` that is
  -- zero sets no bound (a negative one neither).
  unfoldable pub flush_loop : ℕ → ℕ → List ℕ → ℕ → Zone Queue Slab → ℕ × Zone Queue Slab
  flush_loop now attempts [] freed z = (freed, z)
  flush_loop now attempts (a ∷ rest) freed z = elim (has_expired (z.heap a).expires now) [
    | false ↦ flush_loop now attempts rest freed z
    | true ↦ elim (not (attempts == 0) && freed + 1 == attempts) [
      | true ↦ (freed + 1, drop_node ngx z a)
      | false ↦ flush_loop now attempts rest (freed + 1) (drop_node ngx z a)
    ]
  ]

  -- On an empty queue the code returns with the mutex held.
  unfoldable pub flush_expired : Time → ℕ → Zone Queue Slab → ℕ × Zone Queue Slab
  flush_expired t attempts z =
      let z' = lock ngx z in
      elim (ngx.items z'.queue) [
        | [] ↦ (0, z')
        | a ∷ rest ↦
            let (freed, z'') = flush_loop (to_ms t) attempts (reverse (a ∷ rest)) 0 z' in
            (freed, unlock ngx z'')
      ]
