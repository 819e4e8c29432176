-- ===== src/Shm/Block.antt =====
-- The memory that `ngx_shm_dict_set_impl` (ngx_shm_dict_writer.c) writes: the block of a node has
-- room for what is copied into it.
use hustngx.Prelude.{
  ℕ, zero, suc, ◌≡◌, ◌<◌, ◌≤◌, refl, ◌∙◌, Bool, true, false, ◌||◌, some, ltb, ◌==◌, if◌then◌else◌,
  inl, inr, Bool-cases, Option-cases, arith, length,
}
use hustngx.Nginx.{Nginx, Bytes}
use hustngx.Shm.Node.{Node, Zone, word32, shm_crc32, to_ms}
use hustngx.Shm.Zone.{found, stale, lock, unlock, write, touch, drop_node, expire, lookup, is_stale}
use hustngx.Shm.Valid.{IsValid, Holds, lock-IsValid, drop_node-IsValid, touch-IsValid, mem-touch}
use hustngx.Shm.Expire.{expire-Drops, lookup_cases}
use hustngx.Shm.Writer.{
  Status, ok, error, Request, Outcome, allocated, evict, insert, node_bytes, node_size, int_to_size,
  has, shm_safe_store, remove_old, replace, set_locked, set_impl,
}

module _ {Queue Slab : Type 0} (ngx : Nginx Queue Slab) where
  -- The head of the node, the key and the value have less than 2^32 bytes together.
  abbrev pub IsSmall : Request → Type 0
  IsSmall rq = (x : Bytes) → rq.value ≡ some x → node_bytes ngx rq x < word32

  -- Nothing is written outside of a block.
  StaysInBlocks : Zone Queue Slab → Outcome ngx → Type 0
  StaysInBlocks z r = r.1.overrun ≡ z.overrun

  int_to_size_enough : (n : ℕ) → n < word32 → ltb (int_to_size n) n ≡ false
  unfolding int_to_size
  int_to_size_enough n p = ground arith

  module _ (rq : Request) (small : IsSmall rq) where
    node_size_enough :
        (x : Bytes) → rq.value ≡ some x → ltb (node_size ngx rq x) (node_bytes ngx rq x) ≡ false
    unfolding node_size
    node_size_enough x e = int_to_size_enough (node_bytes ngx rq x) (small x e)

    allocated_stays :
        (x : Bytes) (a : ℕ) (z : Zone Queue Slab) (slab : Slab)
        → rq.value ≡ some x
        → StaysInBlocks z (allocated ngx rq x (node_size ngx rq x) a (record z { slab = slab }))
    unfolding allocated StaysInBlocks
    allocated_stays x a z slab e = rw (node_size_enough x e) (ground arith)

    evict_stays :
        (rounds : ℕ) (x : Bytes) (z : Zone Queue Slab)
        → IsValid ngx z
        → rq.value ≡ some x
        → StaysInBlocks z (evict ngx rounds rq x z)
    unfolding evict StaysInBlocks
    evict_stays zero x z v e = refl
    evict_stays (suc rounds) x z v e =
        let (dropped, d, _, _, _) = expire-Drops ngx rq.time 0 z v in
        let z' = (expire ngx rq.time 0 z).1 in
        let stays : StaysInBlocks z' (evict ngx (suc rounds) rq x z) =
          elim (Bool-cases ((expire ngx rq.time 0 z).0 == 0)) [
            | inl f ↦ rw (evict, f) refl
            | inr f ↦ elim (Option-cases (ngx.slab_alloc z'.slab (node_size ngx rq x))) [
              | inl g ↦ rw (evict, f, g) (evict_stays rounds x z' d.valid e)
              | inr ((a, slab), g) ↦ rw (evict, f, g) (allocated_stays x a z' slab e)
            ]
          ] in
        stays ∙ d.overrun

    insert_stays : (z : Zone Queue Slab) → IsValid ngx z → StaysInBlocks z (insert ngx rq z)
    unfolding insert StaysInBlocks
    insert_stays z v = elim (Option-cases rq.value) [
      | inl e ↦ rw (insert, e) refl
      | inr (x, e) ↦ elim (Option-cases (ngx.slab_alloc z.slab (node_size ngx rq x))) [
        | inl f ↦ elim (Bool-cases (has rq.flags shm_safe_store)) [
          | inl g ↦ rw (insert, e, f, g) refl
          | inr g ↦ rw (insert, e, f, g) (evict_stays 30 x z v e)
        ]
        | inr ((a, slab), f) ↦ rw (insert, e, f) (allocated_stays x a z slab e)
      ]
    ]

    stays-if :
        (z : Zone Queue Slab) (b : Bool) (r r' : Outcome ngx)
        → StaysInBlocks z r
        → StaysInBlocks z r'
        → StaysInBlocks z (if b then r else r')
    stays-if z true r r' e f = e
    stays-if z false r r' e f = f

    unlocked_stays : (z : Zone Queue Slab) (rc : Status) → StaysInBlocks z (rc, unlock ngx z)
    unfolding StaysInBlocks
    unlocked_stays z rc = refl

    stays-after :
        (z y : Zone Queue Slab) (r : Outcome ngx)
        → y.overrun ≡ z.overrun
        → StaysInBlocks y r
        → StaysInBlocks z r
    unfolding StaysInBlocks
    stays-after z y r e f = f ∙ e

    overrun-touch : (z : Zone Queue Slab) (a : ℕ) → (touch ngx z a).overrun ≡ z.overrun
    unfolding touch
    overrun-touch z a = refl

    overrun-drop_node : (z : Zone Queue Slab) (a : ℕ) → (drop_node ngx z a).overrun ≡ z.overrun
    unfolding drop_node
    overrun-drop_node z a = refl

    module _ (a : ℕ) (z : Zone Queue Slab) (v : IsValid ngx z) (h : Holds ngx z a) where
      remove_old_stays : StaysInBlocks z (remove_old ngx rq a z)
      unfolding remove_old
      remove_old_stays =
          let z' = drop_node ngx z a in
          stays-after z z' _ (overrun-drop_node z a) (
            stays-if z' _ _ _ (unlocked_stays z' ok)
              (insert_stays z' (drop_node-IsValid ngx z v a h)))

      -- The new value has the length of the old one.
      fits_stays : (n : Node) → StaysInBlocks z (ok, unlock ngx (write ngx (touch ngx z a) a n))
      unfolding StaysInBlocks
      fits_stays n = overrun-touch z a

      replace_stays : StaysInBlocks z (replace ngx rq a z)
      unfolding replace
      replace_stays = elim (Option-cases rq.value) [
        | inl e ↦ simp (replace, e) remove_old_stays
        | inr (x, e) ↦ simp (replace, e) (stays-if z _ _ _ (fits_stays _) remove_old_stays)
      ]

      found_stays : StaysInBlocks z (set_locked ngx rq (found a) z)
      unfolding set_locked
      found_stays = stays-if z _ _ _ replace_stays (
          stays-if z _ _ _ (unlocked_stays z error)
            (stays-if z _ _ _ remove_old_stays replace_stays))

      stale_stays : StaysInBlocks z (set_locked ngx rq (stale a) z)
      unfolding set_locked
      stale_stays =
          stays-if z _ _ _ (unlocked_stays z error)
            (stays-if z _ _ _ replace_stays (stays-if z _ _ _ remove_old_stays replace_stays))

    set_locked_stays :
        (z : Zone Queue Slab)
        → IsValid ngx z
        → let r = lookup ngx rq.time (shm_crc32 ngx rq.key) rq.key z in
          StaysInBlocks z (set_locked ngx rq r.0 r.1)
    set_locked_stays z v = elim (lookup_cases ngx rq.time rq.key z v) [
      | inl (e, absent) ↦
          rw e (unfold set_locked in stays-if z _ _ _ (unlocked_stays z error) (insert_stays z v))
      | inr (a, h, hash, key, e) ↦
          let y = touch ngx z a in
          let w = touch-IsValid ngx z v a h in
          let k = mem-touch ngx z v a h a ∙ h in
          elim (Bool-cases (is_stale (z.heap a).expires (to_ms rq.time))) [
            | inl old ↦ rw (e, old) (stays-after z y _ (overrun-touch z a) (stale_stays a y w k))
            | inr old ↦ rw (e, old) (stays-after z y _ (overrun-touch z a) (found_stays a y w k))
          ]
    ]

    -- A request with a key of 1 to 65535 bytes writes nothing outside of a block.
    pub overrun-set_impl :
        (z : Zone Queue Slab)
        → IsValid ngx z
        → 0 < length rq.key
        → length rq.key ≤ 65535
        → (set_impl ngx rq z).1.overrun ≡ z.overrun
    unfolding set_impl StaysInBlocks
    overrun-set_impl z v p q =
        let (dropped, d, _, _, _) =
          expire-Drops ngx rq.time 1 (lock ngx z) (lock-IsValid ngx z v) in
        let z' = (expire ngx rq.time 1 (lock ngx z)).1 in
        let admissible : (length rq.key == 0 || ltb 65535 (length rq.key)) ≡ false = ground arith in
        rw admissible (set_locked_stays z' d.valid ∙ d.overrun)
