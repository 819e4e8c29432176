-- ===== src/Shm/Expire.antt =====
-- `ngx_shm_dict_expire` and `ngx_shm_dict_lookup` of ngx_shm_dict_utils.c on a valid zone.
use hustngx.Prelude.{
  ℕ, zero, suc, ◌+◌, ◌-◌, ◌≡◌, ◌≢◌, ◌≤◌, ◌<◌, refl, sym, ◌⊎◌, ap, ◌∙◌, true, false, some, List, [],
  ◌∷◌, ◌++◌, if◌then◌else◌, get_last?, inl, inr, Bool-cases, Option-cases, arith, mem, erase,
  IsDistinct, ==_iff, length, mem-get_last?, mem-append, length-append,
}
use mathlib.Core.List.{append_assoc, append-nil}
use hustngx.Nginx.{Nginx, Bytes}
use hustngx.Shm.Node.{Node, Zone, Time, to_ms, shm_crc32, search_tree}
use hustngx.Shm.Search.{search_tree-some, search_tree-mem}
use hustngx.Shm.Zone.{
  found, stale, declined, touch, drop_node, is_kept, is_stale, expire_loop, expire, lookup,
}
use hustngx.Shm.Valid.{IsValid, Holds, heap-drop_node, drop_node-IsValid}

erase_last :
    (xs : List ℕ) (a : ℕ) → IsDistinct xs → get_last? xs ≡ some a → erase a xs ++ a ∷ [] ≡ xs
erase_last [] a d e = absurd (cc)
erase_last (x ∷ []) a d e = ground arith
erase_last (x ∷ y ∷ xs) a d e =
    let rest = erase_last (y ∷ xs) a d.1 e in ground (arith, rest, mem-get_last? (y ∷ xs) {a = a} e)

is_kept_pos : (n expires now : ℕ) → 0 < n → is_kept n expires now ≡ is_kept 1 expires now
unfolding is_kept
is_kept_pos n expires now p = ground arith

module _ {Queue Slab : Type 0} (ngx : Nginx Queue Slab) where
  -- `z'` is `z` without the nodes `dropped`, which stood last in the queue.
  pub record Drops (z : Zone Queue Slab) (z' : Zone Queue Slab) (dropped : List ℕ) : Type 0 where
    pub valid : IsValid ngx z'
    pub tail : ngx.items z'.queue ++ dropped ≡ ngx.items z.queue
    pub heap : z'.heap ≡ z.heap
    pub locked : z'.locked ≡ z.locked
    pub overrun : z'.overrun ≡ z.overrun

  -- A node that has not expired at `now`: no expiry, or one in the future.
  abbrev pub IsFresh : Node → ℕ → Type 0
  IsFresh n now = is_kept 1 n.expires now ≡ true

  drop_last :
      (z : Zone Queue Slab)
      → IsValid ngx z
      → (a : ℕ) → get_last? (ngx.items z.queue) ≡ some a
      → ngx.items (drop_node ngx z a).queue ++ a ∷ [] ≡ ngx.items z.queue
  unfolding drop_node
  drop_last z v a e =
      rw (ngx.items-remove z.queue a (mem-get_last? (ngx.items z.queue) {a = a} e))
        (erase_last (ngx.items z.queue) a v.distinct e)

  loop_Drops :
      (rounds now n freed : ℕ) (z : Zone Queue Slab)
      → IsValid ngx z
      → (dropped : List ℕ) × Drops z (expire_loop ngx rounds now n z freed).1 dropped
        × ((expire_loop ngx rounds now n z freed).0 ≡ freed + length dropped)
        × (length dropped ≤ rounds)
        × (0 < n → (b : ℕ) → mem b dropped ≡ true → is_kept 1 (z.heap b).expires now ≡ false)
  unfolding expire_loop
  loop_Drops zero now n freed z v = (
    [],
    record { valid = v; tail = append-nil _; heap = refl; locked = refl; overrun = refl },
    omega arith,
    omega arith,
    λ p b h. cc,
  )
  loop_Drops (suc rounds) now n freed z v = elim (Option-cases (get_last? (ngx.items z.queue))) [
    | inl e ↦
        rw (e, expire_loop)
          (
            [],
            record { valid = v; tail = append-nil _; heap = refl; locked = refl; overrun = refl },
            omega arith,
            omega arith,
            λ p b h. cc,
          )
    | inr (a, e) ↦ elim (Bool-cases (is_kept n (z.heap a).expires now)) [
      | inl k ↦
          rw (e, expire_loop, k)
            (
              [],
              record { valid = v; tail = append-nil _; heap = refl; locked = refl; overrun = refl },
              omega arith,
              omega arith,
              λ p b h. cc,
            )
      | inr k ↦
          let there = mem-get_last? (ngx.items z.queue) {a = a} e in
          let (dropped, d, count, bound, old) =
            loop_Drops rounds now (n + 1) (freed + 1) (drop_node ngx z a)
              (drop_node-IsValid ngx z v a there) in
          rw (e, expire_loop, k)
            (
              dropped ++ a ∷ [],
              record {
                valid = d.valid;
                tail =
                    sym (append_assoc _ dropped (a ∷ []))
                    ∙ ap (λ l. l ++ a ∷ []) d.tail
                    ∙ drop_last z v a e;
                heap = d.heap ∙ (unfold drop_node in refl);
                locked = d.locked ∙ (unfold drop_node in refl);
                overrun = d.overrun ∙ (unfold drop_node in refl);
              },
              count ∙ omega (arith, length-append dropped (a ∷ [])),
              omega (arith, length-append dropped (a ∷ [])),
              λ p b h. ground (
                arith,
                mem-append b dropped (a ∷ []),
                old (omega arith) b,
                ap (λ (h : ℕ → Node). (h b).expires) (heap-drop_node ngx z a),
                is_kept_pos n (z.heap a).expires now p,
                ==_iff b a,
              ),
            )
    ]
  ]

  -- On a valid zone the expiry frees at most 3 - n nodes, all from the end of the queue, returns
  -- their number, and if n is positive each of them has expired; the zone stays valid.
  pub expire-Drops :
      (t : Time) (n : ℕ) (z : Zone Queue Slab)
      → IsValid ngx z
      → (dropped : List ℕ) × Drops z (expire ngx t n z).1 dropped
        × ((expire ngx t n z).0 ≡ length dropped)
        × (length dropped ≤ 3 - n)
        × (0 < n → (b : ℕ) → mem b dropped ≡ true → is_kept 1 (z.heap b).expires (to_ms t) ≡ false)
  expire-Drops t n z v =
      let (dropped, d, count, bound, old) = loop_Drops (3 - n) (to_ms t) n 0 z v in
      unfold expire in (dropped, d, count ∙ omega arith, bound, old)

  -- What is in the zone after a drop was there before.
  pub Drops-Holds :
      {z z' : Zone Queue Slab} {dropped : List ℕ}
      → Drops z z' dropped
      → (b : ℕ) → Holds ngx z' b
      → Holds ngx z b
  Drops-Holds {z} {z'} {dropped} d b h =
      rw (← d.tail) (ground (arith, mem-append b (ngx.items z'.queue) dropped))

  -- On a valid zone the lookup declines if no node has the key, and otherwise finds the node that
  -- has it, moves it to the head of the queue, and returns NGX_DONE exactly if it is stale.
  pub lookup_cases :
      (t : Time) (key : Bytes) (z : Zone Queue Slab)
      → IsValid ngx z
      → ((lookup ngx t (shm_crc32 ngx key) key z ≡ (declined, z))
          × ((b : ℕ) → Holds ngx z b → (z.heap b).key ≢ key))
        ⊎ ((a : ℕ) × Holds ngx z a
            × ((z.heap a).hash ≡ shm_crc32 ngx key)
            × ((z.heap a).key ≡ key)
            × (lookup ngx t (shm_crc32 ngx key) key z ≡ (
              if is_stale (z.heap a).expires (to_ms t) then stale a else found a,
              touch ngx z a,
            )))
  unfolding lookup
  lookup_cases t key z v =
      elim (Option-cases (search_tree ngx z.heap (shm_crc32 ngx key) key z.tree)) [
        | inl e ↦ inl (
          rw (e, lookup),
          λ b h k. absurd (
              cc (
                e,
                k,
                v.hashed b h,
                ap (shm_crc32 ngx) k,
                search_tree-mem ngx z.heap z.tree b v.sorted (sym (v.same b) ∙ h),
              )),
        )
        | inr (a, e) ↦
            let (there, hash, same) =
              search_tree-some ngx z.heap (shm_crc32 ngx key) key z.tree a e in
            inr (a, v.same a ∙ there, hash, same, rw (e, lookup))
      ]
