-- ===== src/Shm/Flush.antt =====
-- The flushes and the key lists of ngx_shm_dict.c on a valid zone.
use hustngx.Prelude.{
  ℕ, ◌≡◌, ◌≤◌, ◌<◌, ◌^◌, refl, sym, ap, ◌∙◌, true, ◌||◌, none, List, [], ◌∷◌, ◌==◌, inl, inr,
  Option-cases, arith, mem, ==_iff, length,
}
use hustngx.Nginx.{Nginx, Bytes, inorder}
use hustngx.Shm.Node.{Node, Zone, Time, to_ms, shm_crc32, ms_left, ms_negative}
use hustngx.Shm.Search.{IsSorted-congr}
use hustngx.Shm.Zone.{is_stale, update, expire}
use hustngx.Shm.Valid.{IsValid, Holds, unlock-IsValid}
use hustngx.Shm.Expire.{expire-Drops, Drops-Holds}
use hustngx.Shm.Reader.{get}
use hustngx.Shm.Read.{get_sound}
use hustngx.Shm.Traverse.{age_nodes, flush_all}

aged : (ℕ → Node) → ℕ → ℕ → Node
aged heap a = update heap a (record (heap a) { expires = 1 })

-- Every node of the list is aged; hashes and keys stay.
age_nodes-fields :
    (rest : List ℕ) (heap : ℕ → Node) (b : ℕ)
    → ((age_nodes rest heap b).hash ≡ (heap b).hash)
      × ((age_nodes rest heap b).key ≡ (heap b).key)
      × (mem b rest || (heap b).expires == 1 ≡ true → (age_nodes rest heap b).expires ≡ 1)
unfolding age_nodes update
age_nodes-fields [] heap b = (refl, refl, λ h. ground arith)
age_nodes-fields (a ∷ rest) heap b =
    ground
      (arith, age_nodes-fields rest (update heap a (record (heap a) { expires = 1 })) b, ==_iff b a)

stale_aged : (now : ℕ) → 1 < now → now ≤ 2 ^ 63 → is_stale 1 now ≡ true
unfolding is_stale ms_left ms_negative
stale_aged now l u = ground arith

module _ {Queue Slab : Type 0} (ngx : Nginx Queue Slab) where
  ageing : Zone Queue Slab → Zone Queue Slab
  ageing z = record z { heap = age_nodes (ngx.items z.queue) z.heap; locked = true }

  ageing-IsValid : (z : Zone Queue Slab) → IsValid ngx z → IsValid ngx (ageing z)
  ageing-IsValid z v =
      unfold ageing in
      record {
        sorted =
            IsSorted-congr ngx z.heap (age_nodes (ngx.items z.queue) z.heap) (inorder z.tree)
              (λ b h. sym (age_nodes-fields (ngx.items z.queue) z.heap b).0)
              (λ b h. sym (age_nodes-fields (ngx.items z.queue) z.heap b).1) v.sorted;
        distinct = v.distinct;
        same = v.same;
        live = v.live;
        hashed = λ b h.
            (age_nodes-fields (ngx.items z.queue) z.heap b).0
            ∙ v.hashed b h
            ∙ ap (shm_crc32 ngx) (sym (age_nodes-fields (ngx.items z.queue) z.heap b).1);
      }

  -- What is left after `flush_all` has the expiry 1.
  flush_all-aged :
      (t : Time) (z : Zone Queue Slab)
      → IsValid ngx z
      → IsValid ngx (flush_all ngx t z)
        × ((b : ℕ) → Holds ngx (flush_all ngx t z) b → ((flush_all ngx t z).heap b).expires ≡ 1)
  unfolding flush_all ageing
  flush_all-aged t z v =
      let (dropped, d, _, _, _) = expire-Drops ngx t 0 (ageing z) (ageing-IsValid z v) in
      let z' = (expire ngx t 0 (ageing z)).1 in
      (
        unlock-IsValid ngx z' d.valid,
        λ b h.
            ap (λ (f : ℕ → Node). (f b).expires) d.heap
            ∙ (age_nodes-fields (ngx.items z.queue) z.heap b).2
                (ground (arith, Drops-Holds ngx d b h)),
      )

  -- After flush_all on a valid zone no key of 1 to 65535 bytes is found by a reader whose clock is
  -- past the first millisecond and at most 2^63.
  pub get-flush_all :
      (t t' : Time) (key : Bytes) (z : Zone Queue Slab)
      → IsValid ngx z
      → 0 < length key
      → length key ≤ 65535
      → 1 < to_ms t'
      → to_ms t' ≤ 2 ^ 63
      → (get ngx t' key (flush_all ngx t z)).0 ≡ none
  get-flush_all t t' key z v p q l u = elim (Option-cases (get ngx t' key (flush_all ngx t z)).0) [
    | inl e ↦ e
    | inr (g, e) ↦
        let (w, one) = flush_all-aged t z v in
        let (h, same, new, _) = get_sound ngx t' key (flush_all ngx t z) w p q g e in
        let old : is_stale ((flush_all ngx t z).heap g.at).expires (to_ms t') ≡ true =
          rw (one g.at h) (stale_aged (to_ms t') l u) in
        absurd (cc (new, old))
  ]
