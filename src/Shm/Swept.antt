-- ===== src/Shm/Swept.antt =====
-- What `ngx_shm_dict_set_impl` (ngx_shm_dict_writer.c) comes to after its lookup, by whether the zone
-- has the key.
use hustngx.Prelude.{
  ℕ, ◌≡◌, ◌≤◌, ◌<◌, refl, sym, ap, ◌∙◌, false, ◌||◌, ◌==◌, inl, inr, ltb, arith, length,
}
use hustngx.Nginx.{Nginx}
use hustngx.Shm.Node.{Node, Zone, shm_crc32, to_ms}
use hustngx.Shm.Zone.{found, declined, lock, touch, expire, lookup, is_stale}
use hustngx.Shm.Valid.{IsValid, Holds, lock-IsValid, heap-touch}
use hustngx.Shm.Expire.{IsFresh, expire-Drops, lookup_cases}
use hustngx.Shm.Effect.{IsAbsent, Sheds-Drops, Holds-unique}
use hustngx.Shm.Read.{Retains-expire, fresh_not_stale}
use hustngx.Shm.Writer.{Request, set_impl, set_locked}

module _ {Queue Slab : Type 0} (ngx : Nginx Queue Slab) where
  -- The zone after the first expiry of a request.
  abbrev pub swept : Request → Zone Queue Slab → Zone Queue Slab
  swept rq z = (expire ngx rq.time 1 (lock ngx z)).1

  module _ (rq : Request) (z : Zone Queue Slab) (v : IsValid ngx z) (p : 0 < length rq.key)
      (q : length rq.key ≤ 65535) where
    set_impl-swept :
        let r = lookup ngx rq.time (shm_crc32 ngx rq.key) rq.key (swept rq z) in
        set_impl ngx rq z ≡ set_locked ngx rq r.0 r.1
    unfolding set_impl
    set_impl-swept =
        let admissible : (length rq.key == 0 || ltb 65535 (length rq.key)) ≡ false = ground arith in
        rw admissible refl

    pub set_impl_absent :
        IsAbsent ngx rq.key z → set_impl ngx rq z ≡ set_locked ngx rq declined (swept rq z)
    set_impl_absent absent =
        let (dropped, d, _, _, _) =
          expire-Drops ngx rq.time 1 (lock ngx z) (lock-IsValid ngx z v) in
        elim (lookup_cases ngx rq.time rq.key (swept rq z) d.valid) [
          | inl (e, _) ↦ rw e at set_impl-swept
          | inr (a, h, _, key, _) ↦
              let s = Sheds-Drops ngx (lock ngx z) (swept rq z) dropped d a h in
              absurd (absent a s.0 (ap (λ (n : Node). n.key) (sym s.1) ∙ key))
        ]

    pub set_impl_fresh :
        (b : ℕ)
        → Holds ngx z b
        → (z.heap b).key ≡ rq.key
        → IsFresh ngx (z.heap b) (to_ms rq.time)
        → (set_impl ngx rq z ≡ set_locked ngx rq (found b) (touch ngx (swept rq z) b))
          × ((touch ngx (swept rq z) b).heap b ≡ z.heap b)
    set_impl_fresh b h key fresh =
        let (dropped, d, _, _, _) =
          expire-Drops ngx rq.time 1 (lock ngx z) (lock-IsValid ngx z v) in
        let y = swept rq z in
        let (held, same) = Retains-expire ngx rq.time z v b h fresh in
        let key' : (y.heap b).key ≡ rq.key = rw same key in
        elim (lookup_cases ngx rq.time rq.key y d.valid) [
          | inl (_, absent) ↦ absurd (absent b held key')
          | inr (a, i, _, k, e) ↦
              let one : a ≡ b = Holds-unique ngx y d.valid a b i held (k ∙ sym key') in
              let new : is_stale (y.heap a).expires (to_ms rq.time) ≡ false =
                rw (one, same) (fresh_not_stale ngx (z.heap b).expires (to_ms rq.time) fresh) in
              (
                rw (e, new, one) at set_impl-swept,
                ap (λ (f : ℕ → Node). f b) (heap-touch ngx y b) ∙ same,
              )
        ]
