-- ===== src/Shm/RoundTrip.antt =====
-- Writers and readers together: ngx_shm_dict_writer.c, ngx_shm_dict_reader.c, ngx_shm_dict.c.
use hustngx.Prelude.{
  ℕ, ◌≡◌, ◌≢◌, ◌≤◌, ◌<◌, ◌%◌, refl, sym, ◌∙◌, true, none, some, some-injective, inl, inr,
  Option-cases, arith, length, take-length,
}
use hustngx.Nginx.{Nginx, Bytes}
use hustngx.Shm.Node.{Zone, Time, to_ms, shm_crc32, word32, expires_at}
use hustngx.Shm.Zone.{is_kept}
use hustngx.Shm.Valid.{IsValid, Holds}
use hustngx.Shm.Expire.{IsFresh}
use hustngx.Shm.Effect.{Effect, Stored}
use hustngx.Shm.SetImpl.{set_impl_outcome}
use hustngx.Shm.Reader.{Got, got_node, get}
use hustngx.Shm.Read.{get_sound, get_complete}
use hustngx.Shm.Writer.{ok, Request, filled, set_impl, shm_dict_null}
use hustngx.Shm.Store.{store, delete}

module _ {Queue Slab : Type 0} (ngx : Nginx Queue Slab) where
  -- What a reader gets from a node that a request has filled.
  read_filled :
      (t : Time) (a : ℕ) (rq : Request) (x : Bytes) (hash : ℕ)
      → length x < word32
      → let g = got_node t a (filled rq x hash) in
        (g.bytes ≡ x) × (g.value_type ≡ rq.value_type) × (g.user_flags ≡ rq.user_flags)
  unfolding got_node filled
  read_filled t a rq x hash fits = (take-length (length x % word32) x (omega arith), refl, refl)

  module _ (rq : Request) (z : Zone Queue Slab) (v : IsValid ngx z) (p : 0 < length rq.key)
      (q : length rq.key ≤ 65535) (z' : Zone Queue Slab) where
    get-set_impl :
        (x : Bytes) (t' : Time)
        → rq.value ≡ some x
        → length x < word32
        → rq.value_type ≢ shm_dict_null
        → set_impl ngx rq z ≡ (ok, z')
        → is_kept 1 (expires_at rq.time rq.exptime) (to_ms t') ≡ true
        → (g : Got) × ((get ngx t' rq.key z').0 ≡ some g)
          × (g.bytes ≡ x)
          × (g.value_type ≡ rq.value_type)
          × (g.user_flags ≡ rq.user_flags)
    get-set_impl x t' value fits typed done fresh =
        let eff : Effect ngx rq z (ok, z') = rw done at (set_impl_outcome ngx rq z v p q) in
        elim (eff.succeeded refl) [
          | inr gone ↦ absurd (typed gone.0)
          | inl s ↦
              let same : x ≡ s.bytes = some-injective _ _ (sym value ∙ s.value) in
              let (bytes, type, flags) =
                read_filled t' s.at rq s.bytes (shm_crc32 ngx rq.key) (rw (← same) fits) in
              let key' : (z'.heap s.at).key ≡ rq.key = rw s.node (unfold filled in refl) in
              let fresh' : IsFresh ngx (z'.heap s.at) (to_ms t') =
                rw s.node (unfold filled in fresh) in
              (
                got_node t' s.at (filled rq s.bytes (shm_crc32 ngx rq.key)),
                rw s.node at (get_complete ngx t' rq.key z' eff.valid p q s.at s.holds key' fresh'),
                bytes ∙ sym same,
                type,
                flags,
              )
        ]

    set_impl-Stored :
        rq.value_type ≢ shm_dict_null
        → set_impl ngx rq z ≡ (ok, z')
        → IsValid ngx z' × Stored ngx rq z'
    set_impl-Stored typed done =
        let eff : Effect ngx rq z (ok, z') = rw done at (set_impl_outcome ngx rq z v p q) in
        (eff.valid, elim (eff.succeeded refl) [ inr gone ↦ absurd (typed gone.0) | inl s ↦ s ])

    get-removed :
        (t' : Time)
        → rq.value ≡ none
        → set_impl ngx rq z ≡ (ok, z')
        → (get ngx t' rq.key z').0 ≡ none
    get-removed t' value done =
        let eff : Effect ngx rq z (ok, z') = rw done at (set_impl_outcome ngx rq z v p q) in
        elim (eff.succeeded refl) [
          | inl s ↦ absurd (cc (value, s.value))
          | inr (_, absent) ↦ elim (Option-cases (get ngx t' rq.key z').0) [
            | inl e ↦ e
            | inr (g, e) ↦
                let (h, same, _, _) = get_sound ngx t' rq.key z' eff.valid p q g e in
                absurd (absent g.at h same)
          ]
        ]

  -- On a valid zone, a value of less than 2^32 bytes with a type that a writer has stored
  -- successfully is read back with its bytes, its type and its flags by any reader before the time
  -- of expiry. The key has 1 to 65535 bytes.
  pub get-store :
      (flags : ℕ) (t t' : Time) (key x : Bytes) (value_type exptime user_flags : ℕ)
      (z z' : Zone Queue Slab)
      → IsValid ngx z
      → 0 < length key
      → length key ≤ 65535
      → length x < word32
      → value_type ≢ shm_dict_null
      → store ngx flags t key (some (some x)) value_type exptime user_flags z ≡ (ok, z')
      → is_kept 1 (expires_at t exptime) (to_ms t') ≡ true
      → (g : Got) × ((get ngx t' key z').0 ≡ some g)
        × (g.bytes ≡ x)
        × (g.value_type ≡ value_type)
        × (g.user_flags ≡ user_flags)
  unfolding store
  get-store flags t t' key x value_type exptime user_flags z z' v p q fits typed done fresh =
      get-set_impl _ z v p q z' x t' refl fits typed done fresh

  -- After a successful deletion on a valid zone no reader finds the deleted key. The key has 1 to
  -- 65535 bytes.
  pub get-delete :
      (t t' : Time) (key : Bytes) (z z' : Zone Queue Slab)
      → IsValid ngx z
      → 0 < length key
      → length key ≤ 65535
      → delete ngx t key z ≡ (ok, z')
      → (get ngx t' key z').0 ≡ none
  unfolding delete
  get-delete t t' key z z' v p q done = get-removed _ z v p q z' t' refl done

  -- Where a successful write of a typed value has put it.
  pub store_node :
      (flags : ℕ) (t : Time) (key x : Bytes) (value_type exptime user_flags : ℕ)
      (z z' : Zone Queue Slab)
      → IsValid ngx z
      → 0 < length key
      → length key ≤ 65535
      → value_type ≢ shm_dict_null
      → store ngx flags t key (some (some x)) value_type exptime user_flags z ≡ (ok, z')
      → IsValid ngx z'
        × ((a : ℕ) × Holds ngx z' a
            × ((z'.heap a).key ≡ key)
            × ((z'.heap a).value ≡ x)
            × ((z'.heap a).value_type ≡ value_type)
            × ((z'.heap a).value_len ≡ length x % word32)
            × ((z'.heap a).expires ≡ expires_at t exptime))
  unfolding store filled
  store_node flags t key x value_type exptime user_flags z z' v p q typed done =
      let (valid, s) = set_impl-Stored _ z v p q z' typed done in
      let same : s.bytes ≡ x = sym (some-injective _ _ s.value) in
      (
        valid,
        (s.at, s.holds, rw s.node, rw (s.node, same), rw s.node, rw (s.node, same), rw s.node),
      )
