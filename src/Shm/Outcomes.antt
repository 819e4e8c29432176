-- ===== src/Shm/Outcomes.antt =====
-- When the writers of ngx_shm_dict_writer.c and `ngx_shm_dict_delete` succeed and when they fail.
use hustngx.Prelude.{
  ℕ, ◌≡◌, ◌≢◌, ◌≤◌, ◌<◌, ◌+◌, refl, ap, true, false, none, some, ◌==◌, inl, inr, Bool-cases, arith,
  ==_iff, ==_refl, ◌⊎◌, length,
}
use hustngx.Nginx.{Nginx, Bytes}
use hustngx.Shm.Node.{Zone, Time, to_ms}
use hustngx.Shm.Zone.{lock, touch, expire}
use hustngx.Shm.Valid.{IsValid, Holds}
use hustngx.Shm.Expire.{IsFresh}
use hustngx.Shm.Effect.{IsAbsent}
use hustngx.Shm.Writer.{
  Status, ok, error, Request, set_impl, set_locked, replace, remove_old, insert, allocated,
  node_size, int_to_size, data_offset, shm_dict_null, has, shm_add, shm_replace, shm_delete,
}
use hustngx.Shm.Reader.{get}
use hustngx.Shm.RoundTrip.{get-delete}
use hustngx.Shm.Store
use hustngx.Shm.Store.{store}
use hustngx.Shm.Swept.{swept, set_impl_absent, set_impl_fresh}

module _ {Queue Slab : Type 0} (ngx : Nginx Queue Slab) where
  module _ (t : Time) (key x : Bytes) (value_type exptime user_flags : ℕ) (z : Zone Queue Slab)
      (v : IsValid ngx z) (p : 0 < length key) (q : length key ≤ 65535)
      (typed : value_type ≢ shm_dict_null) where
    -- The request of a writer with these flags.
    request : ℕ → Request
    request flags = record {
      time = t;
      key = key;
      value = some x;
      value_type = value_type;
      exptime = exptime;
      user_flags = user_flags;
      flags = flags;
    }

    -- The status of a writer with these flags on a node that has not expired.
    status_fresh :
        (flags b : ℕ)
        → Holds ngx z b
        → (z.heap b).key ≡ key
        → IsFresh ngx (z.heap b) (to_ms t)
        → (has flags shm_replace ≡ false
            → has flags shm_add ≡ true
            → (set_impl ngx (request flags) z).0 ≡ error)
          × (has flags shm_replace ≡ true ⊎ has flags shm_add ≡ false
              → length x ≡ (z.heap b).value_len
              → (set_impl ngx (request flags) z).0 ≡ ok)
    unfolding request set_locked replace
    status_fresh flags b h same fresh =
        let (e, cell) = set_impl_fresh ngx (request flags) z v p q b h same fresh in
        let type : value_type == shm_dict_null ≡ false =
          ground (arith, ==_iff value_type shm_dict_null) in
        (
          λ f g. rw (e, f, g) refl,
          λ c fits.
              let len : length x == ((touch ngx (swept ngx (request flags) z) b).heap b).value_len
                  ≡ true =
                rw (cell, fits) (==_refl (z.heap b).value_len) in
              elim c [
                | inl f ↦ rw (e, f, len) refl
                | inr g ↦ elim (Bool-cases (has flags shm_replace)) [
                  | inl f ↦ rw (e, f, len) refl
                  | inr f ↦ rw (e, f, g, type, len) refl
                ]
              ],
        )

    -- On a valid zone, both adding writers fail for a typed value and a key with a node that has
    -- not expired. The key has 1 to 65535 bytes.
    add_present :
        (b : ℕ)
        → Holds ngx z b
        → (z.heap b).key ≡ key
        → IsFresh ngx (z.heap b) (to_ms t)
        → ((Store.add ngx t key (some (some x)) value_type exptime user_flags z).0 ≡ error)
          × ((Store.safe_add ngx t key (some (some x)) value_type exptime user_flags z).0 ≡ error)
    unfolding store Store.add Store.safe_add request
    add_present b h same fresh =
        let status = λ (flags : ℕ). status_fresh flags b h same fresh in
        ((status 1).0 refl refl, (status 5).0 refl refl)

    -- On a valid zone, for a key with a node that has not expired, a typed value of the length
    -- that the node has is set and replaced successfully, whatever the allocator does. The key has
    -- 1 to 65535 bytes.
    set_present :
        (b : ℕ)
        → Holds ngx z b
        → (z.heap b).key ≡ key
        → IsFresh ngx (z.heap b) (to_ms t)
        → length x ≡ (z.heap b).value_len
        → ((Store.set ngx t key (some (some x)) value_type exptime user_flags z).0 ≡ ok)
          × ((Store.safe_set ngx t key (some (some x)) value_type exptime user_flags z).0 ≡ ok)
          × ((Store.replace ngx t key (some (some x)) value_type exptime user_flags z).0 ≡ ok)
    unfolding store Store.set Store.safe_set Store.replace request
    set_present b h same fresh fits =
        let status = λ (flags : ℕ). status_fresh flags b h same fresh in
        ((status 0).1 (inr refl) fits, (status 4).1 (inr refl) fits, (status 2).1 (inl refl) fits)

    status_absent :
        (flags a : ℕ) (slab : Slab)
        → has flags shm_delete ≡ false
        → has flags shm_replace ≡ false
        → IsAbsent ngx key z
        → ngx.slab_alloc (swept ngx (request flags) z).slab (node_size ngx (request flags) x)
          ≡ some (a, slab)
        → (set_impl ngx (request flags) z).0 ≡ ok
    unfolding request set_locked insert allocated node_size
    status_absent flags a slab f g absent room =
        rw (set_impl_absent ngx (request flags) z v p q absent, f, g, room) refl

    -- On a valid zone without the key, the two setting and the two adding writers store a typed
    -- value successfully if the allocator has a block for the node after the expiry that the
    -- request starts with. The key has 1 to 65535 bytes.
    pub set_absent :
        (a : ℕ) (slab : Slab)
        → IsAbsent ngx key z
        → ngx.slab_alloc
            (expire ngx t 1 (lock ngx z)).1.slab
            (int_to_size (ngx.color_offset + data_offset + length key + length x))
          ≡ some (a, slab)
        → ((Store.set ngx t key (some (some x)) value_type exptime user_flags z).0 ≡ ok)
          × ((Store.safe_set ngx t key (some (some x)) value_type exptime user_flags z).0 ≡ ok)
          × ((Store.add ngx t key (some (some x)) value_type exptime user_flags z).0 ≡ ok)
          × ((Store.safe_add ngx t key (some (some x)) value_type exptime user_flags z).0 ≡ ok)
    unfolding store Store.set Store.safe_set Store.add Store.safe_add request node_size
    set_absent a slab absent room =
        let status = λ (flags : ℕ). status_absent flags a slab in
        (
          status 0 refl refl absent room,
          status 4 refl refl absent room,
          status 1 refl refl absent room,
          status 5 refl refl absent room,
        )

  module _ (t : Time) (key : Bytes) (z : Zone Queue Slab) (v : IsValid ngx z) (p : 0 < length key)
      (q : length key ≤ 65535) where
    deletion : Request
    deletion = record {
      time = t;
      key = key;
      value = none;
      value_type = shm_dict_null;
      exptime = 0;
      user_flags = 0;
      flags = shm_delete;
    }

    delete_missing : IsAbsent ngx key z → (Store.delete ngx t key z).0 ≡ error
    unfolding Store.delete set_locked deletion
    delete_missing absent = rw (set_impl_absent ngx deletion z v p q absent) refl

    replacement : Bytes → ℕ → ℕ → ℕ → Request
    replacement x value_type exptime user_flags = record {
      time = t;
      key = key;
      value = some x;
      value_type = value_type;
      exptime = exptime;
      user_flags = user_flags;
      flags = shm_replace;
    }

    replace_missing :
        (x : Bytes) (value_type exptime user_flags : ℕ)
        → IsAbsent ngx key z
        → (Store.replace ngx t key (some (some x)) value_type exptime user_flags z).0 ≡ error
    unfolding store Store.replace set_locked replacement
    replace_missing x value_type exptime user_flags absent =
        rw (set_impl_absent ngx (replacement x value_type exptime user_flags) z v p q absent) refl

    -- On a valid zone without the key, replacing and deleting fail. The key has 1 to 65535 bytes.
    replace_absent :
        (x : Bytes) (value_type exptime user_flags : ℕ)
        → IsAbsent ngx key z
        → ((Store.replace ngx t key (some (some x)) value_type exptime user_flags z).0 ≡ error)
          × ((Store.delete ngx t key z).0 ≡ error)
    replace_absent x value_type exptime user_flags absent =
        (replace_missing x value_type exptime user_flags absent, delete_missing absent)

    delete_fresh :
        (b : ℕ)
        → Holds ngx z b
        → (z.heap b).key ≡ key
        → IsFresh ngx (z.heap b) (to_ms t)
        → (Store.delete ngx t key z).0 ≡ ok
    unfolding Store.delete set_locked remove_old deletion
    delete_fresh b h same fresh = rw ((set_impl_fresh ngx deletion z v p q b h same fresh).0) refl

    -- On a valid zone, deleting a key with a node that has not expired succeeds, and then no
    -- reader finds it. The key has 1 to 65535 bytes.
    delete_present :
        (t' : Time) (b : ℕ)
        → Holds ngx z b
        → (z.heap b).key ≡ key
        → IsFresh ngx (z.heap b) (to_ms t)
        → ((Store.delete ngx t key z).0 ≡ ok)
          × ((get ngx t' key (Store.delete ngx t key z).1).0 ≡ none)
    delete_present t' b h same fresh =
        let done = delete_fresh b h same fresh in
        (
          done,
          get-delete ngx t t' key z (Store.delete ngx t key z).1 v p q
              (ap (λ (rc : Status). (rc, (Store.delete ngx t key z).1)) done),
        )
