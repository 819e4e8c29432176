-- ===== src/Shm/SetImpl.antt =====
-- The labels `remove:` and `replace:` and the whole of `ngx_shm_dict_set_impl`
-- (ngx_shm_dict_writer.c) on a valid zone.
use hustngx.Prelude.{
  ℕ, ◌≡◌, ◌≢◌, ◌≤◌, ◌<◌, refl, sym, ap, ◌∙◌, Bool, true, false, ◌||◌, some, ltb, ◌==◌,
  if◌then◌else◌, inl, inr, Bool-cases, Option-cases, arith, ==_iff, length,
}
use hustngx.Nginx.{Nginx, Bytes}
use hustngx.Shm.Node.{Node, Zone, to_ms, shm_crc32}
use hustngx.Shm.Zone.{
  found, stale, lock, unlock, write, update, touch, drop_node, expire, lookup, is_stale,
}
use hustngx.Shm.Valid.{
  IsValid, Holds, drop_node-IsValid, touch-IsValid, write-IsValid, mem-touch, mem-drop_node,
  lock-IsValid, unlock-IsValid, heap-touch,
}
use hustngx.Shm.Expire.{expire-Drops, lookup_cases}
use hustngx.Shm.Writer.{
  ok, Request, filled, Outcome, remove_old, replace, set_locked, set_impl, shm_dict_null,
}
use hustngx.Shm.Effect.{Effect, Effect-after, Effect-error, IsAbsent, Sheds-Drops}
use hustngx.Shm.Effect.{Sheds-touch, Sheds-drop_node, Holds-unique}
use hustngx.Shm.Insert.{insert-Effect, update_self, update_ne}

module _ {Queue Slab : Type 0} (ngx : Nginx Queue Slab) where
  module _ (rq : Request) (z : Zone Queue Slab) (v : IsValid ngx z) (a : ℕ) (h : Holds ngx z a)
      (key : (z.heap a).key ≡ rq.key) where
    drop_node-IsAbsent : IsAbsent ngx rq.key (drop_node ngx z a)
    drop_node-IsAbsent b k e =
        let s = Sheds-drop_node ngx z v a h b k in
        let same : a ≡ b =
          Holds-unique ngx z v a b h s.0 (key ∙ sym e ∙ ap (λ (n : Node). n.key) s.1) in
        ground (arith, mem-drop_node ngx z v a h b, ==_iff b a)

    remove_old-Effect : Effect ngx rq z (remove_old ngx rq a z)
    unfolding remove_old
    remove_old-Effect =
        let z' = drop_node ngx z a in
        let valid = drop_node-IsValid ngx z v a h in
        let s = Sheds-drop_node ngx z v a h in
        elim (Bool-cases (rq.value_type == shm_dict_null)) [
          | inl e ↦ simp e (record {
            valid = unlock-IsValid ngx z' valid;
            unlocked = refl;
            others = λ b k _. s b k;
            failed = λ f. absurd (cc);
            succeeded = λ f. inr ((==_iff rq.value_type shm_dict_null).0 e, drop_node-IsAbsent);
          })
          | inr e ↦
              simp e
                (Effect-after ngx rq z z' _ s (insert-Effect ngx rq z' valid drop_node-IsAbsent))
        ]

    fits-Effect :
        (x : Bytes)
        → rq.value ≡ some x
        → (z.heap a).hash ≡ shm_crc32 ngx rq.key
        → Effect ngx rq z
            (ok, unlock ngx (write ngx (touch ngx z a) a (filled rq x (z.heap a).hash)))
    fits-Effect x value hash = record {
      valid = unlock-IsValid ngx _ (
          write-IsValid ngx z' (touch-IsValid ngx z v a h) a (mem-touch ngx z v a h a ∙ h) n
            (unfold touch filled in refl) (unfold touch filled in sym key));
      unlocked = refl;
      others = λ b k e. (sym (mem-touch ngx z v a h b) ∙ k, old b e);
      failed = λ f. absurd (cc);
      succeeded = λ f. inl (record {
        at = a;
        bytes = x;
        value = value;
        holds = mem-touch ngx z v a h a ∙ h;
        node = update_self (touch ngx z a).heap a n ∙ ap (filled rq x) hash;
      });
    }
      where
        z' : Zone Queue Slab
        z' = touch ngx z a

        n : Node
        n = filled rq x (z.heap a).hash

        old :
            (b : ℕ)
            → (update (touch ngx z a).heap a n b).key ≢ rq.key
            → update (touch ngx z a).heap a n b ≡ z.heap b
        old b e =
            update_ne (touch ngx z a).heap a n b (λ same. e (
              let p : n.key ≡ rq.key = unfold filled in refl in
              rw (same, update_self (touch ngx z a).heap a n) p))
            ∙ ap (λ (f : ℕ → Node). f b) (heap-touch ngx z a)

    replace-Effect : (z.heap a).hash ≡ shm_crc32 ngx rq.key → Effect ngx rq z (replace ngx rq a z)
    unfolding replace
    replace-Effect hash = elim (Option-cases rq.value) [
      | inl e ↦ simp (replace, e) remove_old-Effect
      | inr (x, e) ↦ elim (Bool-cases (length x == (z.heap a).value_len)) [
        | inr f ↦ simp (replace, e, f) remove_old-Effect
        | inl f ↦ simp (replace, e, f) (fits-Effect x e hash)
      ]
    ]

  Effect-if :
      (rq : Request) (z : Zone Queue Slab) (b : Bool) (r r' : Outcome ngx)
      → Effect ngx rq z r
      → Effect ngx rq z r'
      → Effect ngx rq z (if b then r else r')
  Effect-if rq z true r r' e f = e
  Effect-if rq z false r r' e f = f

  module _ (rq : Request) (z : Zone Queue Slab) (v : IsValid ngx z) (a : ℕ) (h : Holds ngx z a)
      (key : (z.heap a).key ≡ rq.key) (hash : (z.heap a).hash ≡ shm_crc32 ngx rq.key) where
    found-Effect : Effect ngx rq z (set_locked ngx rq (found a) z)
    unfolding set_locked
    found-Effect =
        let put = replace-Effect rq z v a h key hash in
        Effect-if rq z _ _ _ put (
          Effect-if rq z _ _ _ (Effect-error ngx rq z v)
            (Effect-if rq z _ _ _ (remove_old-Effect rq z v a h key) put))

    stale-Effect : Effect ngx rq z (set_locked ngx rq (stale a) z)
    unfolding set_locked
    stale-Effect =
        let put = replace-Effect rq z v a h key hash in
        Effect-if rq z _ _ _ (Effect-error ngx rq z v)
          (Effect-if rq z _ _ _ put (Effect-if rq z _ _ _ (remove_old-Effect rq z v a h key) put))

  set_locked-Effect :
      (rq : Request) (z : Zone Queue Slab)
      → IsValid ngx z
      → let r = lookup ngx rq.time (shm_crc32 ngx rq.key) rq.key z in
        Effect ngx rq z (set_locked ngx rq r.0 r.1)
  set_locked-Effect rq z v = elim (lookup_cases ngx rq.time rq.key z v) [
    | inl (e, absent) ↦ rw e (
        unfold set_locked in
        Effect-if rq z _ _ _ (Effect-error ngx rq z v) (insert-Effect ngx rq z v absent))
    | inr (a, h, hash, key, e) ↦
        let w = touch-IsValid ngx z v a h in
        let k = mem-touch ngx z v a h a ∙ h in
        let s = Sheds-touch ngx z v a h in
        let key' : ((touch ngx z a).heap a).key ≡ rq.key = unfold touch in key in
        let hash' : ((touch ngx z a).heap a).hash ≡ shm_crc32 ngx rq.key = unfold touch in hash in
        elim (Bool-cases (is_stale (z.heap a).expires (to_ms rq.time))) [
          | inl old ↦
              rw (e, old)
                (Effect-after ngx rq z (touch ngx z a) _ s
                  (stale-Effect rq (touch ngx z a) w a k key' hash'))
          | inr old ↦
              rw (e, old)
                (Effect-after ngx rq z (touch ngx z a) _ s
                  (found-Effect rq (touch ngx z a) w a k key' hash'))
        ]
  ]

  -- What the functions above do together, as far as the zone says.
  pub set_impl_outcome :
      (rq : Request) (z : Zone Queue Slab)
      → IsValid ngx z
      → 0 < length rq.key
      → length rq.key ≤ 65535
      → Effect ngx rq z (set_impl ngx rq z)
  unfolding set_impl
  set_impl_outcome rq z v p q =
      let (dropped, d, _, _, _) = expire-Drops ngx rq.time 1 (lock ngx z) (lock-IsValid ngx z v) in
      let z' = (expire ngx rq.time 1 (lock ngx z)).1 in
      let s = Sheds-Drops ngx (lock ngx z) z' dropped d in
      let admissible : (length rq.key == 0 || ltb 65535 (length rq.key)) ≡ false = ground arith in
      rw admissible (Effect-after ngx rq z z' _ (λ b h. s b h) (set_locked-Effect rq z' d.valid))
