-- ===== src/Shm/Expired.antt =====
-- `ngx_shm_dict_flush_expired` of ngx_shm_dict.c on a valid zone.
use hustngx.Prelude.{
  ℕ, ◌+◌, ◌≡◌, ◌≢◌, ◌≤◌, ◌<◌, ◌↔◌, ◌⊎◌, refl, sym, ap, ◌∙◌, true, false, not, ◌&&◌, List, [], ◌∷◌,
  ◌==◌, inl, inr, Bool-cases, arith, mem, IsDistinct, ==_iff, ==_refl, length, length-erase,
}
use mathlib.Core.List.{reverse}
use hustngx.Nginx.{Nginx}
use hustngx.Shm.Node.{Node, Zone, Time, to_ms}
use hustngx.Shm.Zone.{lock, unlock, drop_node}
use hustngx.Shm.Valid.{
  IsValid, Holds, lock-IsValid, unlock-IsValid, drop_node-IsValid, mem-drop_node, heap-drop_node,
}
use hustngx.Shm.Traverse.{flush_loop, flush_expired, has_expired}
use hustngx.Shm.Backwards.{mem-reverse, reverse-IsDistinct}

-- A node that does not expire, or later than `now`.
abbrev pub IsCurrent : ℕ → ℕ → Type 0
IsCurrent expires now = (expires ≡ 0) ⊎ (now < expires)

has_expired-IsCurrent :
    (expires now : ℕ) → (has_expired expires now ≡ false) ↔ IsCurrent expires now
unfolding has_expired
has_expired-IsCurrent expires now = (λ e. ground arith, λ c. ground arith)

module _ {Queue Slab : Type 0} (ngx : Nginx Queue Slab) where
  -- `z'` is `z` without some nodes that have expired at `now`.
  record Flushed (now : ℕ) (z z' : Zone Queue Slab) : Type 0 where
    valid : IsValid ngx z'
    heap : z'.heap ≡ z.heap
    sheds : (b : ℕ) → Holds ngx z' b → Holds ngx z b
    retains : (b : ℕ) → Holds ngx z b → has_expired (z.heap b).expires now ≡ false → Holds ngx z' b

  length-drop_node :
      (z : Zone Queue Slab) (a : ℕ)
      → Holds ngx z a
      → length (ngx.items (drop_node ngx z a).queue) + 1 ≡ length (ngx.items z.queue)
  unfolding drop_node
  length-drop_node z a h = rw (ngx.items-remove z.queue a h) (length-erase a (ngx.items z.queue) h)

  module _ (now : ℕ) where
    Flushed-trans : (z y x : Zone Queue Slab) → Flushed now z y → Flushed now y x → Flushed now z x
    Flushed-trans z y x f g = record {
      valid = g.valid;
      heap = g.heap ∙ f.heap;
      sheds = λ b h. f.sheds b (g.sheds b h);
      retains = λ b h e. g.retains b (f.retains b h e) (rw f.heap e);
    }

    drop_node-Flushed :
        (z : Zone Queue Slab)
        → IsValid ngx z
        → (a : ℕ) → Holds ngx z a
        → has_expired (z.heap a).expires now ≡ true
        → Flushed now z (drop_node ngx z a)
    drop_node-Flushed z v a h old = record {
      valid = drop_node-IsValid ngx z v a h;
      heap = heap-drop_node ngx z a;
      sheds = λ b k. ground (arith, mem-drop_node ngx z v a h b);
      retains = λ b k e. ground (
        arith,
        mem-drop_node ngx z v a h b,
        ==_iff b a,
        λ (s : b ≡ a). ap (λ (x : ℕ). has_expired (z.heap x).expires now) s,
      );
    }

    loop_Flushed :
        (attempts : ℕ) (rest : List ℕ) (freed : ℕ) (z : Zone Queue Slab)
        → IsValid ngx z
        → IsDistinct rest
        → ((b : ℕ) → mem b rest ≡ true → Holds ngx z b)
        → let r = flush_loop ngx now attempts rest freed z in
          Flushed now z r.1
          × (r.0 + length (ngx.items r.1.queue) ≡ freed + length (ngx.items z.queue))
          × (freed < attempts → r.0 ≤ attempts)
          × (attempts ≡ 0
              → (b : ℕ) → mem b rest ≡ true
              → has_expired (z.heap b).expires now ≡ true
              → mem b (ngx.items r.1.queue) ≡ false)
    unfolding flush_loop
    loop_Flushed attempts [] freed z v d within = (
      record { valid = v; heap = refl; sheds = λ b h. h; retains = λ b h _. h },
      refl,
      λ p. omega arith,
      λ n b h. absurd (cc),
    )
    loop_Flushed attempts (a ∷ rest) freed z v d within =
        let held = within a (ground (arith, ==_refl a)) in
        let y = drop_node ngx z a in
        elim (Bool-cases (has_expired (z.heap a).expires now)) [
          | inl old ↦
              let f = drop_node-Flushed z v a held old in
              let size = length-drop_node z a held in
              elim (Bool-cases (not (attempts == 0) && freed + 1 == attempts)) [
                | inl last ↦
                    rw (flush_loop, old, last)
                      (f, omega arith, λ p. omega arith, λ n. absurd (ground arith))
                | inr more ↦
                    let (g, count, bound, all) =
                      loop_Flushed attempts rest (freed + 1) y f.valid d.1 (λ b h. ground (
                        arith,
                        mem-drop_node ngx z v a held b,
                        within b,
                        ==_iff b a,
                        λ (s : b ≡ a). ap (λ (x : ℕ). mem x rest) s,
                      )) in
                    rw (flush_loop, old, more)
                      (
                        Flushed-trans z y _ f g,
                        omega arith,
                        λ p. bound (ground arith),
                        λ n b h e. ground (
                          arith,
                          all n b,
                          g.sheds b,
                          mem-drop_node ngx z v a held b,
                          ap (λ (k : ℕ → Node). (k b).expires) (heap-drop_node ngx z a),
                        ),
                      )
              ]
          | inr new ↦
              let (g, count, bound, all) =
                loop_Flushed attempts rest freed z v d.1 (λ b h. within b (ground arith)) in
              rw (flush_loop, new)
                (
                  g,
                  count,
                  bound,
                  λ n b h e.
                      all n b
                        (ground (
                          arith,
                          ==_iff b a,
                          λ (s : b ≡ a). ap (λ (x : ℕ). has_expired (z.heap x).expires now) s,
                        ))
                        e,
                )
        ]

  -- What a flush that returns `r` does to `z`.
  pub record FlushesExpired (now attempts : ℕ) (z : Zone Queue Slab) (r : ℕ × Zone Queue Slab)
      : Type 0 where
    pub valid : IsValid ngx r.1
    pub heap : r.1.heap ≡ z.heap
    pub sheds : (b : ℕ) → Holds ngx r.1 b → Holds ngx z b
    pub retains : (b : ℕ) → Holds ngx z b → IsCurrent (z.heap b).expires now → Holds ngx r.1 b
    pub unlocked : r.1.locked ≡ false
    pub count : r.0 + length (ngx.items r.1.queue) ≡ length (ngx.items z.queue)
    pub bound : 0 < attempts → r.0 ≤ attempts
    pub all : attempts ≡ 0 → (b : ℕ) → Holds ngx r.1 b → IsCurrent (r.1.heap b).expires now

  flush_expired_some :
      (t : Time) (attempts : ℕ) (z : Zone Queue Slab) (a : ℕ) (rest : List ℕ)
      → ngx.items z.queue ≡ a ∷ rest
      → let r = flush_loop ngx (to_ms t) attempts (reverse (ngx.items z.queue)) 0 (lock ngx z) in
        flush_expired ngx t attempts z ≡ (r.0, unlock ngx r.1)
  unfolding flush_expired
  flush_expired_some t attempts z a rest e = rw (flush_expired, e)

  -- On a valid zone with at least one node, flush_expired leaves a valid zone with the mutex free,
  -- keeps the nodes that do not expire or that expire later than now, returns the number of the
  -- dropped ones, at most `attempts` if that is positive, and keeps no other nodes if it is 0.
  pub flush_expired-FlushesExpired :
      (t : Time) (attempts : ℕ) (z : Zone Queue Slab)
      → IsValid ngx z
      → ngx.items z.queue ≢ []
      → FlushesExpired (to_ms t) attempts z (flush_expired ngx t attempts z)
  flush_expired-FlushesExpired t attempts z v some_node = go (ngx.items z.queue) refl
    where
      order : List ℕ
      order = reverse (ngx.items z.queue)

      result : ℕ × Zone Queue Slab
      result = flush_loop ngx (to_ms t) attempts order 0 (lock ngx z)

      go :
          (xs : List ℕ)
          → ngx.items z.queue ≡ xs
          → FlushesExpired (to_ms t) attempts z (flush_expired ngx t attempts z)
      go [] e = absurd (some_node e)
      go (a ∷ rest) e =
          let (f, count, bound, all) =
            loop_Flushed (to_ms t) attempts order 0 (lock ngx z) (lock-IsValid ngx z v)
              (reverse-IsDistinct (ngx.items z.queue) v.distinct)
              (λ b h. sym (mem-reverse b (ngx.items z.queue)) ∙ h) in
          rw (flush_expired_some t attempts z a rest e) (record {
            valid = unlock-IsValid ngx result.1 f.valid;
            heap = f.heap;
            sheds = f.sheds;
            retains =
                λ b h c. f.retains b h ((has_expired-IsCurrent (z.heap b).expires (to_ms t)).1 c);
            unlocked = refl;
            count = count ∙ omega arith;
            bound = bound;
            all = λ n b h. (has_expired-IsCurrent (result.1.heap b).expires (to_ms t)).0 (
                ground (
                  arith,
                  all n b,
                  f.sheds b h,
                  mem-reverse b (ngx.items z.queue),
                  ap (λ (k : ℕ → Node). (k b).expires) f.heap,
                ));
          })
