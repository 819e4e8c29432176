-- ===== src/Shm/Read.antt =====
-- `ngx_shm_dict_get` (ngx_shm_dict_reader.c) on a valid zone, and after a write.
use hustngx.Prelude.{
  ℕ, ◌≡◌, ◌≤◌, ◌<◌, refl, sym, ap, subst, some-injective, ◌∙◌, true, false, ◌||◌, Option, some, ltb,
  ◌==◌, inl, inr, Bool-cases, arith, mem, length, mem-append,
}
use hustngx.Nginx.{Nginx, Bytes}
use hustngx.Shm.Node.{Node, Zone, Time, to_ms, shm_crc32, ms_positive, ms_negative}
use hustngx.Shm.Zone.{lock, unlock, touch, expire, lookup, is_stale, is_kept}
use hustngx.Shm.Valid.{
  IsValid, Holds, touch-IsValid, mem-touch, heap-touch, lock-IsValid, unlock-IsValid,
}
use hustngx.Shm.Expire.{expire-Drops, lookup_cases, IsFresh}
use hustngx.Shm.Effect.{Sheds, Sheds-touch, Sheds-Drops, Holds-unique}
use hustngx.Shm.Reader.{Got, got_node, answer, get}

module _ {Queue Slab : Type 0} (ngx : Nginx Queue Slab) where
  -- A fresh node of `z` is still in `z'`, unchanged.
  abbrev pub Retains : ℕ → Zone Queue Slab → Zone Queue Slab → Type 0
  Retains now z z' =
      (b : ℕ) → Holds ngx z b → IsFresh ngx (z.heap b) now → Holds ngx z' b × (z'.heap b ≡ z.heap b)

  -- The zone after a read: valid, with the mutex free, with nothing new, and with every node that
  -- has not expired.
  pub record Reads (now : ℕ) (z z' : Zone Queue Slab) : Type 0 where
    pub valid : IsValid ngx z'
    pub unlocked : z'.locked ≡ false
    pub sheds : Sheds ngx z z'
    pub retains : Retains now z z'

  pub Retains-expire :
      (t : Time) (z : Zone Queue Slab)
      → IsValid ngx z
      → Retains (to_ms t) z (expire ngx t 1 (lock ngx z)).1
  Retains-expire t z v b h fresh =
      let (dropped, d, _, _, old) = expire-Drops ngx t 1 (lock ngx z) (lock-IsValid ngx z v) in
      let z' = (expire ngx t 1 (lock ngx z)).1 in
      let split : (mem b (ngx.items z'.queue) || mem b dropped) ≡ true =
        sym (mem-append b (ngx.items z'.queue) dropped) ∙ ap (mem b) d.tail ∙ h in
      (ground (arith, old (omega arith) b), ap (λ (f : ℕ → Node). f b) d.heap)

  pub fresh_not_stale :
      (expires now : ℕ) → is_kept 1 expires now ≡ true → is_stale expires now ≡ false
  unfolding is_kept is_stale ms_positive ms_negative
  fresh_not_stale expires now h = ground arith

  Reads-touch :
      (now : ℕ) (z : Zone Queue Slab)
      → IsValid ngx z
      → (a : ℕ) → Holds ngx z a
      → Reads now z (unlock ngx (touch ngx z a))
  Reads-touch now z v a h = record {
    valid = unlock-IsValid ngx (touch ngx z a) (touch-IsValid ngx z v a h);
    unlocked = refl;
    sheds = Sheds-touch ngx z v a h;
    retains =
        λ b k _. (mem-touch ngx z v a h b ∙ k, ap (λ (f : ℕ → Node). f b) (heap-touch ngx z a));
  }

  -- The answer after the expiry: what the zone becomes, and what is read.
  record Answers (t : Time) (key : Bytes) (z : Zone Queue Slab) (r : Option Got × Zone Queue Slab)
      : Type 0 where
    reads : Reads (to_ms t) z r.1
    sound :
        (g : Got)
        → r.0 ≡ some g
        → Holds ngx z g.at
          × ((z.heap g.at).key ≡ key)
          × (is_stale (z.heap g.at).expires (to_ms t) ≡ false)
          × (g ≡ got_node t g.at (z.heap g.at))
    complete :
        (b : ℕ)
        → Holds ngx z b
        → (z.heap b).key ≡ key
        → is_stale (z.heap b).expires (to_ms t) ≡ false
        → r.0 ≡ some (got_node t b (z.heap b))

  hit_sound :
      (t : Time) (key : Bytes) (z : Zone Queue Slab) (a : ℕ)
      → Holds ngx z a
      → (z.heap a).key ≡ key
      → is_stale (z.heap a).expires (to_ms t) ≡ false
      → (g : Got) → ◌≡◌ {A = Option Got} (some (got_node t a ((touch ngx z a).heap a))) (some g)
      → Holds ngx z g.at
        × ((z.heap g.at).key ≡ key)
        × (is_stale (z.heap g.at).expires (to_ms t) ≡ false)
        × (g ≡ got_node t g.at (z.heap g.at))
  unfolding got_node touch
  hit_sound t key z a h same new g e =
      subst
        (λ (g : Got).
          Holds ngx z g.at
          × ((z.heap g.at).key ≡ key)
          × (is_stale (z.heap g.at).expires (to_ms t) ≡ false)
          × (g ≡ got_node t g.at (z.heap g.at)))
        (some-injective _ _ e) (h, same, new, refl)

  hit_complete :
      (t : Time) (z : Zone Queue Slab) (a b : ℕ)
      → a ≡ b
      → ◌≡◌ {A = Option Got}
          (some (got_node t a ((touch ngx z a).heap a)))
          (some (got_node t b (z.heap b)))
  unfolding touch
  hit_complete t z a b e = ap (λ (x : ℕ). some (got_node t x (z.heap x))) e

  answer-Answers :
      (t : Time) (key : Bytes) (z : Zone Queue Slab)
      → IsValid ngx z
      → let r = lookup ngx t (shm_crc32 ngx key) key z in Answers t key z (answer ngx t r.0 r.1)
  unfolding answer
  answer-Answers t key z v = elim (lookup_cases ngx t key z v) [
    | inl (e, absent) ↦ rw e (record {
      reads = record {
        valid = unlock-IsValid ngx z v;
        unlocked = refl;
        sheds = λ b h. (h, refl);
        retains = λ b h _. (h, refl);
      };
      sound = λ g f. absurd (cc);
      complete = λ b h k _. absurd (absent b h k);
    })
    | inr (a, h, hash, same, e) ↦ elim (Bool-cases (is_stale (z.heap a).expires (to_ms t))) [
      | inl old ↦
          rw (e, old)
            (record {
              reads = Reads-touch (to_ms t) z v a h;
              sound = λ g f. absurd (cc);
              complete = λ b k l s. absurd (
                  cc (
                    ap (λ (x : ℕ). is_stale (z.heap x).expires (to_ms t))
                      (Holds-unique ngx z v a b h k (same ∙ sym l))));
            })
      | inr new ↦
          rw (e, new)
            (record {
              reads = Reads-touch (to_ms t) z v a h;
              sound = λ g f. hit_sound t key z a h same new g f;
              complete =
                  λ b k l s. hit_complete t z a b (Holds-unique ngx z v a b h k (same ∙ sym l));
            })
    ]
  ]

  module _ (t : Time) (key : Bytes) (z : Zone Queue Slab) (v : IsValid ngx z) (p : 0 < length key)
      (q : length key ≤ 65535) where
    get-Answers : Answers t key (expire ngx t 1 (lock ngx z)).1 (get ngx t key z)
    unfolding get
    get-Answers =
        let (dropped, d, _, _, _) = expire-Drops ngx t 1 (lock ngx z) (lock-IsValid ngx z v) in
        let admissible : (length key == 0 || ltb 65535 (length key)) ≡ false = ground arith in
        rw admissible (answer-Answers t key (expire ngx t 1 (lock ngx z)).1 d.valid)

    expire-Sheds : Sheds ngx z (expire ngx t 1 (lock ngx z)).1
    expire-Sheds =
        let (dropped, d, _, _, _) = expire-Drops ngx t 1 (lock ngx z) (lock-IsValid ngx z v) in
        λ b h. Sheds-Drops ngx (lock ngx z) (expire ngx t 1 (lock ngx z)).1 dropped d b h

    -- A read of a key of 1 to 65535 bytes leaves a valid zone valid, with the mutex free, with
    -- nothing new and with every node that has not expired, unchanged.
    pub get-Reads : Reads (to_ms t) z (get ngx t key z).1
    get-Reads =
        let r = get-Answers.reads in
        record {
          valid = r.valid;
          unlocked = r.unlocked;
          sheds = λ b h. let s = r.sheds b h in let f = expire-Sheds b s.0 in (f.0, s.1 ∙ f.1);
          retains = λ b h k.
              let f = Retains-expire t z v b h k in
              let s = r.retains b f.0 (rw f.1 k) in (s.0, s.1 ∙ f.1);
        }

    -- What a read of a valid zone returns is the content of a node that has the key and is not
    -- stale. The key has 1 to 65535 bytes.
    pub get_sound :
        (g : Got)
        → (get ngx t key z).0 ≡ some g
        → Holds ngx z g.at
          × ((z.heap g.at).key ≡ key)
          × (is_stale (z.heap g.at).expires (to_ms t) ≡ false)
          × (g ≡ got_node t g.at (z.heap g.at))
    get_sound g e =
        let (h, same, new, content) = get-Answers.sound g e in
        let s = expire-Sheds g.at h in rw (← s.1) (s.0, same, new, content)

    -- A node of a valid zone that has the key and has not expired is what a read of the key
    -- returns. The key has 1 to 65535 bytes.
    pub get_complete :
        (b : ℕ)
        → Holds ngx z b
        → (z.heap b).key ≡ key
        → IsFresh ngx (z.heap b) (to_ms t)
        → (get ngx t key z).0 ≡ some (got_node t b (z.heap b))
    get_complete b h same fresh =
        let f = Retains-expire t z v b h fresh in
        let e =
          get-Answers.complete b f.0 (rw f.1 same)
            (rw f.1 (fresh_not_stale (z.heap b).expires (to_ms t) fresh)) in
        rw f.1 at e

    -- What a read of a valid zone returns is the content of a node that has the key and is not
    -- stale; and a node that has the key and has not expired is what the read returns. The key has
    -- 1 to 65535 bytes.
    pub get_exact :
        ((g : Got)
          → (get ngx t key z).0 ≡ some g
          → Holds ngx z g.at
            × ((z.heap g.at).key ≡ key)
            × (is_stale (z.heap g.at).expires (to_ms t) ≡ false)
            × (g ≡ got_node t g.at (z.heap g.at)))
        × ((b : ℕ)
            → Holds ngx z b
            → (z.heap b).key ≡ key
            → IsFresh ngx (z.heap b) (to_ms t)
            → (get ngx t key z).0 ≡ some (got_node t b (z.heap b)))
    get_exact = (get_sound, get_complete)
