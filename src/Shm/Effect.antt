-- ===== src/Shm/Effect.antt =====
-- What a write request does to a valid zone, step by step: the labels of `ngx_shm_dict_set_impl`
-- (ngx_shm_dict_writer.c).
use hustngx.Prelude.{ℕ, ◌≡◌, ◌≢◌, ◌⊎◌, refl, sym, ap, ◌∙◌, false, some, List, arith}
use hustngx.Nginx.{Nginx, Bytes}
use hustngx.Shm.Node.{Node, Zone, shm_crc32}
use hustngx.Shm.Search.{search_tree-mem}
use hustngx.Shm.Zone.{unlock, touch, drop_node}
use hustngx.Shm.Valid.{IsValid, Holds, mem-touch, mem-drop_node, heap-touch, heap-drop_node}
use hustngx.Shm.Expire.{Drops, Drops-Holds}
use hustngx.Shm.Writer.{ok, error, Request, filled, Outcome, shm_dict_null}

module _ {Queue Slab : Type 0} (ngx : Nginx Queue Slab) where
  -- The node at `b` is the one that was there.
  abbrev pub Old : Zone Queue Slab → Zone Queue Slab → ℕ → Type 0
  Old z z' b = Holds ngx z b × (z'.heap b ≡ z.heap b)

  -- Nothing is new in `z'`.
  abbrev pub Sheds : Zone Queue Slab → Zone Queue Slab → Type 0
  Sheds z z' = (b : ℕ) → Holds ngx z' b → Old z z' b

  -- No node has the key.
  abbrev pub IsAbsent : Bytes → Zone Queue Slab → Type 0
  IsAbsent key z = (b : ℕ) → Holds ngx z b → (z.heap b).key ≢ key

  -- The node with the key is the one that the request describes.
  pub record Stored (rq : Request) (z : Zone Queue Slab) : Type 0 where
    pub at : ℕ
    pub bytes : Bytes
    pub value : rq.value ≡ some bytes
    pub holds : Holds ngx z at
    pub node : z.heap at ≡ filled rq bytes (shm_crc32 ngx rq.key)

  -- The effect of a request: the zone is valid and its mutex is free; a node with another key is
  -- as before or gone; on an error nothing is new; on success the value is stored, or it was a
  -- removal and the key is gone.
  pub record Effect (rq : Request) (z : Zone Queue Slab) (r : Outcome ngx) : Type 0 where
    pub valid : IsValid ngx r.1
    pub unlocked : r.1.locked ≡ false
    pub others : (b : ℕ) → Holds ngx r.1 b → (r.1.heap b).key ≢ rq.key → Old z r.1 b
    pub failed : r.0 ≡ error → Sheds z r.1
    pub succeeded :
        r.0 ≡ ok → Stored rq r.1 ⊎ ((rq.value_type ≡ shm_dict_null) × IsAbsent rq.key r.1)

  pub Effect-after :
      (rq : Request) (z z' : Zone Queue Slab) (r : Outcome ngx)
      → Sheds z z'
      → Effect rq z' r
      → Effect rq z r
  Effect-after rq z z' r s e = record {
    valid = e.valid;
    unlocked = e.unlocked;
    others = λ b h k. let o = e.others b h k in let p = s b o.0 in (p.0, o.1 ∙ p.1);
    failed = λ f b h. let o = e.failed f b h in let p = s b o.0 in (p.0, o.1 ∙ p.1);
    succeeded = e.succeeded;
  }

  -- A failure that leaves a valid zone as it is.
  pub Effect-error :
      (rq : Request) (z : Zone Queue Slab) → IsValid ngx z → Effect rq z (error, unlock ngx z)
  Effect-error rq z v = record {
    valid = record {
      sorted = v.sorted;
      distinct = v.distinct;
      same = v.same;
      live = v.live;
      hashed = v.hashed;
    };
    unlocked = refl;
    others = λ b h k. (h, refl);
    failed = λ f b h. (h, refl);
    succeeded = λ f. absurd (cc);
  }

  pub Sheds-touch :
      (z : Zone Queue Slab) → IsValid ngx z → (a : ℕ) → Holds ngx z a → Sheds z (touch ngx z a)
  Sheds-touch z v a h b k =
      (sym (mem-touch ngx z v a h b) ∙ k, ap (λ (f : ℕ → Node). f b) (heap-touch ngx z a))

  pub Sheds-drop_node :
      (z : Zone Queue Slab) → IsValid ngx z → (a : ℕ) → Holds ngx z a → Sheds z (drop_node ngx z a)
  Sheds-drop_node z v a h b k = (
    ground (arith, mem-drop_node ngx z v a h b),
    ap (λ (f : ℕ → Node). f b) (heap-drop_node ngx z a),
  )

  pub Sheds-Drops :
      (z z' : Zone Queue Slab) (dropped : List ℕ) → Drops ngx z z' dropped → Sheds z z'
  Sheds-Drops z z' dropped d b h = (Drops-Holds ngx d b h, ap (λ (f : ℕ → Node). f b) d.heap)

  pub IsAbsent-Sheds :
      (key : Bytes) (z z' : Zone Queue Slab) → Sheds z z' → IsAbsent key z → IsAbsent key z'
  IsAbsent-Sheds key z z' s absent b h k =
      absent b (s b h).0 (ap (λ (n : Node). n.key) (sym (s b h).1) ∙ k)

  -- Two nodes with one key are one node.
  pub Holds-unique :
      (z : Zone Queue Slab)
      → IsValid ngx z
      → (a b : ℕ) → Holds ngx z a
      → Holds ngx z b
      → (z.heap a).key ≡ (z.heap b).key
      → a ≡ b
  Holds-unique z v a b h k e =
      let p = search_tree-mem ngx z.heap z.tree a v.sorted (sym (v.same a) ∙ h) in
      let q = search_tree-mem ngx z.heap z.tree b v.sorted (sym (v.same b) ∙ k) in
      cc (p, q, e, v.hashed a h, v.hashed b k, ap (shm_crc32 ngx) e)
