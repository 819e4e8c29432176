-- ===== src/Shm/Insert.antt =====
-- The labels `insert:` and `allocated:` of `ngx_shm_dict_set_impl` (ngx_shm_dict_writer.c), with
-- the loop that evicts.
use hustngx.Prelude.{
  ℕ, zero, suc, ◌≡◌, ◌≢◌, ◌⊎◌, refl, sym, ap, ◌∙◌, true, false, some, ◌∷◌, ◌==◌, inl, inr,
  Bool-cases, Option-cases, arith, mem, ==_iff,
}
use hustngx.Nginx.{Nginx, Tree, Bytes, inorder}
use hustngx.Shm.Node.{Node, Zone, shm_crc32, insert_value}
use hustngx.Shm.Order.{IsSorted, mem-insert_value, node_order-key_order, key_order-eq}
use hustngx.Shm.Search.{insert_value-IsSorted, IsSorted-congr}
use hustngx.Shm.Zone.{update, expire}
use hustngx.Shm.Valid.{IsValid, Holds}
use hustngx.Shm.Expire.{expire-Drops}
use hustngx.Shm.Writer.{Request, filled, allocated, evict, insert, node_size, has, shm_safe_store}
use hustngx.Shm.Effect.{
  Effect, Effect-after, Effect-error, Old, IsAbsent, IsAbsent-Sheds, Sheds-Drops,
}

pub update_self : (heap : ℕ → Node) (a : ℕ) (n : Node) → update heap a n a ≡ n
unfolding update
update_self heap a n = ground arith

pub update_ne : (heap : ℕ → Node) (a : ℕ) (n : Node) (b : ℕ) → b ≢ a → update heap a n b ≡ heap b
unfolding update
update_ne heap a n b h = ground (arith, ==_iff b a)

module _ {Queue Slab : Type 0} (ngx : Nginx Queue Slab) where
  inorder-rbtree_insert :
      (heap : ℕ → Node) (t : Tree) (a : ℕ)
      → inorder (ngx.rbtree_insert (insert_value ngx heap) t a)
        ≡ inorder (insert_value ngx heap t a)
  inorder-rbtree_insert heap Tree.sentinel a =
      unfold insert_value in ngx.rbtree_insert-sentinel (insert_value ngx heap) a
  inorder-rbtree_insert heap (Tree.branch l b r) a =
      ngx.rbtree_insert-branch (insert_value ngx heap) l b r a

  module _ (z : Zone Queue Slab) (v : IsValid ngx z) (a : ℕ) (n : Node)
      (unused : mem a (ngx.items z.queue) ≡ false) (new : IsAbsent ngx n.key z) where
    heap_new : ℕ → Node
    heap_new = update z.heap a n

    heap_new_ne : (b : ℕ) → Holds ngx z b → heap_new b ≡ z.heap b
    unfolding heap_new update
    heap_new_ne b h = ground (arith, ==_iff b a)

    tree_new-IsSorted : IsSorted ngx heap_new (inorder (insert_value ngx heap_new z.tree a))
    tree_new-IsSorted =
        insert_value-IsSorted ngx heap_new z.tree a
          (IsSorted-congr ngx z.heap heap_new (inorder z.tree)
            (λ b h. ap (λ (m : Node). m.hash) (sym (heap_new_ne b (v.same b ∙ h))))
            (λ b h. ap (λ (m : Node). m.key) (sym (heap_new_ne b (v.same b ∙ h)))) v.sorted)
          (λ b h e. new b (v.same b ∙ h) (
            ap (λ (m : Node). m.key) (sym (heap_new_ne b (v.same b ∙ h)))
            ∙ sym
                (key_order-eq ngx _ _ _ _
                  (sym (node_order-key_order ngx (heap_new a) (heap_new b)) ∙ e)).1
            ∙ (unfold heap_new update in ground arith)))

  pub allocated-Effect :
      (rq : Request) (v : Bytes) (z : Zone Queue Slab) (size a : ℕ) (slab : Slab)
      → IsValid ngx z
      → IsAbsent ngx rq.key z
      → rq.value ≡ some v
      → ngx.slab_alloc z.slab size ≡ some (a, slab)
      → Effect ngx rq z (allocated ngx rq v size a (record z { slab = slab }))
  allocated-Effect rq v z size a slab w absent value alloc =
      unfold allocated in
      record {
        valid = record {
          sorted = rw (inorder-rbtree_insert heap z.tree a) sorted;
          distinct = rw items' (unused, w.distinct);
          same = λ b.
              rw
                (
                  items',
                  inorder-rbtree_insert heap z.tree a,
                  mem-insert_value ngx heap z.tree a b,
                  w.same b,
                )
                refl;
          live = λ b h. live b (split b h);
          hashed = λ b h. hashed b (split b h);
        };
        unlocked = refl;
        others = λ b h k. others b k (split b h);
        failed = λ f. absurd (cc);
        succeeded = λ f. inl (record {
          at = a;
          bytes = v;
          value = value;
          holds = rw items' (ground arith);
          node = update_self z.heap a n;
        });
      }
    where
      n : Node
      n = filled rq v (shm_crc32 ngx rq.key)

      heap : ℕ → Node
      heap = update z.heap a n

      unused : mem a (ngx.items z.queue) ≡ false
      unused = ground (arith, w.live a, ngx.slab_alloc_fresh z.slab size a slab)

      items' : ngx.items (ngx.insert_head z.queue a) ≡ a ∷ ngx.items z.queue
      items' = ngx.items-insert_head z.queue a unused

      sorted : IsSorted ngx heap (inorder (insert_value ngx heap z.tree a))
      sorted = unfold heap_new in tree_new-IsSorted z w a n unused (unfold filled in absent)

      split :
          (b : ℕ) → mem b (ngx.items (ngx.insert_head z.queue a)) ≡ true → (b ≡ a) ⊎ Holds ngx z b
      split b h = ground (arith, rw items' at h, ==_iff b a)

      live : (b : ℕ) → (b ≡ a) ⊎ Holds ngx z b → ngx.in_use slab b ≡ true
      live b c =
          ground (arith, ngx.in_use-slab_alloc z.slab size a slab alloc b, w.live b, ==_iff b a)

      old : (b : ℕ) → Holds ngx z b → heap b ≡ z.heap b
      old b h =
          update_ne z.heap a n b (λ e. cc (h, unused, ap (λ (x : ℕ). mem x (ngx.items z.queue)) e))

      hashed : (b : ℕ) → (b ≡ a) ⊎ Holds ngx z b → (heap b).hash ≡ shm_crc32 ngx (heap b).key
      hashed b (inl e) = rw (e, update_self z.heap a n) (unfold filled in refl)
      hashed b (inr h) = rw (old b h) (w.hashed b h)

      others :
          (b : ℕ)
          → (heap b).key ≢ rq.key
          → (b ≡ a) ⊎ Holds ngx z b
          → Old ngx z (record z { heap = heap }) b
      others b k (inl e) = absurd (k (rw (e, update_self z.heap a n) (unfold filled in refl)))
      others b k (inr h) = (h, old b h)

  evict-Effect :
      (rounds : ℕ) (rq : Request) (v : Bytes) (z : Zone Queue Slab)
      → IsValid ngx z
      → IsAbsent ngx rq.key z
      → rq.value ≡ some v
      → Effect ngx rq z (evict ngx rounds rq v z)
  unfolding evict
  evict-Effect zero rq v z w absent value = Effect-error ngx rq z w
  evict-Effect (suc rounds) rq v z w absent value =
      let (dropped, d, _, _, _) = expire-Drops ngx rq.time 0 z w in
      let z' = (expire ngx rq.time 0 z).1 in
      let s = Sheds-Drops ngx z z' dropped d in
      let absent' = IsAbsent-Sheds ngx rq.key z z' s absent in
      Effect-after ngx rq z z' _ s (elim (Bool-cases ((expire ngx rq.time 0 z).0 == 0)) [
        | inl e ↦ rw (evict, e) (Effect-error ngx rq z' d.valid)
        | inr e ↦ elim (Option-cases (ngx.slab_alloc z'.slab (node_size ngx rq v))) [
          | inl f ↦ rw (evict, e, f) (evict-Effect rounds rq v z' d.valid absent' value)
          | inr ((a, slab), f) ↦
              rw (evict, e, f)
                (allocated-Effect rq v z' (node_size ngx rq v) a slab d.valid absent' value f)
        ]
      ])

  -- `insert:` on a valid zone without the key.
  pub insert-Effect :
      (rq : Request) (z : Zone Queue Slab)
      → IsValid ngx z
      → IsAbsent ngx rq.key z
      → Effect ngx rq z (insert ngx rq z)
  unfolding insert
  insert-Effect rq z w absent = elim (Option-cases rq.value) [
    | inl e ↦ simp (insert, e) (Effect-error ngx rq z w)
    | inr (v, e) ↦ elim (Option-cases (ngx.slab_alloc z.slab (node_size ngx rq v))) [
      | inl f ↦ elim (Bool-cases (has rq.flags shm_safe_store)) [
        | inl g ↦ simp (insert, e, f, g) (Effect-error ngx rq z w)
        | inr g ↦ simp (insert, e, f, g) (evict-Effect 30 rq v z w absent e)
      ]
      | inr ((a, slab), f) ↦
          simp (insert, e, f) (allocated-Effect rq v z (node_size ngx rq v) a slab w absent e f)
    ]
  ]
